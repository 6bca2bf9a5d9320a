-- ===== src/Server/Serve.antt =====
-- cmd/server/main.go: a request on its way through `requireBearer` and the mux to its handler.
use Prim.Native.String.{◌++◌}
use sqlite_durable_workflow.Common.{String, ℕ, ℤ, List, ◌==◌, if◌then◌else◌}
use sqlite_durable_workflow.Store.Platform.{Platform}
use sqlite_durable_workflow.Server.Bodies.{Decoder}
use sqlite_durable_workflow.Server.Replies.{
  Handler, Problem, problem, unauthorized, not_found, method_not_allowed,
}
use sqlite_durable_workflow.Server.Routes.{
  Method, reading, writing, Reader, Writer, Match, found, wrong_method, no_route, routes,
  match_route,
}
use sqlite_durable_workflow.Server.Handlers.{
  create_workflow_handler, complete_workflow_handler, fail_workflow_handler, mark_waiting_handler,
  acquire_lease_handler, renew_lease_handler, release_lease_handler, start_step_handler,
  complete_step_handler, fail_step_handler, send_signal_handler, consume_signal_handler,
  create_timer_handler, retry_step_handler,
}
use sqlite_durable_workflow.Server.Readers.{
  get_workflow_handler, get_steps_handler, get_signals_handler, get_events_handler,
  query_failed_handler, query_running_handler, query_queued_handler, query_waiting_handler,
  avg_step_duration_handler,
}

-- `path` is the segments of a clean path, `unconsumed` the query's parameter of that name and
-- `authorization` the header, both empty where there is none.
pub record HttpRequest : Type 0 where
  pub method : Method
  pub path : List String
  pub unconsumed : String
  pub authorization : String
  pub body : String

-- What does not change from request to request: the libraries, the server's lease duration and
-- `-api-key`.
pub record Server : Type 1 where
  pub platform : Platform
  pub decoder : Decoder
  pub own_duration : ℤ
  pub api_key : String

abbrev pub refused : {F : Type 0} → ℕ → Problem → Handler F
refused code p s = (problem code p, s)

abbrev pub Answer : Server → Type 0
Answer v = Handler v.platform.Float

module _ (v : Server) where
  unfoldable pub read : Reader → String → String → Answer v
  read Reader.get_workflow id unconsumed = get_workflow_handler v.platform id unconsumed
  read Reader.get_steps id unconsumed = get_steps_handler v.platform id unconsumed
  read Reader.get_signals id unconsumed = get_signals_handler v.platform id unconsumed
  read Reader.get_events id unconsumed = get_events_handler v.platform id unconsumed
  read Reader.query_failed id unconsumed = query_failed_handler v.platform id unconsumed
  read Reader.query_running id unconsumed = query_running_handler v.platform id unconsumed
  read Reader.query_queued id unconsumed = query_queued_handler v.platform id unconsumed
  read Reader.query_waiting id unconsumed = query_waiting_handler v.platform id unconsumed
  read Reader.avg_step_duration id unconsumed = avg_step_duration_handler v.platform id unconsumed

  -- `now` is the clock's reading and `later` the second one that RetryStep makes.
  module _ (now later : ℤ) where
    unfoldable pub write : Writer → String → String → Answer v
    write Writer.create_workflow id body =
        create_workflow_handler v.platform v.decoder v.own_duration now later id body
    write Writer.complete_workflow id body =
        complete_workflow_handler v.platform v.decoder v.own_duration now later id body
    write Writer.fail_workflow id body =
        fail_workflow_handler v.platform v.decoder v.own_duration now later id body
    write Writer.mark_waiting id body =
        mark_waiting_handler v.platform v.decoder v.own_duration now later id body
    write Writer.acquire_lease id body =
        acquire_lease_handler v.platform v.decoder v.own_duration now later id body
    write Writer.renew_lease id body =
        renew_lease_handler v.platform v.decoder v.own_duration now later id body
    write Writer.release_lease id body =
        release_lease_handler v.platform v.decoder v.own_duration now later id body
    write Writer.start_step id body =
        start_step_handler v.platform v.decoder v.own_duration now later id body
    write Writer.complete_step id body =
        complete_step_handler v.platform v.decoder v.own_duration now later id body
    write Writer.fail_step id body =
        fail_step_handler v.platform v.decoder v.own_duration now later id body
    write Writer.send_signal id body =
        send_signal_handler v.platform v.decoder v.own_duration now later id body
    write Writer.consume_signal id body =
        consume_signal_handler v.platform v.decoder v.own_duration now later id body
    write Writer.create_timer id body =
        create_timer_handler v.platform v.decoder v.own_duration now later id body
    write Writer.retry_step id body =
        retry_step_handler v.platform v.decoder v.own_duration now later id body

    abbrev pub dispatch : HttpRequest → Match → Answer v
    dispatch r (found (reading e) id) = read e id r.unconsumed
    dispatch r (found (writing e) id) = write e id r.body
    dispatch r wrong_method = refused 405 method_not_allowed
    dispatch r no_route = refused 404 not_found

    unfoldable pub mux : HttpRequest → Answer v
    mux r = dispatch r (match_route routes r.method r.path)

    -- `requireBearer`.
    unfoldable pub require_bearer : HttpRequest → Answer v → Answer v
    require_bearer r next =
        if r.authorization == "Bearer " ++ v.api_key then next else refused 401 unauthorized

    unfoldable pub serve_http : HttpRequest → Answer v
    serve_http r = if v.api_key == "" then mux r else require_bearer r (mux r)
