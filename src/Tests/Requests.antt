-- ===== src/Tests/Requests.antt =====
-- The theorems on HTTP requests, at small databases.
use mathlib.Core.List.{Memᴰ}
use sqlite_durable_workflow.Common.{
  pos, int64, ◌+ℤ◌, true, false, String, List, [], ◌∷◌, none, some, ◌≡◌, refl,
}
use sqlite_durable_workflow.Store.Session.{Session, quiet, lease_mismatch, err}
use sqlite_durable_workflow.Section.{complete, perform, history}
use sqlite_durable_workflow.Workflow.{complete_workflow, create_workflow, acquire_lease}
use sqlite_durable_workflow.Server.Bodies.{Decoder}
use sqlite_durable_workflow.Server.Replies.{problem, engine}
use sqlite_durable_workflow.Server.Routes.{
  Route, literal, id, routes, match_route, found, writing, Writer, Method, get, post, match_route,
}
use sqlite_durable_workflow.Server.Serve.{Server, HttpRequest, mux, serve_http, write}
use sqlite_durable_workflow.Contract.Errors.{refusal_writes_nothing}
use sqlite_durable_workflow.Contract.Server.Reached.{Reached}
use sqlite_durable_workflow.Contract.Server.Requests.{
  Permitted, serve_http-Reached, only_post_writes,
}
use sqlite_durable_workflow.Contract.Server.Routing.{mux_finds_route}
use sqlite_durable_workflow.Contract.Server.Problems.{problem_writes_nothing}
use sqlite_durable_workflow.Tests.Samples.{platform}
use sqlite_durable_workflow.Tests.Histories.{opened, opened_closed, opened-WellFormed}

-- The bodies of the tests are a worker's name, or a request to retry step 1 of "w" of its.
abbrev decoder : Decoder
decoder = record {
  create_workflow_req = λ s. some (record { workflow_id = s; workflow_type = "order" });
  worker_req = λ s. some (record { worker_id = s });
  acquire_req = λ s. some (record { worker_id = s; lease_duration = pos 0 });
  renew_req = λ s. none;
  step_req = λ s. none;
  complete_step_req = λ s. none;
  fail_step_req = λ s. none;
  signal_req = λ s. none;
  timer_req = λ s. none;
  retry_req = λ s. some (record {
    workflow_id = "w";
    worker_id = s;
    step_number = pos 1;
    retry_count = pos 2;
    max_retries = pos 3;
    policy = "linear";
    base_secs = pos 5;
    max_secs = pos 0;
  });
}

abbrev open_server : Server
open_server = record { platform = platform; decoder = decoder; own_duration = pos 90; api_key = "" }

abbrev guarded_server : Server
guarded_server = record open_server { api_key = "key" }

abbrev request : Method → List String → String → String → HttpRequest
request method path authorization body = record {
  method = method;
  path = path;
  unconsumed = "";
  authorization = authorization;
  body = body;
}

abbrev retry_request : HttpRequest
retry_request = request post ("retry" ∷ []) "" "a"

abbrev complete_request : HttpRequest
complete_request = request post ("workflows" ∷ "w" ∷ "complete" ∷ []) "Bearer wrong" "b"

abbrev status_request : HttpRequest
status_request = request get ("workflows" ∷ "w" ∷ []) "Bearer key" ""

-- The driver refuses the second call of RetryStep, so that its timer stays.
abbrev half_refusing : Session
half_refusing = record opened { faults = false ∷ true ∷ [] }

serve_http-Reached_example :
    Reached platform
      (Permitted (match_route routes post retry_request.path))
      opened.db
      (serve_http open_server (pos 20) (pos 21) retry_request half_refusing).1
serve_http-Reached_example =
    serve_http-Reached open_server (pos 20) (pos 21) retry_request half_refusing opened_closed
      opened-WellFormed

abbrev refusing : Session
refusing = record opened { faults = true ∷ [] }

only_post_writes_example :
    (serve_http guarded_server (pos 20) (pos 21) status_request refusing).1.db ≡ opened.db
only_post_writes_example =
    only_post_writes guarded_server (pos 20) (pos 21) status_request refusing λ e. cc

completed_by_b :
    (serve_http open_server (pos 20) (pos 21) complete_request (quiet opened.db)).0
    ≡ problem 409 (engine lease_mismatch)
unfolding serve_http mux write match_route history perform create_workflow acquire_lease
    complete_workflow int64 ◌+ℤ◌
completed_by_b = refl

problem_writes_nothing_example :
    (serve_http open_server (pos 20) (pos 21) complete_request (quiet opened.db)).1
    ≡ quiet opened.db
unfolding match_route
problem_writes_nothing_example =
    problem_writes_nothing open_server (pos 20) (pos 21) complete_request opened.db 409
      (engine lease_mismatch) opened-WellFormed (λ id e. cc) completed_by_b

refused_complete : (perform platform (complete (pos 20) "w" "b") opened).0 ≡ err lease_mismatch
unfolding history perform create_workflow acquire_lease complete_workflow int64 ◌+ℤ◌
refused_complete = refl

refusal_writes_nothing_example :
    (perform platform (complete (pos 20) "w" "b") opened).1.db ≡ opened.db
refusal_writes_nothing_example =
    refusal_writes_nothing platform (complete (pos 20) "w" "b") opened lease_mismatch opened_closed
      opened-WellFormed refused_complete λ e. cc

abbrev complete_route : Route
complete_route = record {
  method = post;
  pattern = literal "workflows" ∷ id ∷ literal "complete" ∷ [];
  endpoint = writing Writer.complete_workflow;
}

mux_finds_route_example :
    match_route routes post ("workflows" ∷ "w" ∷ "complete" ∷ [])
    ≡ found (writing Writer.complete_workflow) "w"
mux_finds_route_example =
    mux_finds_route post ("workflows" ∷ "w" ∷ "complete" ∷ []) complete_route "w"
      (Memᴰ.tail (Memᴰ.tail (Memᴰ.head refl))) refl refl
