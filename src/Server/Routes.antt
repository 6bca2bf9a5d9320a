-- ===== src/Server/Routes.antt =====
-- cmd/server/main.go: the routes of `main`, and what `http.ServeMux` makes of them.
use sqlite_durable_workflow.Common.{
  String, Bool, true, false, List, [], ◌∷◌, Option, none, some, ◌==◌, if◌then◌else◌,
}

-- The method of a request or of a pattern.
pub data Method : Type 0 where
  get head post : Method
  other : String → Method

-- The handlers that only read.
pub data Reader : Type 0 where
  get_workflow get_steps get_signals get_events : Reader
  query_failed query_running query_queued query_waiting avg_step_duration : Reader

-- The handlers that change the database.
pub data Writer : Type 0 where
  create_workflow complete_workflow fail_workflow mark_waiting : Writer
  acquire_lease renew_lease release_lease : Writer
  start_step complete_step fail_step : Writer
  send_signal consume_signal create_timer retry_step : Writer

pub data Endpoint : Type 0 where
  reading : Reader → Endpoint
  writing : Writer → Endpoint

-- A segment of a pattern; `id` is the wildcard {id}.
pub data Segment : Type 0 where
  literal : String → Segment
  id : Segment

pub record Route : Type 0 where
  pub method : Method
  pub pattern : List Segment
  pub endpoint : Endpoint

abbrev get_route : List Segment → Reader → Route
get_route pattern r = record { method = get; pattern = pattern; endpoint = reading r }

abbrev post_route : List Segment → Writer → Route
post_route pattern w = record { method = post; pattern = pattern; endpoint = writing w }

-- The calls of `mux.HandleFunc`, in their order.
abbrev pub routes : List Route
routes =
    post_route (literal "workflows" ∷ []) create_workflow
    ∷ get_route (literal "workflows" ∷ id ∷ []) get_workflow
    ∷ post_route (literal "workflows" ∷ id ∷ literal "complete" ∷ []) complete_workflow
    ∷ post_route (literal "workflows" ∷ id ∷ literal "fail" ∷ []) fail_workflow
    ∷ post_route (literal "workflows" ∷ id ∷ literal "waiting" ∷ []) mark_waiting
    ∷ post_route (literal "leases" ∷ literal "acquire" ∷ []) acquire_lease
    ∷ post_route (literal "leases" ∷ id ∷ literal "renew" ∷ []) renew_lease
    ∷ post_route (literal "leases" ∷ id ∷ literal "release" ∷ []) release_lease
    ∷ post_route (literal "steps" ∷ literal "start" ∷ []) start_step
    ∷ post_route (literal "steps" ∷ literal "complete" ∷ []) complete_step
    ∷ post_route (literal "steps" ∷ literal "fail" ∷ []) fail_step
    ∷ get_route (literal "steps" ∷ id ∷ []) get_steps
    ∷ post_route (literal "signals" ∷ []) send_signal
    ∷ post_route (literal "signals" ∷ id ∷ literal "consume" ∷ []) consume_signal
    ∷ get_route (literal "signals" ∷ id ∷ []) get_signals
    ∷ post_route (literal "timers" ∷ []) create_timer
    ∷ post_route (literal "retry" ∷ []) retry_step
    ∷ get_route (literal "events" ∷ id ∷ []) get_events
    ∷ get_route (literal "observability" ∷ literal "failed" ∷ []) query_failed
    ∷ get_route (literal "observability" ∷ literal "running" ∷ []) query_running
    ∷ get_route (literal "observability" ∷ literal "queued" ∷ []) query_queued
    ∷ get_route (literal "observability" ∷ literal "waiting" ∷ []) query_waiting
    ∷ get_route (literal "observability" ∷ literal "avg-step-duration" ∷ []) avg_step_duration
    ∷ []

-- A pattern for GET takes HEAD as well.
abbrev pub accepts : Method → Method → Bool
accepts get get = true
accepts get head = true
accepts post post = true
accepts _ _ = false

-- The path's segments against a pattern's, with the value of {id} so far; {id} takes one segment
-- that is not empty.
abbrev pub match_path : List Segment → List String → String → Option String
match_path [] [] found_id = some found_id
match_path (literal w ∷ pattern) (x ∷ path) found_id =
    let rest = match_path pattern path found_id in if x == w then rest else none
match_path (id ∷ pattern) (x ∷ path) found_id =
    let rest = match_path pattern path x in if x == "" then none else rest
match_path _ _ found_id = none

-- A handler with the value of {id}, empty where the pattern has none; a path that other methods
-- have; a path that no method has.
pub data Match : Type 0 where
  found : Endpoint → String → Match
  wrong_method no_route : Match

abbrev otherwise : Match → Match
otherwise no_route = wrong_method
otherwise m = m

abbrev pub preferred : Option String → Bool → Endpoint → Match → Match
preferred none b e rest = rest
preferred (some path_id) true e rest = found e path_id
preferred (some path_id) false e rest = otherwise rest

-- No two routes for one method have a path in common, so that their order is of no matter.
unfoldable pub match_route : List Route → Method → List String → Match
match_route [] method path = no_route
match_route (r ∷ rs) method path =
    preferred (match_path r.pattern path "") (accepts r.method method) r.endpoint
      (match_route rs method path)
