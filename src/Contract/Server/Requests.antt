-- ===== src/Contract/Server/Requests.antt =====
-- cmd/server/main.go: what a request does to the database, from its route and its bearer token on.
use sqlite_durable_workflow.Common.{
  ◌∙◌, sym, subst, String, ℤ, true, false, Bool, List, [], ◌∷◌, Option, none, some, ◌≡◌, refl,
  arith, inl, inr, not, ◌&&◌, ◌||◌, ◌≢◌,
}
use sqlite_durable_workflow.Store.Session.{Session}
use sqlite_durable_workflow.Section.{Section}
use sqlite_durable_workflow.Server.Routes.{
  Method, post, get, head, other, Route, accepts, preferred, match_path, Endpoint, reading, writing,
  Match, found, wrong_method, no_route, routes, match_route,
}
use sqlite_durable_workflow.Server.Serve.{Server, HttpRequest, dispatch, mux, serve_http}
use sqlite_durable_workflow.Contract.Server.Writes.{Made, write-Reached}
use sqlite_durable_workflow.Contract.Server.Reads.{read-Kept}
use sqlite_durable_workflow.Contract.Server.Guard.{serve_http-cases}
use sqlite_durable_workflow.Contract.Server.Reached.{Led, here, Reached, same-Reached}
use sqlite_durable_workflow.Invariant.{IsWellFormed}

-- What the endpoint that is found may do to the database.
abbrev pub Permitted : Match → Section → Type 0
Permitted (found (writing w) id) c = Made w id c
Permitted m c = ⊥

module _ (v : Server) (now later : ℤ) (s : Session) (e : s.saved ≡ none)
    (wf : IsWellFormed s.db) where
  dispatch-Reached :
      (r : HttpRequest) (m : Match)
      → Reached v.platform (Permitted m) s.db (dispatch v now later r m s).1
  dispatch-Reached r (found (reading x) id) =
      let (same, saved) = read-Kept v x id r.unconsumed s in
      (
        saved ∙ e,
        subst IsWellFormed (sym same) wf,
        subst (Led v.platform (λ c. ⊥) s.db) (sym same) here,
      )
  dispatch-Reached r (found (writing x) id) = write-Reached v now later s e wf x id r.body
  dispatch-Reached r wrong_method = same-Reached v.platform (λ c. ⊥) s e wf
  dispatch-Reached r no_route = same-Reached v.platform (λ c. ⊥) s e wf

  mux-Reached :
      (r : HttpRequest)
      → Reached v.platform
          (Permitted (match_route routes r.method r.path))
          s.db
          (mux v now later r s).1
  unfolding mux
  mux-Reached r = dispatch-Reached r (match_route routes r.method r.path)

-- A request, whatever its method, path, header and body and whichever calls the driver refuses,
-- leaves well-formed tables well formed and no *sql.Tx open, and changes the database only by steps
-- of the function that its endpoint is for, on the workflow in its path where the endpoint takes
-- one; a request that no writing endpoint is found for changes nothing.
pub serve_http-Reached :
    (v : Server) (now later : ℤ) (r : HttpRequest) (s : Session)
    → s.saved ≡ none
    → IsWellFormed s.db
    → Reached v.platform
        (Permitted (match_route routes r.method r.path))
        s.db
        (serve_http v now later r s).1
serve_http-Reached v now later r s e wf = elim (serve_http-cases v now later r s) [
  | inl h ↦ rw h (mux-Reached v now later s e wf r)
  | inr h ↦ rw h (same-Reached v.platform (Permitted (match_route routes r.method r.path)) s e wf)
]

-- The endpoint found, if there is one, only reads.
abbrev is_reading : Match → Bool
is_reading (found (writing w) id) = false
is_reading m = true

-- The routes that take a method have endpoints that only read.
abbrev only_reads : Method → List Route → Bool
only_reads m [] = true
only_reads m (r ∷ rs) =
    (not (accepts r.method m) || is_reading (found r.endpoint "")) && only_reads m rs

preferred_reads :
    (o : Option String) (b : Bool) (e : Endpoint) (rest : Match)
    → not b || is_reading (found e "") ≡ true
    → is_reading rest ≡ true
    → is_reading (preferred o b e rest) ≡ true
preferred_reads none b e rest h k = k
preferred_reads (some id) true (reading e) rest h k = refl
preferred_reads (some id) true (writing e) rest h k = h
preferred_reads (some id) false e no_route h k = refl
preferred_reads (some id) false e wrong_method h k = refl
preferred_reads (some id) false e (found e' id') h k = k

match_reads :
    (m : Method) (path : List String) (rs : List Route)
    → only_reads m rs ≡ true
    → is_reading (match_route rs m path) ≡ true
unfolding match_route
match_reads m path [] h = refl
match_reads m path (r ∷ rs) h =
    preferred_reads (match_path r.pattern path "") (accepts r.method m) r.endpoint _ (ground arith)
      (match_reads m path rs (ground arith))

module _ (v : Server) (now later : ℤ) (s : Session) where
  dispatch_reads :
      (r : HttpRequest) (m : Match) → is_reading m ≡ true → (dispatch v now later r m s).1.db ≡ s.db
  dispatch_reads r (found (reading e) id) h = (read-Kept v e id r.unconsumed s).0
  dispatch_reads r (found (writing e) id) h = ground arith
  dispatch_reads r wrong_method h = refl
  dispatch_reads r no_route h = refl

  mux_reads :
      (r : HttpRequest)
      → only_reads r.method routes ≡ true
      → (serve_http v now later r s).1.db ≡ s.db
  unfolding mux
  mux_reads r h = elim (serve_http-cases v now later r s) [
    | inl k ↦ rw k (
        dispatch_reads r (match_route routes r.method r.path)
          (match_reads r.method r.path routes h))
    | inr k ↦ rw k refl
  ]

-- A request whose method is not POST writes nothing, whatever its path and whatever the driver
-- refuses.
pub only_post_writes :
    (v : Server) (now later : ℤ) (r : HttpRequest) (s : Session)
    → r.method ≢ post
    → (serve_http v now later r s).1.db ≡ s.db
only_post_writes v now later r s h = mux_reads v now later s r (routes_read r.method h)
  where
    routes_read : (m : Method) → m ≢ post → only_reads m routes ≡ true
    routes_read get h = refl
    routes_read head h = refl
    routes_read (other name) h = refl
    routes_read post h = elim (h refl) [ ]
