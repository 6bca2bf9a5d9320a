-- ===== src/Contract/Server/Guard.antt =====
-- cmd/server/main.go: `requireBearer` before the mux.
use Prim.Native.String.{◌++◌}
use sqlite_durable_workflow.Common.{◌==◌, ℤ, ◌≡◌, refl, ◌⊎◌, inl, inr, Bool-cases}
use sqlite_durable_workflow.Store.Session.{Session}
use sqlite_durable_workflow.Server.Replies.{problem, unauthorized}
use sqlite_durable_workflow.Server.Serve.{Server, HttpRequest, mux, require_bearer, serve_http}

-- A request is answered by the mux or turned away.
pub serve_http-cases :
    (v : Server) (now later : ℤ) (r : HttpRequest) (s : Session)
    → (serve_http v now later r s ≡ mux v now later r s)
      ⊎ (serve_http v now later r s ≡ (problem 401 unauthorized, s))
unfolding serve_http require_bearer
serve_http-cases v now later r s = elim (Bool-cases (v.api_key == "")) [
  | inl h ↦ inl (rw h refl)
  | inr h ↦ elim (Bool-cases (r.authorization == "Bearer " ++ v.api_key)) [
    | inl k ↦ inl (rw (h, k) refl)
    | inr k ↦ inr (rw (h, k) refl)
  ]
]
