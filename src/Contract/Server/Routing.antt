-- ===== src/Contract/Server/Routing.antt =====
-- cmd/server/main.go: the patterns of `main` do not conflict, so that their order is of no matter.
use mathlib.Core.List.{Memᴰ}
use sqlite_durable_workflow.Common.{
  String, Bool, true, false, not, ◌&&◌, ◌||◌, List, [], ◌∷◌, some, ◌≡◌, refl, sym, ap, ◌∙◌, subst,
  arith, inl, inr, Bool-cases, Option-cases, eq_iff, ◌==◌,
}
use sqlite_durable_workflow.Server.Routes.{
  Method, get, head, post, other, Segment, literal, id, Route, Endpoint, accepts, match_path, Match,
  found, preferred, match_route, routes,
}

-- Some path has both patterns.
abbrev overlaps : List Segment → List Segment → Bool
overlaps [] [] = true
overlaps (literal a ∷ ps) (literal b ∷ qs) = a == b && overlaps ps qs
overlaps (literal a ∷ ps) (id ∷ qs) = overlaps ps qs
overlaps (id ∷ ps) (literal b ∷ qs) = overlaps ps qs
overlaps (id ∷ ps) (id ∷ qs) = overlaps ps qs
overlaps _ _ = false

overlaps-both :
    (ps qs : List Segment) (xs : List String) (i j k l : String)
    → match_path ps xs i ≡ some k
    → match_path qs xs j ≡ some l
    → overlaps ps qs ≡ true
overlaps-both [] [] xs i j k l e f = refl
overlaps-both [] (literal b ∷ qs) [] i j k l e f = ground arith
overlaps-both [] (literal b ∷ qs) (x ∷ xs) i j k l e f = ground arith
overlaps-both [] (id ∷ qs) [] i j k l e f = ground arith
overlaps-both [] (id ∷ qs) (x ∷ xs) i j k l e f = ground arith
overlaps-both (literal a ∷ ps) qs [] i j k l e f = ground arith
overlaps-both (id ∷ ps) qs [] i j k l e f = ground arith
overlaps-both (literal a ∷ ps) [] (x ∷ xs) i j k l e f = ground arith
overlaps-both (id ∷ ps) [] (x ∷ xs) i j k l e f = ground arith
overlaps-both (literal a ∷ ps) (literal b ∷ qs) (x ∷ xs) i j k l e f =
    ground (arith, overlaps-both ps qs xs i j k l, eq_iff x a, eq_iff x b, eq_iff a b)
overlaps-both (literal a ∷ ps) (id ∷ qs) (x ∷ xs) i j k l e f =
    ground (arith, overlaps-both ps qs xs i x k l)
overlaps-both (id ∷ ps) (literal b ∷ qs) (x ∷ xs) i j k l e f =
    ground (arith, overlaps-both ps qs xs x j k l)
overlaps-both (id ∷ ps) (id ∷ qs) (x ∷ xs) i j k l e f =
    ground (arith, overlaps-both ps qs xs x x k l)

abbrev same_method : Method → Method → Bool
same_method get get = true
same_method post post = true
same_method _ _ = false

same_accepted :
    (m n method : Method)
    → accepts m method ≡ true
    → accepts n method ≡ true
    → same_method m n ≡ true
same_accepted get get method e f = refl
same_accepted post post method e f = refl
same_accepted get head get e f = ground arith
same_accepted get head head e f = ground arith
same_accepted get head post e f = ground arith
same_accepted get head (other asked) e f = ground arith
same_accepted get post get e f = ground arith
same_accepted get post head e f = ground arith
same_accepted get post post e f = ground arith
same_accepted get post (other asked) e f = ground arith
same_accepted get (other name) get e f = ground arith
same_accepted get (other name) head e f = ground arith
same_accepted get (other name) post e f = ground arith
same_accepted get (other name) (other asked) e f = ground arith
same_accepted post get get e f = ground arith
same_accepted post get head e f = ground arith
same_accepted post get post e f = ground arith
same_accepted post get (other asked) e f = ground arith
same_accepted post head get e f = ground arith
same_accepted post head head e f = ground arith
same_accepted post head post e f = ground arith
same_accepted post head (other asked) e f = ground arith
same_accepted post (other name) get e f = ground arith
same_accepted post (other name) head e f = ground arith
same_accepted post (other name) post e f = ground arith
same_accepted post (other name) (other asked) e f = ground arith
same_accepted head n method e f = ground arith
same_accepted (other name) n method e f = ground arith

abbrev conflicts : Route → Route → Bool
conflicts r q = same_method r.method q.method && overlaps r.pattern q.pattern

abbrev conflicts_any : Route → List Route → Bool
conflicts_any r [] = false
conflicts_any r (q ∷ qs) = conflicts r q || conflicts_any r qs

abbrev is_consistent : List Route → Bool
is_consistent [] = true
is_consistent (r ∷ rs) = not (conflicts_any r rs) && is_consistent rs

module _ (method : Method) (path : List String) where
  -- A route before one that matches, and does not conflict with it, does not match.
  passed :
      (q r : Route) (k : String) (rest : Match) (e : Endpoint)
      → conflicts q r ≡ false
      → accepts r.method method ≡ true
      → match_path r.pattern path "" ≡ some k
      → rest ≡ found e k
      → preferred (match_path q.pattern path "") (accepts q.method method) q.endpoint rest
        ≡ found e k
  passed q r k rest e apart a h same = elim (Option-cases (match_path q.pattern path "")) [
    | inl none_here ↦ rw none_here same
    | inr (j, g) ↦ elim (Bool-cases (accepts q.method method)) [
      | inr b ↦ rw (g, b) rw same refl
      | inl b ↦
          let both = overlaps-both q.pattern r.pattern path "" "" j k g h in
          let alike = same_accepted q.method r.method method b a in absurd (ground arith)
    ]
  ]

  apart_from :
      (q r : Route) (rs : List Route)
      → Memᴰ r rs
      → conflicts_any q rs ≡ false
      → conflicts q r ≡ false
  apart_from q r [] m h = elim m [ ]
  apart_from q r (x ∷ rs) (Memᴰ.head e) h =
      subst (λ y. conflicts q y ≡ false) (sym e) (ground arith)
  apart_from q r (x ∷ rs) (Memᴰ.tail m) h = apart_from q r rs m (ground arith)

  match_consistent :
      (rs : List Route) (r : Route) (k : String)
      → is_consistent rs ≡ true
      → Memᴰ r rs
      → accepts r.method method ≡ true
      → match_path r.pattern path "" ≡ some k
      → match_route rs method path ≡ found r.endpoint k
  unfolding match_route
  match_consistent [] r k c m a h = elim m [ ]
  match_consistent (q ∷ rs) r k c (Memᴰ.head e) a h =
      let a' : accepts q.method method ≡ true = sym (ap (λ x. accepts x.method method) e) ∙ a in
      let h' : match_path q.pattern path "" ≡ some k =
        sym (ap (λ x. match_path x.pattern path "") e) ∙ h in
      rw (a', h') (ap (λ x. found x.endpoint k) (sym e))
  match_consistent (q ∷ rs) r k c (Memᴰ.tail m) a h =
      passed q r k (match_route rs method path) r.endpoint (apart_from q r rs m (ground arith)) a h
        (match_consistent rs r k (ground arith) m a h)

-- A route of `main` that takes the request's method and whose pattern matches its path is the one
-- whose handler the mux calls, with the value that the pattern gives {id}, wherever it stands among
-- the others.
pub mux_finds_route :
    (method : Method) (path : List String) (r : Route) (k : String)
    → Memᴰ r routes
    → accepts r.method method ≡ true
    → match_path r.pattern path "" ≡ some k
    → match_route routes method path ≡ found r.endpoint k
mux_finds_route method path r k m a h = match_consistent method path routes r k refl m a h
