-- ===== src/Simulator/Victim/Counting.antt =====
-- What `/metrics` shows: the requests for `/work`, and no others.
use hypertrace.Prelude.{
  ◌+◌, String, ◌≡◌, ap, Bool, false, Option, List, [], ◌∷◌, Dict, count_if, str_eq, eq_iff, arith,
  Bool-cases, inl, inr,
}
use hypertrace.Effects.{World, ok}
use hypertrace.Simulator.Victim.{
  Victim, Request, get, post, do_get, do_post, start_burning, respond, serve, record_request,
  metrics_page,
}

abbrev pub is_work : Request → Bool
is_work (get path) = str_eq path "/work"
is_work (post _ _) = false

module _ {N : Type 0} (to_float : String → Option N) where
  abbrev pub State : Type 0
  State = World (Unit {0}) (Victim N)

  started :
      (params : Dict (List String)) (w : State)
      → (start_burning to_float params w).1.own.requests_total ≡ w.own.requests_total + 0
  unfolding start_burning
  started params w = ground arith

  respond_counts :
      (r : Request) (w : State)
      → (respond to_float r w).1.own.requests_total
        ≡ w.own.requests_total + count_if is_work (r ∷ [])
  unfolding respond do_get do_post start_burning record_request count_if
  respond_counts (get path) w = elim (Bool-cases (str_eq path "/health")) [
    | inl q ↦ let same = (eq_iff path "/health").0 q in rw same (omega arith)
    | inr q ↦ rw q (elim (Bool-cases (str_eq path "/metrics")) [
      | inl r ↦ let same = (eq_iff path "/metrics").0 r in rw same (omega arith)
      | inr r ↦ rw r (elim (Bool-cases (str_eq path "/work")) [
        | inl t ↦ rw t (omega arith)
        | inr t ↦ rw t (omega arith)
      ])
    ])
  ]
  respond_counts (post path params) w = elim (Bool-cases (str_eq path "/burn")) [
    | inl q ↦ rw q (started params w)
    | inr q ↦ rw q (omega arith)
  ]

  serve_counts :
      (rs : List Request) (w : State)
      → (serve to_float rs w).own.requests_total ≡ w.own.requests_total + count_if is_work rs
  unfolding serve count_if
  serve_counts [] w = omega arith
  serve_counts (r ∷ rs) w =
      omega (arith, serve_counts rs (respond to_float r w).1, respond_counts r w)

  -- After any requests, those included that the server refuses or fails on, `/metrics` answers with
  -- the count before them and one for each request that was a GET of `/work`.
  pub serve-metrics :
      (rs : List Request) (w : State)
      → (respond to_float (get "/metrics") (serve to_float rs w)).0
        ≡ ok (metrics_page (w.own.requests_total + count_if is_work rs))
  unfolding respond do_get
  serve-metrics rs w = ap (λ n. ok (metrics_page n)) (serve_counts rs w)
