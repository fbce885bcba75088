-- ===== src/Simulator/Victim.antt =====
-- services/workload-simulator/victim/server.py: the HTTP server. A request is what `urlparse` and
-- `parse_qs` make of its path. The lock makes each use of the counter one step, so requests that are
-- served at the same time are requests in some order.
pub mod Burning
pub mod Counting
use hypertrace.Prelude.{
  ℕ, zero, suc, ◌+◌, ◌*◌, String, ◌<>◌, Bool, true, false, Option, none, some, get_or, List, [],
  ◌∷◌, ◌++◌, Dict, lookup, first, show, str_eq, if◌then◌else◌,
}
use hypertrace.Effects.{
  Exec, World, Result, ok, err, pure, gets, modify, or_raise, value_error, index_error, ◌>>=◌, ◌>>◌,
}

-- A value of the dictionaries that the server answers with, and a body.
pub data Value (N : Type 0) : Type 0 where
  text : String → Value N
  flag : Bool → Value N
  number : N → Value N

pub data Body (N : Type 0) : Type 0 where
  json : Dict (Value N) → Body N
  plain : String → Body N

pub record Response (N : Type 0) : Type 0 where
  pub status : ℕ
  pub body : Body N
  pub content_type : String

-- `_requests_total`, and the seconds of the threads that were started.
pub record Victim (N : Type 0) : Type 0 where
  pub requests_total : ℕ
  pub burning : List N

abbrev pub Action : Type 0 → Type 0 → Type 0
Action N A = Exec (Unit {0}) (Victim N) A

abbrev pub work_iterations : ℕ
work_iterations = 20_000

-- The loop of `_work` from `i` on, for `left` rounds.
unfoldable pub work_from : ℕ → ℕ → ℕ → ℕ
work_from zero i total = total
work_from (suc left) i total = work_from left (i + 1) (total + i * i)

-- `_work`
unfoldable pub work : ℕ → ℕ
work iterations = work_from iterations 0 0

abbrev pub metrics_text : ℕ → String
metrics_text total =
    "# HELP http_requests_total Requests served by the victim workload.\n"
    <> ("# TYPE http_requests_total counter\n" <> ("http_requests_total " <> (show total <> "\n")))

module _ {N : Type 0} where
  -- `_record_request`
  unfoldable pub record_request : Action N (Unit {0})
  record_request = modify (λ s. record s { requests_total = s.requests_total + 1 })

  -- `_send_json`
  abbrev pub send_json : ℕ → Dict (Value N) → Response N
  send_json status payload = record {
    status = status;
    body = json payload;
    content_type = "application/json";
  }

  abbrev pub metrics_page : ℕ → Response N
  metrics_page total = record {
    status = 200;
    body = plain (metrics_text total);
    content_type = "text/plain; version=0.0.4";
  }

  abbrev pub not_found : Response N
  not_found = send_json 404 (("error", text "not found") ∷ [])

  -- `do_GET`, by the path of the URL. The result of `_work` is dropped.
  unfoldable pub do_get : String → Action N (Response N)
  do_get path =
      if str_eq path "/health"
      then pure (send_json 200 (("status", text "ok") ∷ []))
      else if str_eq path "/metrics"
      then (gets (λ s. s.requests_total) >>= λ total. pure (metrics_page total))
      else if str_eq path "/work"
      then (record_request >>= λ _. pure (send_json 200 (("ok", flag true) ∷ [])))
      else pure not_found

  -- `do_POST` of `/burn`, by the query of the URL. `to_float` is Python's `float` of a string.
  unfoldable pub start_burning : (String → Option N) → Dict (List String) → Action N (Response N)
  start_burning to_float params = do
    given ← or_raise (first (get_or (lookup "seconds" params) ("30" ∷ []))) index_error
    seconds ← or_raise (to_float given) value_error
    modify (λ s. record s { burning = s.burning ++ seconds ∷ [] })
    pure (send_json 202 (("burning_seconds", number seconds) ∷ []))

  -- `do_POST`
  unfoldable pub do_post : (String → Option N) → String → Dict (List String) → Action N (Response N)
  do_post to_float path params =
      if str_eq path "/burn" then start_burning to_float params else pure not_found

pub data Request : Type 0 where
  get : String → Request
  post : String → Dict (List String) → Request

module _ {N : Type 0} (to_float : String → Option N) where
  -- The method of the handler that the server calls.
  unfoldable pub respond : Request → Action N (Response N)
  respond (get path) = do_get path
  respond (post path params) = do_post to_float path params

  -- Requests one after another. A request whose handler raises has no response.
  unfoldable pub serve : List Request → World (Unit {0}) (Victim N) → World (Unit {0}) (Victim N)
  serve [] w = w
  serve (r ∷ rs) w = serve rs (respond r w).1
