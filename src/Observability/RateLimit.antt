-- ===== src/Observability/RateLimit.antt =====
-- `RateLimitMiddleware` (observability-incident-detection-platform/src/observability_platform/
-- rate_limit.py). The clock counts in ticks, `ticks` to the second; `limit` and `window` are the
-- policy's request limit and its window in ticks. What runs under the lock is one function.
pub mod Window
pub mod Refine
pub mod Bound
pub mod Retry
pub mod Guard
use text.Mathlib.Text.{starts_with}
use software_engineering_car.Common.{
  ℕ, ◌+◌, ◌-◌, ◌*◌, ◌/◌, max, String, Bool, true, false, not, ◌||◌, Option, none, some, List, [],
  ◌∷◌, ◌++◌, ltb, leb, ◌==◌, str_eq, length, if◌then◌else◌, ◌⊎◌, inl, inr,
}

pub record Policy : Type 0 where
  pub enabled : Bool
  pub request_limit : ℕ
  pub window_seconds : ℕ

-- The check of the constructor: the text is that of its ValueError.
abbrev pub init : Bool → ℕ → ℕ → String ⊎ Policy
init enabled request_limit window_seconds =
    if request_limit == 0
    then inl "request_limit must be greater than zero"
    else if window_seconds == 0
    then inl "window_seconds must be greater than zero"
    else inr (record {
      enabled = enabled;
      request_limit = request_limit;
      window_seconds = window_seconds;
    })

-- What the middleware reads of a request; `client` is its host.
pub record Request : Type 0 where
  pub path : String
  pub client : Option String

abbrev pub client_key : Option String → String
client_key none = "unknown"
client_key (some host) = host

-- `_request_times`: a client that was never seen has an empty queue. The oldest time stands first.
abbrev pub Times : Type 0
Times = String → List ℕ

abbrev pub no_requests : Times
no_requests c = []

abbrev pub with_times : String → List ℕ → Times → Times
with_times c ts times c' = if str_eq c c' then ts else times c'

-- The loop of `popleft`, which stops at the first time inside the window.
unfoldable pub evict : ℕ → ℕ → List ℕ → List ℕ
evict window now [] = []
evict window now (t ∷ ts) =
    let rest = evict window now ts in if leb (t + window) now then rest else t ∷ ts

-- `max(1, ceil(oldest + window_seconds - now))`, in seconds.
unfoldable pub seconds_left : ℕ → ℕ → ℕ → ℕ → ℕ
seconds_left ticks window now oldest = max 1 ((oldest + window - now + (ticks - 1)) / ticks)

-- The headers' numbers, or the IndexError of reading an empty queue.
pub data Verdict : Type 0 where
  rejected : (retry_after : ℕ) → Verdict
  accepted : (remaining reset_after : ℕ) → Verdict
  index_error : Verdict

abbrev pub is_accepted : Verdict → Bool
is_accepted (rejected retry_after) = false
is_accepted (accepted remaining reset_after) = true
is_accepted index_error = false

abbrev pub at_front : (ℕ → Verdict) → List ℕ → Verdict
at_front verdict [] = index_error
at_front verdict (t ∷ ts) = verdict t

abbrev pub judge : ℕ → ℕ → ℕ → ℕ → List ℕ → Verdict × List ℕ
judge ticks limit window now q =
    if leb limit (length q)
    then (at_front (λ t. rejected (seconds_left ticks window now t)) q, q)
    else (
      at_front (λ t. accepted (limit - length (q ++ (now ∷ []))) (seconds_left ticks window now t))
          (q ++ (now ∷ [])),
      q ++ (now ∷ []),
    )

-- What runs under the lock, for one client's queue and then for all clients.
unfoldable pub admit_one : ℕ → ℕ → ℕ → ℕ → List ℕ → Verdict × List ℕ
admit_one ticks limit window now q = judge ticks limit window now (evict window now q)

unfoldable pub admit : ℕ → ℕ → ℕ → String → ℕ → Times → Verdict × Times
admit ticks limit window c now times =
    let (verdict, q) = admit_one ticks limit window now (times c) in (verdict, with_times c q times)

unfoldable pub is_exempt : Policy → Request → Bool
is_exempt p r =
    not p.enabled
    || starts_with r.path "/health"
    || str_eq r.path "/docs"
    || str_eq r.path "/openapi.json"
    || str_eq r.path "/redoc"

-- What the middleware is given: the application behind it, Starlette's responses, and `str`.
pub record App (World : Type 0) (Resp : Type 0) : Type 0 where
  pub call_next : Request → World → Resp × World
  pub json_response : ℕ → String → List (String × String) → Resp
  pub setdefault : String → String → Resp → Resp
  pub str : ℕ → String

pub data Outcome (Resp : Type 0) : Type 0 where
  response : Resp → Outcome Resp
  raised : Outcome Resp

module _ {World Resp : Type 0} (app : App World Resp) (ticks : ℕ) (p : Policy) where
  abbrev pub too_many : ℕ → Resp
  too_many retry_after = app.json_response 429 "Rate limit exceeded" (
      ("Retry-After", app.str retry_after)
      ∷ ("X-RateLimit-Limit", app.str p.request_limit)
      ∷ ("X-RateLimit-Remaining", "0")
      ∷ ("X-RateLimit-Reset", app.str retry_after)
      ∷ [])

  abbrev pub described : ℕ → ℕ → Resp → Resp
  described remaining reset_after r = app.setdefault "X-RateLimit-Reset" (app.str reset_after) (
      app.setdefault "X-RateLimit-Remaining" (app.str remaining)
        (app.setdefault "X-RateLimit-Limit" (app.str p.request_limit) r))

  abbrev pub answer : Verdict → Request → World → Outcome Resp × World
  answer (rejected retry_after) r w = (response (too_many retry_after), w)
  answer (accepted remaining reset_after) r w =
      let (resp, w') = app.call_next r w in (response (described remaining reset_after resp), w')
  answer index_error r w = (raised, w)

  abbrev pub pass_on : Request → World → Outcome Resp × World
  pass_on r w = let (resp, w') = app.call_next r w in (response resp, w')

  unfoldable pub dispatch : Request → ℕ → Times → World → (Outcome Resp × World) × Times
  dispatch r now times w =
      let (verdict, times') =
        admit ticks p.request_limit (p.window_seconds * ticks) (client_key r.client) now times in
      if is_exempt p r then (pass_on r w, times) else (answer verdict r w, times')
