-- ===== src/Observability/RateLimit/Guard.antt =====
-- Which requests reach the application behind the middleware.
use software_engineering_car.Common.{
  ℕ, ◌*◌, ◌≤◌, ◌<◌, ◌≡◌, refl, ◌||◌, List, [], ◌∷◌, ◌++◌, arith, if◌then◌else◌, Bool-cases, inl,
  inr, ◌∙◌,
}
use software_engineering_car.Observability.RateLimit.{
  Times, Policy, Request, App, Verdict, rejected, accepted, index_error, is_accepted, admit,
  client_key, is_exempt, dispatch, answer,
}
use software_engineering_car.Observability.RateLimit.Window.{Between-weaken}
use software_engineering_car.Observability.RateLimit.Refine.{
  Event, has_room, Refines, admit-Refines,
}

answer_world :
    {World Resp : Type 0} (app : App World Resp) (ticks : ℕ) (p : Policy) (v : Verdict)
    (r : Request) (w : World)
    → (answer app ticks p v r w).1 ≡ (if is_accepted v then (app.call_next r w).1 else w)
answer_world app ticks p (rejected n) r w = refl
answer_world app ticks p (accepted n m) r w = refl
answer_world app ticks p index_error r w = refl

Refines-later :
    (window last now : ℕ) (times : Times) (log : List Event)
    → last ≤ now
    → Refines window last times log
    → Refines window now times log
Refines-later window last now times log h f = record {
  ordered = λ c. Between-weaken 0 0 last now (times c) (omega arith) h (f.ordered c);
  live_times = λ c t l. f.live_times c t (omega arith);
}

-- Where the queues refine the log of accepted requests, the clock has not gone back and the limit is
-- positive: the application behind the middleware runs, on its state as it was, exactly when the
-- path is exempt or the limiter is off, or the log has fewer than `limit` of the client's requests
-- inside the window. The queues then refine the log, with the request at its end where it is not
-- exempt and had room.
pub dispatch_guards :
    {World Resp : Type 0} (app : App World Resp) (ticks : ℕ) (p : Policy) (r : Request)
    (last now : ℕ) (times : Times) (log : List Event) (w : World)
    → 0 < p.request_limit
    → last ≤ now
    → Refines (p.window_seconds * ticks) last times log
    → let e : Event = (client_key r.client, now) in
      let room = has_room p.request_limit (p.window_seconds * ticks) e log in
      let after = dispatch app ticks p r now times w in
      (after.0.1 ≡ (if is_exempt p r || room then (app.call_next r w).1 else w))
      × Refines
          (p.window_seconds * ticks)
          now
          after.1
          (if is_exempt p r then log else if room then log ++ (e ∷ []) else log)
unfolding dispatch
dispatch_guards app ticks p r last now times log w pos h f =
    let e : Event = (client_key r.client, now) in
    let step =
      admit-Refines ticks p.request_limit (p.window_seconds * ticks) last e times log pos h f in
    let v =
      (admit ticks p.request_limit (p.window_seconds * ticks) (client_key r.client) now times).0 in
    elim (Bool-cases (is_exempt p r)) [
      | inl x ↦ rw x (refl, Refines-later (p.window_seconds * ticks) last now times log h f)
      | inr x ↦ rw x (answer_world app ticks p v r w ∙ rw step.0 refl, step.1)
    ]
