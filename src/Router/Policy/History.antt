-- ===== src/Router/Policy/History.antt =====
-- The histories of a policy of src/router/policy.ts: sequences of calls, each with what it reads.
use pi_to_pi.Prelude.{ℕ, refl, Bool, Option, some, List, [], ◌∷◌, Text}
use pi_to_pi.Router.Policy.{QueueEntry}
use pi_to_pi.Router.Policy.Queue.{Readings, RoutingPolicy, expire, dequeue}
use pi_to_pi.Router.Policy.Admit.{admit}
use pi_to_pi.Router.Policy.Cancel.{
  QueueHandle, release, cancel, cancel_by_request_id, is_runnable, peek,
}
use pi_to_pi.Router.Policy.Steps.{Steps, stay, one, Steps-trans, swept, read_now-le, dequeue-Makes}
use pi_to_pi.Router.Policy.Moves.{admit-Makes}
use pi_to_pi.Router.Policy.Cancelling.{cancel-Makes, cancel_by_request_id-Makes, release-Makes}

-- `admits` has startImmediately and the handles that are drawn. `enqueue` and `accept` are `admit`, and
-- purgeExpired is `expire`.
pub data Call : Type 0 where
  admits : QueueEntry → Bool → Option ℕ → (ℕ → Text) → Call
  dequeues expires peeks : Option ℕ → Call
  releases cancels : QueueHandle → Option Text → Call
  cancels_request : Text → Call
  asks : QueueHandle → Option ℕ → Call

unfoldable pub apply_call : RoutingPolicy → Call → Readings → RoutingPolicy
apply_call s (admits entry start override draws) w = (admit s entry start override draws w).0
apply_call s (dequeues override) w = (dequeue s override w).0
apply_call s (expires override) w = (expire s override w).0
apply_call s (peeks override) w = (peek s override w).0
apply_call s (releases target request_id) w = (release s target request_id).0
apply_call s (cancels target request_id) w = (cancel s target request_id w).0
apply_call s (cancels_request request_id) w = (cancel_by_request_id s request_id w).0
apply_call s (asks target override) w = (is_runnable s target override w).0

unfoldable pub run_calls : RoutingPolicy → List (Call × Readings) → RoutingPolicy
run_calls s [] = s
run_calls s ((call, w) ∷ calls) = run_calls (apply_call s call w) calls

-- The policy that the constructor makes, which reads the clock once.
unfoldable pub new_policy : ℕ → ℕ → ℕ → RoutingPolicy
new_policy queue_capacity active_capacity reading = record {
  queue_capacity = queue_capacity;
  active_capacity = active_capacity;
  queue = [];
  active = [];
  next_token = 1;
  last_observed_now = some reading;
  notified = [];
}

pub apply_call-Steps :
    (s : RoutingPolicy) (call : Call) (w : Readings) → Steps s (apply_call s call w)
unfolding apply_call expire peek is_runnable
apply_call-Steps s (admits entry start override draws) w =
    admit-Makes s entry start override draws w
apply_call-Steps s (dequeues override) w = dequeue-Makes s override w
apply_call-Steps s (expires override) w =
    one (swept w _ (read_now-le s override (w.clock 0)).0 refl)
apply_call-Steps s (peeks override) w = one (swept w _ (read_now-le s override (w.clock 0)).0 refl)
apply_call-Steps s (releases target request_id) w = release-Makes s target request_id
apply_call-Steps s (cancels target request_id) w = cancel-Makes s target request_id w
apply_call-Steps s (cancels_request request_id) w = cancel_by_request_id-Makes s request_id w
apply_call-Steps s (asks target override) w =
    one (swept w _ (read_now-le s override (w.clock 0)).0 refl)

-- A history is made of steps.
pub run_calls-Steps :
    (s : RoutingPolicy) (calls : List (Call × Readings)) → Steps s (run_calls s calls)
unfolding run_calls
run_calls-Steps s [] = stay
run_calls-Steps s ((call, w) ∷ calls) =
    Steps-trans (apply_call-Steps s call w) (run_calls-Steps (apply_call s call w) calls)
