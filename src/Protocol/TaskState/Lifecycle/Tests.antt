-- ===== src/Protocol/TaskState/Lifecycle/Tests.antt =====
-- The lifecycle theorems at concrete task histories.
use pi_to_pi.Prelude.{ℕ, ◌≤◌, ◌≡◌, ◌↔◌, true, refl, true}
use pi_to_pi.Protocol.TaskState.{
  created, accepted, queued, working, cancelling, cancelled, can_transition, is_terminal, expired,
}
use pi_to_pi.Protocol.TaskState.Lifecycle.{
  Run, stay, step, Run-le-five, can-expire, IsStuck, is_terminal-iff_IsStuck,
}

cancelled_while_working : Run 4 created cancelled
unfolding can_transition
cancelled_while_working =
    step {t = cancelling}
      (step {t = working} (step {t = accepted} (step {t = created} stay refl) refl) refl) refl

Run-le-five_example : (◌≤◌ 4 5) × (created ≡ cancelled → ◌≡◌ {A = ℕ} 4 0)
Run-le-five_example = Run-le-five cancelled_while_working

can-expire_example : can_transition queued expired ≡ true
unfolding is_terminal
can-expire_example = can-expire queued refl

is_terminal-iff_IsStuck_example : (is_terminal cancelled ≡ true) ↔ IsStuck cancelled
is_terminal-iff_IsStuck_example = is_terminal-iff_IsStuck cancelled
