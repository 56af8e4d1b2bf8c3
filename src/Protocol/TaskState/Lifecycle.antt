-- ===== src/Protocol/TaskState/Lifecycle.antt =====
-- What the transition table of src/protocol/task-state.ts allows over a task's whole life.
mod Tests
use pi_to_pi.Prelude.{ℕ, zero, suc, ◌+◌, ◌≤◌, ◌≡◌, ap, refl, ◌↔◌, true, false, arith}
use pi_to_pi.Protocol.TaskState.{
  TaskState, created, accepted, queued, working, cancelling, completed, failed, rejected, cancelled,
  expired, can_transition, is_terminal,
}

-- `n` legal transitions in a row.
pub data Run : ℕ → TaskState → TaskState → Type 0 where
  stay : {s : TaskState} → Run zero s s
  step : {n : ℕ} {s t u : TaskState} → Run n s t → can_transition t u ≡ true → Run (suc n) s u

-- How far a state is from the start.
phase : TaskState → ℕ
phase created = 0
phase accepted = 1
phase queued = 2
phase working = 3
phase cancelling = 4
phase _ = 5

step-phase : (s t : TaskState) → can_transition s t ≡ true → phase s + 1 ≤ phase t
unfolding can_transition phase
step-phase created t h = ground arith
step-phase accepted t h = ground arith
step-phase queued t h = ground arith
step-phase working t h = ground arith
step-phase cancelling t h = ground arith
step-phase completed t h = ground arith
step-phase failed t h = ground arith
step-phase rejected t h = ground arith
step-phase cancelled t h = ground arith
step-phase expired t h = ground arith

Run-phase : {n : ℕ} {s t : TaskState} → Run n s t → n + phase s ≤ phase t
Run-phase stay = omega arith
Run-phase (step {t} {u} r h) = omega (arith, Run-phase r, step-phase t u h)

phase-le : (s : TaskState) → phase s ≤ 5
unfolding phase
phase-le created = omega arith
phase-le _ = omega arith

-- Whatever the course of a task, it is over after at most five legal transitions, so no
-- state is ever entered twice.
pub Run-le-five : {n : ℕ} {s t : TaskState} → Run n s t → (n ≤ 5) × (s ≡ t → n ≡ 0)
Run-le-five {s} {t} r =
    (omega (arith, Run-phase r, phase-le t), λ e. omega (arith, Run-phase r, ap phase e))

abbrev pub IsStuck : TaskState → Type 0
IsStuck s = (t : TaskState) → can_transition s t ≡ false

-- A state is terminal exactly when no transition leaves it.
pub is_terminal-iff_IsStuck : (s : TaskState) → (is_terminal s ≡ true) ↔ IsStuck s
unfolding is_terminal can_transition
is_terminal-iff_IsStuck created = (λ h. cc, λ h. cc (h expired))
is_terminal-iff_IsStuck accepted = (λ h. cc, λ h. cc (h expired))
is_terminal-iff_IsStuck queued = (λ h. cc, λ h. cc (h expired))
is_terminal-iff_IsStuck working = (λ h. cc, λ h. cc (h expired))
is_terminal-iff_IsStuck cancelling = (λ h. cc, λ h. cc (h expired))
is_terminal-iff_IsStuck completed = (λ h t. refl, λ h. refl)
is_terminal-iff_IsStuck failed = (λ h t. refl, λ h. refl)
is_terminal-iff_IsStuck rejected = (λ h t. refl, λ h. refl)
is_terminal-iff_IsStuck cancelled = (λ h t. refl, λ h. refl)
is_terminal-iff_IsStuck expired = (λ h t. refl, λ h. refl)

-- A task that is not over can always expire.
pub can-expire : (s : TaskState) → is_terminal s ≡ false → can_transition s expired ≡ true
unfolding is_terminal can_transition
can-expire created h = refl
can-expire _ h = ground arith
