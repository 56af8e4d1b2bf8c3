-- ===== src/Protocol/TaskState.antt =====
-- src/protocol/task-state.ts: the task states, the transition table and its tests.
pub mod Lifecycle
use pi_to_pi.Prelude.{ℕ, ◌==◌, Bool, any, List, [], ◌∷◌}

pub data TaskState : Type 0 where
  created accepted queued working cancelling completed failed rejected cancelled expired : TaskState

-- `===` on the state strings compares their places in `TASK_STATES`.
abbrev pub index : TaskState → ℕ
index created = 0
index accepted = 1
index queued = 2
index working = 3
index cancelling = 4
index completed = 5
index failed = 6
index rejected = 7
index cancelled = 8
index expired = 9

abbrev pub state_eq : TaskState → TaskState → Bool
state_eq s t = index s == index t

abbrev pub terminal_outcomes : List TaskState
terminal_outcomes = completed ∷ failed ∷ rejected ∷ cancelled ∷ expired ∷ []

unfoldable pub transitions : TaskState → List TaskState
transitions created = accepted ∷ rejected ∷ expired ∷ []
transitions accepted = queued ∷ working ∷ rejected ∷ cancelling ∷ cancelled ∷ expired ∷ []
transitions queued = working ∷ rejected ∷ cancelling ∷ cancelled ∷ expired ∷ []
transitions working = completed ∷ failed ∷ rejected ∷ cancelling ∷ expired ∷ []
transitions cancelling = cancelled ∷ completed ∷ failed ∷ expired ∷ []
transitions completed = []
transitions failed = []
transitions rejected = []
transitions cancelled = []
transitions expired = []

unfoldable pub can_transition : TaskState → TaskState → Bool
unfolding transitions
can_transition from to = any (λ s. state_eq s to) (transitions from)

unfoldable pub is_terminal : TaskState → Bool
is_terminal s = any (λ outcome. state_eq outcome s) terminal_outcomes
