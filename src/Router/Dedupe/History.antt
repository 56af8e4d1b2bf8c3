-- ===== src/Router/Dedupe/History.antt =====
-- Histories of calls and timer events of the store of src/router/dedupe.ts.
use pi_to_pi.Prelude.{
  ℕ, ◌<◌, ◌≡◌, if_elim, Bool, true, false, Option, none, some, List, [], ◌∷◌, Text, All,
}
use pi_to_pi.Protocol.Json.{Value}
use pi_to_pi.Router.Dedupe.{Validate, is_busy_result}
use pi_to_pi.Router.Dedupe.Decisions.{StoredRecord}
use pi_to_pi.Router.Dedupe.Store.{
  DedupeStore, Clock, prune, fire_timer, Target, operation, inspect, get_record, reserve, Answer,
}
use pi_to_pi.Router.Dedupe.Decisions.{Decision}
use pi_to_pi.Router.Dedupe.Commit.{release, busy, commit, admit, Produced, execute, clear, close}
use pi_to_pi.Router.Dedupe.Retention.{Held, prune-Held, fire_timer-Held}
use pi_to_pi.Router.Dedupe.Calls.{
  IsLive, reserve-Held, inspect-Held, get_record-Held, release-Held, busy-Held, commit-Held,
}
use pi_to_pi.Router.Dedupe.Execution.{execute-Held}

-- The calls of the store's methods, and a timer that goes off.
pub data Call : Type 0 where
  inspects gets reserves busies : Value → Call
  releases : Target → Call
  commits : Target → Value → Value → Call
  admits : Value → Option (Value × Value) → Call
  executes : Value → Produced → Value → Call
  prunes clears closes : Call
  fires : Text → ℕ → Call

-- `clear` and `close` drop all records.
abbrev pub drops_all : Call → Bool
drops_all clears = true
drops_all closes = true
drops_all _ = false

module _ (validate : Validate) (parse_utc : Value → Option ℕ) where
  unfoldable pub apply : DedupeStore → Call → Clock → DedupeStore
  apply s (inspects op) clock = (inspect validate parse_utc s op clock).0
  apply s (gets op) clock = (get_record validate parse_utc s op clock).0
  apply s (reserves op) clock = (reserve validate parse_utc s op clock).0
  apply s (busies op) clock = (busy validate parse_utc s op clock).0
  apply s (releases target) clock = (release validate parse_utc s target clock).0
  apply s (commits target v ref) clock = (commit validate parse_utc s target v ref clock).0
  apply s (admits op given) clock = (admit validate parse_utc s op given clock).0
  apply s (executes op p ref) clock = (execute validate parse_utc s op p ref clock).0
  apply s prunes clock = (prune s (clock 0)).0
  apply s clears clock = clear s
  apply s closes clock = close s
  apply s (fires key serial) clock = fire_timer s key serial clock

  unfoldable pub run : DedupeStore → List (Call × Clock) → DedupeStore
  run s [] = s
  run s ((c, clock) ∷ cs) = run (apply s c clock) cs

  module _ (r : StoredRecord) (committed : r.pending ≡ false) where
    admit-Held :
        (s : DedupeStore) (op : Value) (given : Option (Value × Value)) (clock : Clock)
        → IsLive r committed clock
        → Held r s
        → Held r (admit validate parse_utc s op given clock).0
    unfolding admit
    admit-Held s op none clock live h =
        reserve-Held r committed validate parse_utc s op clock live h
    admit-Held s op (some (v, ref)) clock live h =
        if_elim (λ (a : Answer Decision). Held r a.0) (is_busy_result v)
          (λ _. busy-Held r committed validate parse_utc s op clock h)
          (λ _. commit-Held r committed validate parse_utc s (operation op) v ref clock live h)

    -- A call that does not drop all records, before the record's retention ends.
    abbrev pub Spares : Call × Clock → Type 0
    Spares e = (drops_all e.0 ≡ false) × ((i : ℕ) → e.1 i < r.retained_until)

    apply-Held :
        (s : DedupeStore) (c : Call) (clock : Clock)
        → Spares (c, clock)
        → Held r s
        → Held r (apply s c clock)
    unfolding apply
    apply-Held s (inspects op) clock (_, live) h =
        inspect-Held r committed validate parse_utc s op clock live h
    apply-Held s (gets op) clock (_, live) h =
        get_record-Held r committed validate parse_utc s op clock live h
    apply-Held s (reserves op) clock (_, live) h =
        reserve-Held r committed validate parse_utc s op clock live h
    apply-Held s (busies op) clock (_, live) h =
        busy-Held r committed validate parse_utc s op clock h
    apply-Held s (releases target) clock (_, live) h =
        release-Held r committed validate parse_utc s target clock live h
    apply-Held s (commits target v ref) clock (_, live) h =
        commit-Held r committed validate parse_utc s target v ref clock live h
    apply-Held s (admits op given) clock (_, live) h = admit-Held s op given clock live h
    apply-Held s (executes op p ref) clock (_, live) h =
        execute-Held r committed validate parse_utc s op p ref clock live h
    apply-Held s prunes clock (_, live) h = prune-Held r s (clock 0) (live 0) h
    apply-Held s clears clock (spared, _) h = absurd (cc)
    apply-Held s closes clock (spared, _) h = absurd (cc)
    apply-Held s (fires key serial) clock (_, live) h = fire_timer-Held r s key serial clock live h

    pub run-Held :
        (s : DedupeStore) (cs : List (Call × Clock)) → All Spares cs → Held r s → Held r (run s cs)
    unfolding run
    run-Held s [] spared h = h
    run-Held s ((c, clock) ∷ cs) (e, spared) h =
        run-Held (apply s c clock) cs spared (apply-Held s c clock e h)
