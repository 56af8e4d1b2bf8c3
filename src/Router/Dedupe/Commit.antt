-- ===== src/Router/Dedupe/Commit.antt =====
-- src/router/dedupe.ts: the operations that settle or give up a reservation: `release`, `busy`,
-- `commit`, `admit`, `execute`, `clear` and `close`.
use pi_to_pi.Prelude.{
  ℕ, if◌then◌else◌, Bool, true, false, not, ◌||◌, Option, none, some, [], Text, text_eq, Result, ok,
  err,
}
use pi_to_pi.Protocol.Json.{Value, undefined}
use pi_to_pi.Router.Dedupe.{
  Subject, NormalizedOperation, Thrown, producer_raised, store_is_closed, Validate, operation_name,
  is_dedupe_operation, is_busy_result,
}
use pi_to_pi.Router.Dedupe.Decisions.{
  StoredRecord, Reservation, Decision, ignored_decision, busy_decision, expired_decision,
  duplicate_decision, existing_decision, stored_decision,
}
use pi_to_pi.Router.Dedupe.Store.{
  DedupeStore, Clock, later, key_of, find, update, remove_record, prune, Answer, Target, operation,
  reservation, normalize, reserve,
}

-- `taskReference !== undefined`
abbrev pub is_given : Value → Bool
is_given undefined = false
is_given _ = true

-- A record with its outcome.
unfoldable pub settle : Value → Value → StoredRecord → StoredRecord
settle result reference r = record r {
  pending = false;
  has_result = true;
  result = result;
  has_task_reference = is_given reference;
  task_reference = reference;
}

unfoldable pub commit_record : DedupeStore → StoredRecord → Value → Value → Answer Decision
commit_record s r result reference = (
  record s { records = update (key_of r) (settle result reference) s.records },
  ok (stored_decision (settle result reference r)),
)

unfoldable pub release_found : DedupeStore → Text → Option StoredRecord → Answer Bool
release_found s fingerprint none = (s, ok false)
release_found s fingerprint (some r) =
    if not r.pending || not (text_eq r.subject.fingerprint fingerprint)
    then (s, ok false)
    else (remove_record s r, ok true)

unfoldable pub release_subject : DedupeStore → Subject → Answer Bool
release_subject s subject = release_found s subject.fingerprint (find subject.key s.records)

unfoldable pub release_normalized : DedupeStore → Result Thrown NormalizedOperation → Answer Bool
release_normalized s (err e) = (s, err e)
release_normalized s (ok n) = release_subject s n.subject

unfoldable pub commit_found :
    DedupeStore → Subject → Value → Value → Option StoredRecord → Answer Decision
commit_found s subject result reference none = (s, ok (expired_decision subject))
commit_found s subject result reference (some r) =
    if not (text_eq r.subject.fingerprint subject.fingerprint)
    then (s, ok (duplicate_decision r subject))
    else if not r.pending
    then (s, ok (existing_decision r subject.fingerprint))
    else commit_record s r result reference

-- `commit` of a reservation with a result that is not busy.
unfoldable pub commit_reservation :
    DedupeStore → Reservation → Value → Value → Clock → Answer Decision
commit_reservation s r result reference clock =
    if s.closed
    then (s, err store_is_closed)
    else (let s' = (prune s (clock 0)).0 in
        commit_found s' r.subject result reference (find r.subject.key s'.records))

-- The reservation just made is committed; any other decision is the answer.
unfoldable pub commit_reserved : Answer Decision → Value → Value → Clock → Answer Decision
commit_reserved (s, err e) result reference clock = (s, err e)
commit_reserved (s, ok d) result reference clock = elim d.reservation [
  | none ↦ (s, ok d)
  | some r ↦ commit_reservation s r result reference clock
]

unfoldable pub busy_normalized : DedupeStore → Result Thrown NormalizedOperation → Answer Decision
busy_normalized s (err e) = (s, err e)
busy_normalized s (ok n) = (s, ok (busy_decision n.subject))

-- What the producer does: it returns a value, or throws. It does not use the store.
pub data Produced : Type 0 where
  returned : Value → Produced
  raised : Produced

unfoldable pub undone : Answer Bool → Thrown → Answer Decision
undone (s, err e') e = (s, err e')
undone (s, ok _) e = (s, err e)

module _ (validate : Validate) (parse_utc : Value → Option ℕ) where
  unfoldable pub release : DedupeStore → Target → Clock → Answer Bool
  release s (reservation r) clock =
      if s.closed then (s, err store_is_closed) else release_subject (prune s (clock 0)).0 r.subject
  release s (operation op) clock =
      if s.closed
      then (s, err store_is_closed)
      else (let s' = (prune s (clock 0)).0 in
          if not (is_dedupe_operation (operation_name op))
          then (s', ok false)
          else release_normalized s' (normalize validate parse_utc s' op (clock 1)))

  unfoldable pub busy : DedupeStore → Value → Clock → Answer Decision
  busy s op clock =
      if s.closed
      then (s, err store_is_closed)
      else if not (is_dedupe_operation (operation_name op))
      then (s, ok (ignored_decision (operation_name op)))
      else busy_normalized s (normalize validate parse_utc s op (clock 0))

  -- `busy` after a call of `release`, which may have thrown.
  unfoldable pub busy_after : Answer Bool → Value → Clock → Answer Decision
  busy_after (s, err e) op clock = (s, err e)
  busy_after (s, ok _) op clock = busy s op clock

  unfoldable pub released_busy : Answer Bool → Subject → Answer Decision
  released_busy (s, err e) subject = (s, err e)
  released_busy (s, ok _) subject = (s, ok (busy_decision subject))

  unfoldable pub commit_busy : DedupeStore → Target → Clock → Answer Decision
  commit_busy s (reservation r) clock = released_busy (release s (reservation r) clock) r.subject
  commit_busy s (operation op) clock =
      if not (is_dedupe_operation (operation_name op))
      then (s, ok (ignored_decision (operation_name op)))
      else busy_after (release s (operation op) clock) op (later 2 clock)

  -- `commit` after its check for a closed store and its pruning.
  unfoldable pub commit_open : DedupeStore → Target → Value → Value → Clock → Answer Decision
  commit_open s (reservation r) result reference clock =
      commit_found s r.subject result reference (find r.subject.key s.records)
  commit_open s (operation op) result reference clock =
      if not (is_dedupe_operation (operation_name op))
      then (s, ok (ignored_decision (operation_name op)))
      else commit_reserved (reserve validate parse_utc s op clock) result reference (later 3 clock)

  unfoldable pub commit : DedupeStore → Target → Value → Value → Clock → Answer Decision
  commit s target result reference clock =
      if s.closed
      then (s, err store_is_closed)
      else (let s' = (prune s (clock 0)).0 in
          if is_busy_result result
          then commit_busy s' target (later 1 clock)
          else commit_open s' target result reference (later 1 clock))

  -- `admit(operation)` and `admit(operation, result, taskReference)`.
  unfoldable pub admit : DedupeStore → Value → Option (Value × Value) → Clock → Answer Decision
  admit s op none clock = reserve validate parse_utc s op clock
  admit s op (some (result, reference)) clock =
      if is_busy_result result
      then busy s op clock
      else commit s (operation op) result reference clock

  -- The `catch` of `execute`: the reservation is released, and the error goes on.
  unfoldable pub undo : DedupeStore → Reservation → Thrown → Clock → Answer Decision
  undo s r e clock = undone (release s (reservation r) clock) e

  -- The end of `execute`'s `try` block.
  unfoldable pub tried : Answer Decision → Reservation → Clock → Answer Decision
  tried (s, ok d) r clock = (s, ok d)
  tried (s, err e) r clock = undo s r e clock

  unfoldable pub execute_reserved :
      DedupeStore → Value → Reservation → Produced → Value → Clock → Answer Decision
  execute_reserved s op r raised reference clock = undo s r producer_raised clock
  execute_reserved s op r (returned v) reference clock =
      if is_busy_result v
      then tried (busy_after (release s (reservation r) clock) op (later 1 clock)) r (later 2 clock)
      else tried (commit s (reservation r) v reference clock) r (later 1 clock)

  unfoldable pub execute_decided :
      Answer Decision → Value → Produced → Value → Clock → Answer Decision
  execute_decided (s, err e) op producer reference clock = (s, err e)
  execute_decided (s, ok d) op producer reference clock = elim d.reservation [
    | none ↦ (s, ok d)
    | some r ↦ execute_reserved s op r producer reference clock
  ]

  unfoldable pub execute : DedupeStore → Value → Produced → Value → Clock → Answer Decision
  execute s op producer reference clock =
      execute_decided (reserve validate parse_utc s op clock) op producer reference (later 3 clock)

unfoldable pub clear : DedupeStore → DedupeStore
clear s = record s { records = [] }

unfoldable pub close : DedupeStore → DedupeStore
close s = record (clear s) { closed = true }
