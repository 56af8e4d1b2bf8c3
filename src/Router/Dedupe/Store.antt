-- ===== src/Router/Dedupe/Store.antt =====
-- src/router/dedupe.ts: `RuntimeScopedDedupeStore`. The map of records is the list of its values in
-- insertion order. A call that reads the clock several times is given the readings in order,
-- `clock 0`, `clock 1` and so on; all are finite, so the checks for finite readings never throw.
use pi_to_pi.Prelude.{
  ℕ, suc, ◌+◌, ◌-◌, min, leb, ◌==◌, if◌then◌else◌, Bool, true, false, not, Option, none, some, List,
  [], ◌∷◌, ◌++◌, length, Text, text_eq, Result, ok, err,
}
use pi_to_pi.Protocol.Json.{Value, undefined}
use pi_to_pi.Router.Dedupe.{
  NormalizedOperation, Thrown, store_is_closed, Validate, normalized_operation, operation_name,
  is_dedupe_operation,
}
use pi_to_pi.Router.Dedupe.Decisions.{
  StoredRecord, Reservation, Decision, ignored_decision, new_decision, existing_decision, snapshot,
  Snapshot,
}

pub record DedupeStore : Type 0 where
  pub records : List StoredRecord
  pub closed : Bool
  pub retention_grace_ms : ℕ
  pub next_serial : ℕ

-- A new store, with a grace period that the constructor accepts.
unfoldable pub new_store : ℕ → DedupeStore
new_store grace = record {
  records = [];
  closed = false;
  retention_grace_ms = grace;
  next_serial = 0;
}

abbrev pub Clock : Type 0
Clock = ℕ → ℕ

-- The readings from the `n`-th on.
abbrev pub later : ℕ → Clock → Clock
later n clock i = clock (n + i)

abbrev pub key_of : StoredRecord → Text
key_of r = r.subject.key

-- `records.get(key)`
unfoldable pub find : Text → List StoredRecord → Option StoredRecord
find key [] = none
find key (r ∷ rs) = if text_eq (key_of r) key then some r else find key rs

-- `records.delete(key)`
unfoldable pub remove : Text → List StoredRecord → List StoredRecord
remove key [] = []
remove key (r ∷ rs) = if text_eq (key_of r) key then rs else r ∷ remove key rs

-- The stored object with this key, changed in place.
unfoldable pub update : Text → (StoredRecord → StoredRecord) → List StoredRecord → List StoredRecord
update key f [] = []
update key f (r ∷ rs) = if text_eq (key_of r) key then f r ∷ rs else r ∷ update key f rs

-- `records.get(record.key) === record`
unfoldable pub is_same : Option StoredRecord → ℕ → Bool
is_same none serial = false
is_same (some r) serial = r.serial == serial

-- `removeRecord`; the record's timer goes with it.
unfoldable pub remove_record : DedupeStore → StoredRecord → DedupeStore
remove_record s r =
    if not (is_same (find (key_of r) s.records) r.serial)
    then s
    else record s { records = remove (key_of r) s.records }

abbrev pub is_due : ℕ → StoredRecord → Bool
is_due now r = leb r.retained_until now

-- The records that `prune` keeps; each key stands for one record.
unfoldable pub keep_live : ℕ → List StoredRecord → List StoredRecord
keep_live now [] = []
keep_live now (r ∷ rs) = if is_due now r then keep_live now rs else r ∷ keep_live now rs

unfoldable pub prune : DedupeStore → ℕ → DedupeStore × ℕ
prune s now =
    let live = keep_live now s.records in
    (record s { records = live }, length s.records - length live)

abbrev pub max_timer_delay_ms : ℕ
max_timer_delay_ms = 2147483647

abbrev pub with_timer : Option ℕ → StoredRecord → StoredRecord
with_timer t r = record r { timer = t }

unfoldable pub schedule : DedupeStore → StoredRecord → ℕ → DedupeStore
schedule s r now = if leb r.retained_until now then remove_record s r else record s {
  records =
      update (key_of r) (with_timer (some (min (r.retained_until - now) max_timer_delay_ms)))
        s.records;
}

unfoldable pub fire_found : DedupeStore → ℕ → Clock → Option StoredRecord → DedupeStore
fire_found s serial clock none = s
fire_found s serial clock (some r) =
    if not (r.serial == serial)
    then s
    else if leb r.retained_until (clock 0)
    then remove_record s r
    else schedule (record s { records = update (key_of r) (with_timer none) s.records }) r (clock 1)

-- The callback of the timer that was set for the record object with this key and serial.
unfoldable pub fire_timer : DedupeStore → Text → ℕ → Clock → DedupeStore
fire_timer s key serial clock =
    if s.closed then s else fire_found s serial clock (find key s.records)

abbrev pub new_record : NormalizedOperation → ℕ → StoredRecord
new_record n serial = record {
  normalized = n;
  pending = true;
  has_result = false;
  result = undefined;
  has_task_reference = false;
  task_reference = undefined;
  timer = none;
  serial = serial;
}

abbrev pub reservation_of : NormalizedOperation → Reservation
reservation_of n = record { subject = n.subject; retained_until = n.retained_until }

-- The record is stored, and dropped again at once if its retention is already over.
unfoldable pub add_record : DedupeStore → NormalizedOperation → ℕ → DedupeStore
add_record s n now =
    let r = new_record n s.next_serial in
    schedule (record s { records = s.records ++ r ∷ []; next_serial = suc s.next_serial }) r now

-- What a call leaves in the store, with what it returns or throws.
abbrev pub Answer : Type 0 → Type 0
Answer A = DedupeStore × Result Thrown A

-- `DedupeOperation | DedupeReservation`; the code tells a reservation by its `kind`.
pub data Target : Type 0 where
  operation : Value → Target
  reservation : Reservation → Target

unfoldable pub inspect_found : NormalizedOperation → Option StoredRecord → Decision
inspect_found n none = new_decision n.subject
inspect_found n (some r) = existing_decision r n.subject.fingerprint

unfoldable pub inspect_normalized :
    DedupeStore → Result Thrown NormalizedOperation → Answer Decision
inspect_normalized s (err e) = (s, err e)
inspect_normalized s (ok n) = (s, ok (inspect_found n (find n.subject.key s.records)))

unfoldable pub get_normalized :
    DedupeStore → Result Thrown NormalizedOperation → Answer (Option Snapshot)
get_normalized s (err e) = (s, err e)
get_normalized s (ok n) =
    (s, ok (elim (find n.subject.key s.records) [ none ↦ none | some r ↦ some (snapshot r) ]))

unfoldable pub reserve_found :
    DedupeStore → NormalizedOperation → ℕ → Option StoredRecord → Answer Decision
reserve_found s n now (some r) = (s, ok (existing_decision r n.subject.fingerprint))
reserve_found s n now none = (
  add_record s n now,
  ok (record (new_decision n.subject) { reservation = some (reservation_of n) }),
)

unfoldable pub reserve_normalized :
    DedupeStore → ℕ → Result Thrown NormalizedOperation → Answer Decision
reserve_normalized s now (err e) = (s, err e)
reserve_normalized s now (ok n) = reserve_found s n now (find n.subject.key s.records)

module _ (validate : Validate) (parse_utc : Value → Option ℕ) where
  unfoldable pub normalize : DedupeStore → Value → ℕ → Result Thrown NormalizedOperation
  normalize s op now = normalized_operation validate parse_utc op now s.retention_grace_ms

  unfoldable pub inspect : DedupeStore → Value → Clock → Answer Decision
  inspect s op clock =
      if s.closed
      then (s, err store_is_closed)
      else (let s' = (prune s (clock 0)).0 in
          if not (is_dedupe_operation (operation_name op))
          then (s', ok (ignored_decision (operation_name op)))
          else inspect_normalized s' (normalize s' op (clock 1)))

  unfoldable pub get_record : DedupeStore → Value → Clock → Answer (Option Snapshot)
  get_record s op clock =
      if s.closed
      then (s, err store_is_closed)
      else (let s' = (prune s (clock 0)).0 in
          if not (is_dedupe_operation (operation_name op))
          then (s', ok none)
          else get_normalized s' (normalize s' op (clock 1)))

  unfoldable pub reserve : DedupeStore → Value → Clock → Answer Decision
  reserve s op clock =
      if s.closed
      then (s, err store_is_closed)
      else (let s' = (prune s (clock 0)).0 in
          if not (is_dedupe_operation (operation_name op))
          then (s', ok (ignored_decision (operation_name op)))
          else reserve_normalized s' (clock 2) (normalize s' op (clock 1)))
