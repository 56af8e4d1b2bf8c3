-- ===== src/Router/Dedupe/Fresh.antt =====
-- The first execution of an operation by the store of src/router/dedupe.ts.
use pi_to_pi.Prelude.{
  All, List, sym, ℕ, ◌<◌, ◌≡◌, refl, ap, ◌∙◌, Bool, false, not, Option, none, some, [], ◌∷◌,
  text_eq_self, ok, err, if◌then◌else◌,
}
use pi_to_pi.Protocol.Json.{Value}
use pi_to_pi.Router.Dedupe.{NormalizedOperation, Validate, is_busy_result}
use pi_to_pi.Router.Dedupe.Decisions.{
  StoredRecord, Decision, stored_decision, new_decision, replay_decision,
}
use pi_to_pi.Router.Dedupe.Store.{
  DedupeStore, Clock, find, prune, Answer, reservation, reservation_of, normalize, new_record,
  add_record, reserve, reserve_normalized, reserve_found,
}
use pi_to_pi.Router.Dedupe.Commit.{
  settle, commit_record, commit_found, commit_open, commit, returned, tried, execute_reserved,
  execute_decided, execute,
}
use pi_to_pi.Router.Dedupe.Find.{find-append_none, find-update_self}
use pi_to_pi.Router.Dedupe.Retention.{Held, held, prune-Held, schedule-Held_self}
use pi_to_pi.Router.Dedupe.History.{Call, drops_all, run}
use pi_to_pi.Router.Dedupe.Guarantees.{normalize-ok, AnswersWith, run-replays}

-- The record just added is held, unless its retention is over.
pub add_record-Held_self :
    (s : DedupeStore) (n : NormalizedOperation) (now : ℕ)
    → s.closed ≡ false
    → find n.subject.key s.records ≡ none
    → now < n.retained_until
    → Held (new_record n s.next_serial) (add_record s n now)
unfolding add_record
add_record-Held_self s n now c absent live =
    let r = new_record n s.next_serial in
    let last : find n.subject.key (r ∷ []) ≡ some r = unfold find in simp text_eq_self in
    schedule-Held_self r _ now live
      (held none (find-append_none n.subject.key s.records _ absent ∙ last) c) none

module _ (n : NormalizedOperation) (serial : ℕ) (v reference : Value) where
  abbrev done : StoredRecord
  done = settle v reference (new_record n serial)

  commit_found-stores :
      (s : DedupeStore)
      → Held (new_record n serial) s
      → ((commit_found s n.subject v reference (find n.subject.key s.records)).1
          ≡ ok (stored_decision done))
        × Held done (commit_found s n.subject v reference (find n.subject.key s.records)).0
  unfolding commit_found commit_record settle
  commit_found-stores s (held t h c) =
      rw (h, text_eq_self)
        (
          refl,
          held t (find-update_self (settle v reference) (λ _. refl) n.subject.key s.records _ h) c,
        )

  -- The answer of a call that has stored the outcome.
  abbrev HasStored : Answer Decision → Type 0
  HasStored a = (a.1 ≡ ok (stored_decision done)) × Held done a.0

  module _ (validate : Validate) (parse_utc : Value → Option ℕ)
      (useful : is_busy_result v ≡ false) where
    commit-stores :
        (s : DedupeStore) (clock : Clock)
        → clock 0 < n.retained_until
        → Held (new_record n serial) s
        → HasStored (commit validate parse_utc s (reservation (reservation_of n)) v reference clock)
    unfolding commit commit_open
    commit-stores s clock live (held t h c) =
        let stores =
          commit_found-stores _ (prune-Held (new_record n serial) s (clock 0) live (held t h c)) in
        simp (c, useful) stores

    tried-stores :
        (a : Answer Decision) (clock : Clock)
        → HasStored a
        → HasStored (tried validate parse_utc a (reservation_of n) clock)
    unfolding tried
    tried-stores (s, ok d) clock h = h
    tried-stores (s, err e) clock (h, _) = absurd cc

    -- The producer of a reservation just made returns, and its outcome is stored.
    pub decided-stores :
        (s : DedupeStore) (op : Value) (clock : Clock)
        → clock 0 < n.retained_until
        → Held (new_record n serial) s
        → HasStored (
            execute_decided validate parse_utc
              (s, ok (record (new_decision n.subject) { reservation = some (reservation_of n) }))
              op
              (returned v)
              reference
              clock)
    unfolding execute_decided execute_reserved
    decided-stores s op clock live h = rw useful (tried-stores _ _ (commit-stores s clock live h))

if_false : {A : Type 0} {b : Bool} (x : A) {y : A} → b ≡ false → (if b then x else y) ≡ y
if_false x e = rw e refl

-- An open store reserves an operation whose key it does not hold.
pub reserve-fresh :
    (validate : Validate) (parse_utc : Value → Option ℕ) (s : DedupeStore) (op : Value)
    (clock : Clock) (n : NormalizedOperation)
    → s.closed ≡ false
    → normalize validate parse_utc s op (clock 1) ≡ ok n
    → find n.subject.key (prune s (clock 0)).0.records ≡ none
    → reserve validate parse_utc s op clock ≡ (
      add_record (prune s (clock 0)).0 n (clock 2),
      ok (record (new_decision n.subject) { reservation = some (reservation_of n) }),
    )
unfolding reserve reserve_normalized reserve_found normalize prune
reserve-fresh validate parse_utc s op clock n c normal absent =
    let s' = (prune s (clock 0)).0 in
    let deduped = normalize-ok validate parse_utc s op (clock 1) n normal in
    if_false _ c
    ∙ if_false _ (ap not deduped)
    ∙ ap (reserve_normalized s' (clock 2)) normal
    ∙ ap (reserve_found s' n (clock 2)) absent

-- The first execution of an operation by an open store runs its producer: if that returns a value that
-- is not a busy result, before the retention ends, then the answer is the stored outcome, and the
-- store holds the committed record.
pub execute-stores :
    (validate : Validate) (parse_utc : Value → Option ℕ) (s : DedupeStore) (op : Value)
    (v reference : Value) (clock : Clock) (n : NormalizedOperation)
    → s.closed ≡ false
    → ((i : ℕ) → clock i < n.retained_until)
    → normalize validate parse_utc s op (clock 1) ≡ ok n
    → find n.subject.key (prune s (clock 0)).0.records ≡ none
    → is_busy_result v ≡ false
    → let a = execute validate parse_utc s op (returned v) reference clock in
      let r = settle v reference (new_record n s.next_serial) in
      (a.1 ≡ ok (stored_decision r)) × Held r a.0
unfolding execute prune
execute-stores validate parse_utc s op v reference clock n c live normal absent useful =
    let added = add_record-Held_self (prune s (clock 0)).0 n (clock 2) c absent (live 2) in
    let stores =
      decided-stores n s.next_serial v reference validate parse_utc useful _ op _ (live 3) added in
    rw (reserve-fresh validate parse_utc s op clock n c normal absent) stores

settled :
    (n : NormalizedOperation) (serial : ℕ) (v reference : Value)
    → (settle v reference (new_record n serial)).pending ≡ false
unfolding settle
settled n serial v reference = refl

-- A producer runs at most once for a key: when the first execution of an operation by an open store has
-- stored what its producer returned, which is not a busy result, then after any calls and timer
-- events but `clear` and `close` before the end of its retention, `inspect`, `reserve` and `execute`
-- answer an operation of the same key and fingerprint with the replay of that outcome, whatever the
-- producer of that `execute` would do.
pub execute-replays :
    (validate : Validate) (parse_utc : Value → Option ℕ) (s s' : DedupeStore) (op op' : Value)
    (v reference : Value) (clock clock' : Clock) (n n' : NormalizedOperation)
    (cs : List (Call × Clock))
    → s.closed ≡ false
    → ((i : ℕ) → clock i < n.retained_until)
    → normalize validate parse_utc s op (clock 1) ≡ ok n
    → find n.subject.key (prune s (clock 0)).0.records ≡ none
    → is_busy_result v ≡ false
    → s'
      ≡ run validate parse_utc (execute validate parse_utc s op (returned v) reference clock).0 cs
    → All (λ (e : Call × Clock). (drops_all e.0 ≡ false) × ((i : ℕ) → e.1 i < n.retained_until)) cs
    → ((i : ℕ) → clock' i < n.retained_until)
    → normalize validate parse_utc s' op' (clock' 1) ≡ ok n'
    → n'.subject.key ≡ n.subject.key
    → n'.subject.fingerprint ≡ n.subject.fingerprint
    → AnswersWith validate parse_utc s' op' clock'
        (replay_decision (settle v reference (new_record n s.next_serial)) n.subject)
unfolding settle
execute-replays validate parse_utc s s' op op' v reference clock clock' n n' cs c live normal absent
      useful history spared later_live normal' same agrees =
    let stores =
      execute-stores validate parse_utc s op v reference clock n c live normal absent useful in
    let normal_run =
      ap (λ t. normalize validate parse_utc t op' (clock' 1)) (sym history) ∙ normal' in
    rw history (
      run-replays validate parse_utc _ (settled n s.next_serial v reference) _ cs op' clock' n'
        stores.1 spared later_live normal_run same agrees)
