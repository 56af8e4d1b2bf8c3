-- ===== src/Router/Dedupe/Guarantees.antt =====
-- What the store of src/router/dedupe.ts answers about a committed record after any history of calls.
use pi_to_pi.Prelude.{
  ℕ, ◌≡◌, refl, ap, ◌∙◌, true, false, Option, none, some, List, Text, text_eq_iff, text_eq_self,
  ◌≢◌, Result, ok, err, arith, All,
}
use pi_to_pi.Protocol.Json.{Value}
use pi_to_pi.Router.Dedupe.{
  NormalizedOperation, Thrown, Validate, is_dedupe_operation, operation_name, normalized_operation,
  normalize_named,
}
use pi_to_pi.Router.Dedupe.Decisions.{
  StoredRecord, Decision, Reservation, existing_decision, replay_decision, duplicate_decision,
}
use pi_to_pi.Router.Dedupe.Store.{
  DedupeStore, Clock, later, key_of, prune, with_timer, Answer, normalize, inspect,
  inspect_normalized, inspect_found, reserve, reserve_normalized, reserve_found,
}
use pi_to_pi.Router.Dedupe.Commit.{Produced, execute, execute_decided}
use pi_to_pi.Router.Dedupe.Retention.{Held, held, prune-Held}
use pi_to_pi.Router.Dedupe.Calls.{IsLive}
use pi_to_pi.Router.Dedupe.History.{Call, run, Spares, run-Held}

existing-reservation :
    (r : StoredRecord) (fingerprint : Text) → (existing_decision r fingerprint).reservation ≡ none
unfolding existing_decision
existing-reservation r fingerprint = ground arith

abbrev reservation_in : Option Reservation → Result Thrown Decision → Option Reservation
reservation_in other (err e) = other
reservation_in other (ok d) = d.reservation

module _ (validate : Validate) (parse_utc : Value → Option ℕ) where
  -- Only the operations that the store deduplicates are normalized.
  named-ok :
      (name : Option Text) (op : Value) (now grace : ℕ) (n : NormalizedOperation)
      → normalize_named validate parse_utc name op now grace ≡ ok n
      → is_dedupe_operation name ≡ true
  unfolding normalize_named
  named-ok none op now grace n h = absurd cc
  named-ok (some name) op now grace n h = ground arith

  pub normalize-ok :
      (s : DedupeStore) (op : Value) (now : ℕ) (n : NormalizedOperation)
      → normalize validate parse_utc s op now ≡ ok n
      → is_dedupe_operation (operation_name op) ≡ true
  unfolding normalize normalized_operation
  normalize-ok s op now n h = named-ok (operation_name op) op now s.retention_grace_ms n h

  -- What inspecting, reserving and executing an operation answer, whatever its producer would do.
  pub AnswersWith : DedupeStore → Value → Clock → Decision → Type 0
  AnswersWith s op clock d =
      ((inspect validate parse_utc s op clock).1 ≡ ok d)
      × ((reserve validate parse_utc s op clock).1 ≡ ok d)
      × ((p : Produced) (reference : Value)
          → (execute validate parse_utc s op p reference clock).1 ≡ ok d)

  module _ (r : StoredRecord) (committed : r.pending ≡ false) where
    existing-committed :
        (t : Option ℕ) (fingerprint : Text)
        → existing_decision (with_timer t r) fingerprint ≡ existing_decision r fingerprint
    unfolding existing_decision
    existing-committed t fingerprint = refl

    inspect-Held_lem :
        (s : DedupeStore) (op : Value) (clock : Clock) (n : NormalizedOperation)
        → IsLive r committed clock
        → Held r s
        → normalize validate parse_utc s op (clock 1) ≡ ok n
        → n.subject.key ≡ key_of r
        → (inspect validate parse_utc s op clock).1 ≡ ok (existing_decision r n.subject.fingerprint)
    unfolding inspect inspect_normalized inspect_found prune normalize
    inspect-Held_lem s op clock n live (held t h c) normal same =
        let deduped = normalize-ok s op (clock 1) n normal in
        elim (prune-Held r s (clock 0) (live 0) (held t h c)) [
          | held t' found unclosed ↦ simp (c, deduped, normal, same, found, existing-committed)
        ]

    reserve-Held_lem :
        (s : DedupeStore) (op : Value) (clock : Clock) (n : NormalizedOperation)
        → IsLive r committed clock
        → Held r s
        → normalize validate parse_utc s op (clock 1) ≡ ok n
        → n.subject.key ≡ key_of r
        → (reserve validate parse_utc s op clock).1 ≡ ok (existing_decision r n.subject.fingerprint)
    unfolding reserve reserve_normalized reserve_found prune normalize
    reserve-Held_lem s op clock n live (held t h c) normal same =
        let deduped = normalize-ok s op (clock 1) n normal in
        elim (prune-Held r s (clock 0) (live 0) (held t h c)) [
          | held t' found unclosed ↦ simp (c, deduped, normal, same, found, existing-committed)
        ]

    execute-Held_lem :
        (s : DedupeStore) (op : Value) (p : Produced) (reference : Value) (clock : Clock)
        (n : NormalizedOperation)
        → IsLive r committed clock
        → Held r s
        → normalize validate parse_utc s op (clock 1) ≡ ok n
        → n.subject.key ≡ key_of r
        → (execute validate parse_utc s op p reference clock).1
          ≡ ok (existing_decision r n.subject.fingerprint)
    unfolding execute execute_decided
    execute-Held_lem s op p reference clock n live h normal same =
        go (reserve validate parse_utc s op clock)
          (reserve-Held_lem s op clock n live h normal same)
      where
        go :
            (a : Answer Decision)
            → a.1 ≡ ok (existing_decision r n.subject.fingerprint)
            → (execute_decided validate parse_utc a op p reference (later 3 clock)).1
              ≡ ok (existing_decision r n.subject.fingerprint)
        go (s', err e) h = absurd cc
        go (s', ok d) h =
            let none_left : d.reservation ≡ none =
              ap (reservation_in none) h ∙ existing-reservation r n.subject.fingerprint in
            simp none_left h

    AnswersWith-Held :
        (s : DedupeStore) (op : Value) (clock : Clock) (n : NormalizedOperation)
        → IsLive r committed clock
        → Held r s
        → normalize validate parse_utc s op (clock 1) ≡ ok n
        → n.subject.key ≡ key_of r
        → AnswersWith s op clock (existing_decision r n.subject.fingerprint)
    unfolding AnswersWith
    AnswersWith-Held s op clock n live h normal same = (
      inspect-Held_lem s op clock n live h normal same,
      reserve-Held_lem s op clock n live h normal same,
      λ p reference. execute-Held_lem s op p reference clock n live h normal same,
    )

    existing-replays :
        (fingerprint : Text)
        → fingerprint ≡ r.subject.fingerprint
        → existing_decision r fingerprint ≡ replay_decision r r.normalized.subject
    unfolding existing_decision
    existing-replays fingerprint same = simp (same, text_eq_self, committed)

    existing-rejects :
        (fingerprint : Text)
        → fingerprint ≢ r.subject.fingerprint
        → existing_decision r fingerprint
          ≡ duplicate_decision r (record r.normalized.subject { fingerprint = fingerprint })
    unfolding existing_decision
    existing-rejects fingerprint other =
        ground (arith, text_eq_iff r.subject.fingerprint fingerprint)

    -- A committed record is replayed after any calls and timer events but `clear` and `close`, as long as
    -- every clock reading is before the end of its retention: an operation with the record's key and
    -- fingerprint is answered with the record's outcome by `inspect`, `reserve` and `execute`, whatever
    -- the producer of `execute` would do.
    pub run-replays :
        (s : DedupeStore) (cs : List (Call × Clock)) (op : Value) (clock : Clock)
        (n : NormalizedOperation)
        → Held r s
        → All (Spares validate parse_utc r committed) cs
        → IsLive r committed clock
        → normalize validate parse_utc (run validate parse_utc s cs) op (clock 1) ≡ ok n
        → n.subject.key ≡ key_of r
        → n.subject.fingerprint ≡ r.subject.fingerprint
        → AnswersWith
            (run validate parse_utc s cs)
            op
            clock
            (replay_decision r r.normalized.subject)
    run-replays s cs op clock n h spared live normal same agrees =
        rw (← existing-replays n.subject.fingerprint agrees) (
          AnswersWith-Held _ op clock n live (run-Held validate parse_utc r committed s cs spared h)
            normal same)

    -- Under the same conditions, an operation with the record's key and another fingerprint is answered
    -- as a duplicate that is to be rejected.
    pub run-rejects :
        (s : DedupeStore) (cs : List (Call × Clock)) (op : Value) (clock : Clock)
        (n : NormalizedOperation)
        → Held r s
        → All (Spares validate parse_utc r committed) cs
        → IsLive r committed clock
        → normalize validate parse_utc (run validate parse_utc s cs) op (clock 1) ≡ ok n
        → n.subject.key ≡ key_of r
        → n.subject.fingerprint ≢ r.subject.fingerprint
        → AnswersWith (run validate parse_utc s cs) op clock (
            duplicate_decision r
              (record r.normalized.subject { fingerprint = n.subject.fingerprint }))
    run-rejects s cs op clock n h spared live normal same differs =
        rw (← existing-rejects n.subject.fingerprint differs) (
          AnswersWith-Held _ op clock n live (run-Held validate parse_utc r committed s cs spared h)
            normal same)
