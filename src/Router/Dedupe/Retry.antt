-- ===== src/Router/Dedupe/Retry.antt =====
-- A producer that throws or answers busy leaves no record in the store of src/router/dedupe.ts.
use pi_to_pi.Prelude.{
  ℕ, ◌+◌, ◌<◌, ◌≡◌, refl, ap, ◌∙◌, sym, Bool, true, false, not, Option, none, some, List, [], ◌∷◌,
  ◌++◌, Text, text_eq_iff, text_eq_self, Result, ok, err, arith, if_elim, ==_self, lt→leb_false,
  subst,
}
use pi_to_pi.Protocol.Json.{Value}
use pi_to_pi.Router.Dedupe.{
  NormalizedOperation, Thrown, producer_raised, Validate, is_busy_result, operation_name,
  is_dedupe_operation,
}
use pi_to_pi.Router.Dedupe.Decisions.{StoredRecord, Decision, new_decision}
use pi_to_pi.Router.Dedupe.Store.{
  DedupeStore, Clock, key_of, find, remove, update, keep_live, is_same, remove_record, prune,
  schedule, Answer, reservation, reservation_of, normalize, new_record, add_record, reserve,
}
use pi_to_pi.Router.Dedupe.Commit.{
  Produced, returned, raised, release, release_subject, release_found, busy, busy_normalized,
  busy_after, undone, undo, tried, execute_reserved, execute_decided, execute,
}
use pi_to_pi.Router.Dedupe.Retention.{Held, held, prune-Held}
use pi_to_pi.Router.Dedupe.Fresh.{add_record-Held_self, reserve-fresh}

-- No more than one record has the key.
abbrev Sole : Text → List StoredRecord → Type 0
Sole key rs = find key (remove key rs) ≡ none

absent-keep_live :
    (now : ℕ) (key : Text) (rs : List StoredRecord)
    → find key rs ≡ none
    → find key (keep_live now rs) ≡ none
unfolding find keep_live
absent-keep_live now key [] h = refl
absent-keep_live now key (x ∷ rs) h = ground (arith, absent-keep_live now key rs)

remove-none : (key : Text) (rs : List StoredRecord) → find key rs ≡ none → remove key rs ≡ rs
unfolding find remove
remove-none key [] h = refl
remove-none key (x ∷ rs) h = ground (arith, remove-none key rs)

append-Sole :
    (key : Text) (rs : List StoredRecord) (r : StoredRecord)
    → find key rs ≡ none
    → key_of r ≡ key
    → Sole key (rs ++ r ∷ [])
unfolding find remove
append-Sole key [] r h same = ground (arith, text_eq_iff (key_of r) key)
append-Sole key (x ∷ rs) r h same = ground (arith, append-Sole key rs r)

update-Sole :
    (f : StoredRecord → StoredRecord)
    → ((r : StoredRecord) → key_of (f r) ≡ key_of r)
    → (key : Text) (rs : List StoredRecord) → Sole key rs
    → Sole key (update key f rs)
unfolding find remove update
update-Sole f same key [] h = h
update-Sole f same key (x ∷ rs) h = ground (
  arith,
  update-Sole f same key rs,
  same x,
  text_eq_iff (key_of x) key,
  text_eq_iff (key_of (f x)) key,
)

keep_live-Sole :
    (now : ℕ) (key : Text) (rs : List StoredRecord) → Sole key rs → Sole key (keep_live now rs)
unfolding find remove keep_live
keep_live-Sole now key [] h = h
keep_live-Sole now key (x ∷ rs) h = ground (
  arith,
  keep_live-Sole now key rs,
  absent-keep_live now key rs,
  remove-none key rs,
  remove-none key (keep_live now rs),
)

-- The store is open, and nothing has the key.
pub record Absent (key : Text) (s : DedupeStore) : Type 0 where
  pub none_found : find key s.records ≡ none
  pub unclosed : s.closed ≡ false

prune-Absent : (key : Text) (s : DedupeStore) (now : ℕ) → Absent key s → Absent key (prune s now).0
unfolding prune
prune-Absent key s now h = record {
  none_found = absent-keep_live now key s.records h.none_found;
  unclosed = h.unclosed;
}

-- The producer throws, or returns a busy result.
abbrev pub GivesUp : Produced → Type 0
GivesUp raised = Unit
GivesUp (returned v) = is_busy_result v ≡ true

module _ (n : NormalizedOperation) (serial : ℕ) where
  -- The store is open, with the one pending record of the operation.
  pub record Reserved (s : DedupeStore) : Type 0 where
    holds : Held (new_record n serial) s
    sole : Sole n.subject.key s.records

  prune-Reserved :
      (s : DedupeStore) (now : ℕ) → now < n.retained_until → Reserved s → Reserved (prune s now).0
  unfolding prune
  prune-Reserved s now live h = record {
    holds = unfold prune in prune-Held (new_record n serial) s now live h.holds;
    sole = keep_live-Sole now n.subject.key s.records h.sole;
  }

  release_subject-Reserved :
      (s : DedupeStore) → Reserved s → Absent n.subject.key (release_subject s n.subject).0
  unfolding release_subject release_found remove_record is_same
  release_subject-Reserved s h = elim h.holds [
    | held t found open_store ↦
        let same : is_same (find n.subject.key s.records) serial ≡ true =
          rw found (==_self serial) in
        rw (found, text_eq_self, same) (record { none_found = h.sole; unclosed = open_store })
  ]

  module _ (validate : Validate) (parse_utc : Value → Option ℕ) where
    release-Reserved :
        (s : DedupeStore) (clock : Clock)
        → clock 0 < n.retained_until
        → Reserved s
        → Absent n.subject.key
            (release validate parse_utc s (reservation (reservation_of n)) clock).0
    unfolding release
    release-Reserved s clock live h =
        if_elim (λ (a : Answer Bool). Absent n.subject.key a.0) s.closed
          (λ shut. absurd (is_open shut h.holds))
          (λ _. release_subject-Reserved _ (prune-Reserved s (clock 0) live h))
      where
        is_open : s.closed ≡ true → Held (new_record n serial) s → ⊥
        is_open shut (held t found open_store) = cc

    release-Absent :
        (s : DedupeStore) (clock : Clock)
        → Absent n.subject.key s
        → Absent n.subject.key
            (release validate parse_utc s (reservation (reservation_of n)) clock).0
    unfolding release release_subject release_found
    release-Absent s clock h =
        if_elim (λ (a : Answer Bool). Absent n.subject.key a.0) s.closed (λ _. h)
          λ _. let pruned = prune-Absent n.subject.key s (clock 0) h in rw pruned.none_found pruned

    busy_normalized-Absent :
        (s : DedupeStore) (m : Result Thrown NormalizedOperation)
        → Absent n.subject.key s
        → Absent n.subject.key (busy_normalized s m).0
    unfolding busy_normalized
    busy_normalized-Absent s (ok m) h = h
    busy_normalized-Absent s (err e) h = h

    busy_after-Absent :
        (a : Answer Bool) (op : Value) (clock : Clock)
        → Absent n.subject.key a.0
        → Absent n.subject.key (busy_after validate parse_utc a op clock).0
    unfolding busy_after busy
    busy_after-Absent (s, err e) op clock h = h
    busy_after-Absent (s, ok b) op clock h =
        if_elim (λ (a : Answer Decision). Absent n.subject.key a.0) s.closed (λ _. h)
          λ _.
            if_elim (λ (a : Answer Decision). Absent n.subject.key a.0)
              (not (is_dedupe_operation (operation_name op))) (λ _. h)
              (λ _. busy_normalized-Absent s _ h)

    undone-Absent :
        (a : Answer Bool) (e : Thrown)
        → Absent n.subject.key a.0
        → Absent n.subject.key (undone a e).0
    unfolding undone
    undone-Absent (s, ok b) e h = h
    undone-Absent (s, err e') e h = h

    tried-Absent :
        (a : Answer Decision) (clock : Clock)
        → Absent n.subject.key a.0
        → Absent n.subject.key (tried validate parse_utc a (reservation_of n) clock).0
    unfolding tried undo
    tried-Absent (s, ok d) clock h = h
    tried-Absent (s, err e) clock h = undone-Absent _ e (release-Absent s clock h)

    pub execute_reserved-Absent :
        (s : DedupeStore) (op : Value) (p : Produced) (reference : Value) (clock : Clock)
        → ((i : ℕ) → clock i < n.retained_until)
        → GivesUp p
        → Reserved s
        → Absent n.subject.key
            (execute_reserved validate parse_utc s op (reservation_of n) p reference clock).0
    unfolding execute_reserved undo
    execute_reserved-Absent s op raised reference clock live up h =
        undone-Absent _ producer_raised (release-Reserved s clock (live 0) h)
    execute_reserved-Absent s op (returned v) reference clock live up h =
        rw up (tried-Absent _ _ (busy_after-Absent _ op _ (release-Reserved s clock (live 0) h)))

add_record-Reserved :
    (s : DedupeStore) (n : NormalizedOperation) (now : ℕ)
    → s.closed ≡ false
    → find n.subject.key s.records ≡ none
    → now < n.retained_until
    → Reserved n s.next_serial (add_record s n now)
unfolding add_record schedule
add_record-Reserved s n now c absent live = record {
  holds = add_record-Held_self s n now c absent live;
  sole = rw (lt→leb_false n.retained_until now live) (
      update-Sole _ (λ _. refl) n.subject.key _
        (append-Sole n.subject.key s.records _ absent refl));
}

execute-Absent :
    (validate : Validate) (parse_utc : Value → Option ℕ) (s : DedupeStore) (op : Value)
    (p : Produced) (reference : Value) (clock : Clock) (n : NormalizedOperation)
    → s.closed ≡ false
    → ((i : ℕ) → clock i < n.retained_until)
    → normalize validate parse_utc s op (clock 1) ≡ ok n
    → find n.subject.key (prune s (clock 0)).0.records ≡ none
    → GivesUp p
    → Absent n.subject.key (execute validate parse_utc s op p reference clock).0
unfolding execute execute_decided
execute-Absent validate parse_utc s op p reference clock n c live normal absent up =
    let added =
      add_record-Reserved (prune s (clock 0)).0 n (clock 2) (unfold prune in c) absent (live 2) in
    rw (reserve-fresh validate parse_utc s op clock n c normal absent) (
      execute_reserved-Absent n _ validate parse_utc _ op p reference _ (λ i. live (3 + i)) up
        added)

-- A producer that fails may be run again: when the first execution of an operation by an open store has
-- a producer that throws or returns a busy result, before the end of the retention, then no record of
-- the operation is left, and the next call of `reserve` for an operation with its key answers
-- that it is new, and reserves it.
pub execute-retries :
    (validate : Validate) (parse_utc : Value → Option ℕ) (s s' : DedupeStore) (op op' : Value)
    (p : Produced) (reference : Value) (clock clock' : Clock) (n n' : NormalizedOperation)
    → s.closed ≡ false
    → ((i : ℕ) → clock i < n.retained_until)
    → normalize validate parse_utc s op (clock 1) ≡ ok n
    → find n.subject.key (prune s (clock 0)).0.records ≡ none
    → GivesUp p
    → s' ≡ (execute validate parse_utc s op p reference clock).0
    → normalize validate parse_utc s' op' (clock' 1) ≡ ok n'
    → n'.subject.key ≡ n.subject.key
    → (find n.subject.key s'.records ≡ none)
      × ((reserve validate parse_utc s' op' clock').1
          ≡ ok (record (new_decision n'.subject) { reservation = some (reservation_of n') }))
execute-retries validate parse_utc s s' op op' p reference clock clock' n n' c live normal absent up
      after normal' same =
    let gone : Absent n.subject.key s' =
      subst (Absent n.subject.key) (sym after)
        (execute-Absent validate parse_utc s op p reference clock n c live normal absent up) in
    let pruned = prune-Absent n.subject.key s' (clock' 0) gone in
    (
      gone.none_found,
      ap (λ (a : Answer Decision). a.1)
          (reserve-fresh validate parse_utc s' op' clock' n' gone.unclosed normal'
            (ap (λ k. find k (prune s' (clock' 0)).0.records) same ∙ pruned.none_found)),
    )
