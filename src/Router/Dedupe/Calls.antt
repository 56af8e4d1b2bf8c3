-- ===== src/Router/Dedupe/Calls.antt =====
-- Every call of the store of src/router/dedupe.ts but `clear` and `close` leaves a committed record as
-- it is while its retention lasts.
use pi_to_pi.Prelude.{
  ℕ, ◌+◌, ◌<◌, ◌≡◌, refl, inl, inr, if◌then◌else◌, if_elim, Bool, false, not, Bool-cases, Option,
  none, some, Option-cases, text_eq, Result, ok, err,
}
use pi_to_pi.Protocol.Json.{Value}
use pi_to_pi.Router.Dedupe.{
  NormalizedOperation, Thrown, Subject, Validate, is_dedupe_operation, operation_name,
  is_busy_result,
}
use pi_to_pi.Router.Dedupe.Decisions.{StoredRecord, Decision, Reservation}
use pi_to_pi.Router.Dedupe.Store.{
  DedupeStore, Clock, find, prune, Answer, Target, operation, reservation, inspect,
  inspect_normalized, get_record, get_normalized, reserve, reserve_normalized, reserve_found,
}
use pi_to_pi.Router.Dedupe.Commit.{
  commit_found, commit_reservation, commit_reserved, release, release_normalized, busy,
  busy_normalized, busy_after, released_busy, commit_busy, commit_open, commit,
}
use pi_to_pi.Router.Dedupe.Retention.{
  Held, absent_other, prune-Held, add_record-Held, commit_record-Held, release_subject-Held,
}

module _ (r : StoredRecord) (committed : r.pending ≡ false) where
  -- The answer's store still holds the record.
  abbrev pub Keeps : {A : Type 0} → Answer A → Type 0
  Keeps a = Held r a.0

  abbrev pub IsLive : Clock → Type 0
  IsLive clock = (i : ℕ) → clock i < r.retained_until

  pub reserve_normalized-Held :
      (s : DedupeStore) (now : ℕ) (m : Result Thrown NormalizedOperation)
      → Held r s
      → Keeps (reserve_normalized s now m)
  unfolding reserve_normalized reserve_found
  reserve_normalized-Held s now (err e) h = h
  reserve_normalized-Held s now (ok n) h = go (find n.subject.key s.records) refl
    where
      go :
          (o : Option StoredRecord)
          → find n.subject.key s.records ≡ o
          → Keeps (reserve_found s n now o)
      go (some x) e = h
      go none e = add_record-Held r s n now (absent_other r n.subject.key s e h) h

  pub commit_found-Held :
      (s : DedupeStore) (subject : Subject) (result reference : Value)
      → Held r s
      → Keeps (commit_found s subject result reference (find subject.key s.records))
  unfolding commit_found
  commit_found-Held s subject result reference h = go (find subject.key s.records) refl
    where
      go :
          (o : Option StoredRecord)
          → find subject.key s.records ≡ o
          → Keeps (commit_found s subject result reference o)
      go none e = h
      go (some x) e = elim (Bool-cases (not (text_eq x.subject.fingerprint subject.fingerprint))) [
        | inl differs ↦ rw differs h
        | inr agrees ↦ rw agrees (elim (Bool-cases x.pending) [
          | inl open_still ↦
              simp open_still
                (commit_record-Held r committed subject.key s x result reference e open_still h)
          | inr done ↦ simp done h
        ])
      ]

  module _ (validate : Validate) (parse_utc : Value → Option ℕ) where
    -- The shape that `inspect`, `get`, `reserve` and `release` share: refuse, prune, go on.
    pub guarded_call :
        {A : Type 0} (s : DedupeStore) (now : ℕ) (test : Bool) (e : Thrown) (a : A)
        (rest : Answer A)
        → now < r.retained_until
        → Held r s
        → (Held r (prune s now).0 → Keeps rest)
        → Keeps {A = A}
            (if s.closed then (s, err e) else if not test then ((prune s now).0, ok a) else rest)
    guarded_call s now test e a rest live h go =
        if_elim Keeps s.closed (λ _. h)
          λ _.
            if_elim Keeps (not test) (λ _. prune-Held r s now live h)
              (λ _. go (prune-Held r s now live h))

    pub reserve-Held :
        (s : DedupeStore) (op : Value) (clock : Clock)
        → IsLive clock
        → Held r s
        → Keeps (reserve validate parse_utc s op clock)
    unfolding reserve
    reserve-Held s op clock live h =
        guarded_call s (clock 0) _ _ _ _ (live 0) h (reserve_normalized-Held _ (clock 2) _)

    pub inspect_normalized-Held :
        (s : DedupeStore) (m : Result Thrown NormalizedOperation)
        → Held r s
        → Keeps (inspect_normalized s m)
    unfolding inspect_normalized
    inspect_normalized-Held s (err e) h = h
    inspect_normalized-Held s (ok n) h = h

    pub inspect-Held :
        (s : DedupeStore) (op : Value) (clock : Clock)
        → IsLive clock
        → Held r s
        → Keeps (inspect validate parse_utc s op clock)
    unfolding inspect
    inspect-Held s op clock live h =
        guarded_call s (clock 0) _ _ _ _ (live 0) h (inspect_normalized-Held _ _)

    pub get_normalized-Held :
        (s : DedupeStore) (m : Result Thrown NormalizedOperation)
        → Held r s
        → Keeps (get_normalized s m)
    unfolding get_normalized
    get_normalized-Held s (err e) h = h
    get_normalized-Held s (ok n) h = h

    pub get_record-Held :
        (s : DedupeStore) (op : Value) (clock : Clock)
        → IsLive clock
        → Held r s
        → Keeps (get_record validate parse_utc s op clock)
    unfolding get_record
    get_record-Held s op clock live h =
        guarded_call s (clock 0) _ _ _ _ (live 0) h (get_normalized-Held _ _)

    pub release_normalized-Held :
        (s : DedupeStore) (m : Result Thrown NormalizedOperation)
        → Held r s
        → Keeps (release_normalized s m)
    unfolding release_normalized
    release_normalized-Held s (err e) h = h
    release_normalized-Held s (ok n) h = release_subject-Held r committed s n.subject h

    pub release-Held :
        (s : DedupeStore) (target : Target) (clock : Clock)
        → IsLive clock
        → Held r s
        → Keeps (release validate parse_utc s target clock)
    unfolding release
    release-Held s (operation op) clock live h =
        guarded_call s (clock 0) _ _ _ _ (live 0) h (release_normalized-Held _ _)
    release-Held s (reservation x) clock live h =
        if_elim Keeps s.closed (λ _. h)
          λ _. release_subject-Held r committed _ x.subject (prune-Held r s (clock 0) (live 0) h)

    pub busy_normalized-Held :
        (s : DedupeStore) (m : Result Thrown NormalizedOperation)
        → Held r s
        → Keeps (busy_normalized s m)
    unfolding busy_normalized
    busy_normalized-Held s (err e) h = h
    busy_normalized-Held s (ok n) h = h

    pub busy-Held :
        (s : DedupeStore) (op : Value) (clock : Clock)
        → Held r s
        → Keeps (busy validate parse_utc s op clock)
    unfolding busy
    busy-Held s op clock h =
        if_elim Keeps s.closed (λ _. h)
          λ _.
            if_elim Keeps (not (is_dedupe_operation (operation_name op))) (λ _. h)
              (λ _. busy_normalized-Held s _ h)

    pub busy_after-Held :
        (a : Answer Bool) (op : Value) (clock : Clock)
        → Keeps a
        → Keeps (busy_after validate parse_utc a op clock)
    unfolding busy_after
    busy_after-Held (s, err e) op clock h = h
    busy_after-Held (s, ok b) op clock h = busy-Held s op clock h

    pub released_busy-Held :
        (a : Answer Bool) (subject : Subject)
        → Keeps a
        → Keeps (released_busy validate parse_utc a subject)
    unfolding released_busy
    released_busy-Held (s, err e) subject h = h
    released_busy-Held (s, ok b) subject h = h

    pub commit_busy-Held :
        (s : DedupeStore) (target : Target) (clock : Clock)
        → IsLive clock
        → Held r s
        → Keeps (commit_busy validate parse_utc s target clock)
    unfolding commit_busy
    commit_busy-Held s (reservation x) clock live h =
        released_busy-Held _ x.subject (release-Held s (reservation x) clock live h)
    commit_busy-Held s (operation op) clock live h =
        if_elim Keeps (not (is_dedupe_operation (operation_name op))) (λ _. h)
          λ _. busy_after-Held _ op _ (release-Held s (operation op) clock live h)

    pub commit_reservation-Held :
        (s : DedupeStore) (x : Reservation) (result reference : Value) (clock : Clock)
        → IsLive clock
        → Held r s
        → Keeps (commit_reservation s x result reference clock)
    unfolding commit_reservation
    commit_reservation-Held s x result reference clock live h =
        if_elim Keeps s.closed (λ _. h)
          λ _. commit_found-Held _ x.subject result reference (prune-Held r s (clock 0) (live 0) h)

    pub commit_reserved-Held :
        (a : Answer Decision) (result reference : Value) (clock : Clock)
        → IsLive clock
        → Keeps a
        → Keeps (commit_reserved a result reference clock)
    unfolding commit_reserved
    commit_reserved-Held (s, err e) result reference clock live h = h
    commit_reserved-Held (s, ok d) result reference clock live h =
        elim (Option-cases d.reservation) [
          | inl nothing ↦ rw nothing h
          | inr (x, given) ↦ rw given (commit_reservation-Held s x result reference clock live h)
        ]

    pub commit_open-Held :
        (s : DedupeStore) (target : Target) (result reference : Value) (clock : Clock)
        → IsLive clock
        → Held r s
        → Keeps (commit_open validate parse_utc s target result reference clock)
    unfolding commit_open
    commit_open-Held s (reservation x) result reference clock live h =
        commit_found-Held s x.subject result reference h
    commit_open-Held s (operation op) result reference clock live h =
        if_elim Keeps (not (is_dedupe_operation (operation_name op))) (λ _. h)
          λ _.
            commit_reserved-Held _ result reference _ (λ i. live (3 + i))
              (reserve-Held s op clock live h)

    pub commit-Held :
        (s : DedupeStore) (target : Target) (result reference : Value) (clock : Clock)
        → IsLive clock
        → Held r s
        → Keeps (commit validate parse_utc s target result reference clock)
    unfolding commit
    commit-Held s target result reference clock live h =
        let pruned = prune-Held r s (clock 0) (live 0) h in
        if_elim Keeps s.closed (λ _. h)
          λ _.
            if_elim Keeps (is_busy_result result)
              (λ _. commit_busy-Held _ target _ (λ i. live (1 + i)) pruned)
              (λ _. commit_open-Held _ target result reference _ (λ i. live (1 + i)) pruned)
