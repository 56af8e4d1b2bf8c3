-- ===== src/Router/Dedupe/Retention.antt =====
-- A committed record of the store of src/router/dedupe.ts stays as it is until its retention ends:
-- what the store's own steps do to it.
use pi_to_pi.Prelude.{
  ℕ, ◌<◌, ◌≡◌, ◌≢◌, refl, ap, ◌∙◌, inl, inr, leb, lt→leb_false, ◌==◌, ==_self, ==_iff, if_elim,
  text_dec, true, false, not, ◌||◌, Bool-cases, Option, none, some, Text, text_eq, arith,
}
use pi_to_pi.Protocol.Json.{Value}
use pi_to_pi.Router.Dedupe.{NormalizedOperation, Subject}
use pi_to_pi.Router.Dedupe.Decisions.{StoredRecord}
use pi_to_pi.Router.Dedupe.Store.{
  DedupeStore, Clock, key_of, find, update, is_same, remove_record, prune, with_timer, schedule,
  fire_found, fire_timer, new_record, add_record,
}
use pi_to_pi.Router.Dedupe.Commit.{settle, commit_record, release_found, release_subject}
use pi_to_pi.Router.Dedupe.Find.{
  find-key, find-append_some, find-remove_other, find-update_other, find-update_self,
  find-keep_live,
}

-- The store is open, and holds the record `r` under its key, whatever its timer.
pub data Held (r : StoredRecord) (s : DedupeStore) : Type 0 where
  held :
      (t : Option ℕ)
      → find (key_of r) s.records ≡ some (with_timer t r)
      → s.closed ≡ false
      → Held r s

module _ (r : StoredRecord) where
  pub absent_other :
      (key : Text) (s : DedupeStore) → find key s.records ≡ none → Held r s → key_of r ≢ key
  absent_other key s absent (held t h c) e =
      let h' : find key s.records ≡ some (with_timer t r) = rw (← e) h in cc

  same_record :
      (key : Text) (s : DedupeStore) (x : StoredRecord) (t : Option ℕ)
      → find key s.records ≡ some x
      → find (key_of r) s.records ≡ some (with_timer t r)
      → key_of r ≡ key_of x
      → x ≡ with_timer t r
  same_record key s x t found h e =
      let e' : key_of r ≡ key = e ∙ find-key key s.records x found in
      let h' : find key s.records ≡ some (with_timer t r) = rw (← e') h in cc

  pub prune-Held :
      (s : DedupeStore) (now : ℕ) → now < r.retained_until → Held r s → Held r (prune s now).0
  unfolding prune
  prune-Held s now live (held t h c) = held t (find-keep_live now (key_of r) s.records _ h live) c

  pub remove_record-Held :
      (s : DedupeStore) (x : StoredRecord)
      → key_of r ≢ key_of x
      → Held r s
      → Held r (remove_record s x)
  unfolding remove_record
  remove_record-Held s x other (held t h c) =
      elim (Bool-cases (is_same (find (key_of x) s.records) x.serial)) [
        | inl same ↦
            rw same (held t (find-remove_other (key_of r) (key_of x) s.records other ∙ h) c)
        | inr gone ↦ rw gone (held t h c)
      ]

  pub update-Held :
      (s : DedupeStore) (key : Text) (f : StoredRecord → StoredRecord)
      → ((x : StoredRecord) → key_of (f x) ≡ key_of x)
      → key_of r ≢ key
      → Held r s
      → Held r (record s { records = update key f s.records })
  update-Held s key f same other (held t h c) =
      held t (find-update_other f same (key_of r) key s.records other ∙ h) c

  pub schedule-Held :
      (s : DedupeStore) (x : StoredRecord) (now : ℕ)
      → key_of r ≢ key_of x
      → Held r s
      → Held r (schedule s x now)
  unfolding schedule
  schedule-Held s x now other h = elim (Bool-cases (leb x.retained_until now)) [
    | inl due ↦ rw due (remove_record-Held s x other h)
    | inr live ↦ rw live (update-Held s (key_of x) _ (λ _. refl) other h)
  ]

  -- The record's own timer is set anew.
  pub schedule-Held_self :
      (s : DedupeStore) (now : ℕ)
      → now < r.retained_until
      → Held r s
      → (t : Option ℕ) → Held r (schedule s (with_timer t r) now)
  unfolding schedule
  schedule-Held_self s now live (held t h c) t' =
      rw (lt→leb_false r.retained_until now live)
        (held _ (find-update_self _ (λ _. refl) (key_of r) s.records _ h) c)

  pub add_record-Held :
      (s : DedupeStore) (n : NormalizedOperation) (now : ℕ)
      → key_of r ≢ n.subject.key
      → Held r s
      → Held r (add_record s n now)
  unfolding add_record
  add_record-Held s n now other (held t h c) =
      schedule-Held _ (new_record n s.next_serial) now other
        (held t (find-append_some (key_of r) s.records _ _ h) c)

  pub fire_found-Held :
      (s : DedupeStore) (key : Text) (x : StoredRecord) (clock : Clock)
      → ((i : ℕ) → clock i < r.retained_until)
      → find key s.records ≡ some x
      → Dec (key_of r ≡ key_of x)
      → Held r s
      → Held r (fire_found s x.serial clock (some x))
  unfolding fire_found
  fire_found-Held s key x clock live found (yes own) (held t h c) =
      let same : x ≡ with_timer t r = same_record key s x t found h own in
      rw (same, ==_self r.serial, lt→leb_false r.retained_until (clock 0) (live 0))
        (schedule-Held_self _ (clock 1) (live 1)
          (held _ (find-update_self (with_timer none) (λ _. refl) (key_of r) s.records _ h) c) t)
  fire_found-Held s key x clock live found (no other) h =
      rw (==_self x.serial) (elim (Bool-cases (leb x.retained_until (clock 0))) [
        | inl due ↦ rw due (remove_record-Held s x other h)
        | inr fresh ↦ rw fresh (
            schedule-Held _ x (clock 1) other
              (update-Held s (key_of x) (with_timer none) (λ _. refl) other h))
      ])

  pub fire_timer-Held :
      (s : DedupeStore) (key : Text) (serial : ℕ) (clock : Clock)
      → ((i : ℕ) → clock i < r.retained_until)
      → Held r s
      → Held r (fire_timer s key serial clock)
  unfolding fire_timer
  fire_timer-Held s key serial clock live h =
      if_elim (Held r) s.closed (λ _. h) λ _. go (find key s.records) refl
    where
      go : (o : Option StoredRecord) → find key s.records ≡ o → Held r (fire_found s serial clock o)
      go none e = unfold fire_found in h
      go (some x) e = elim (Bool-cases (x.serial == serial)) [
        | inl same ↦
            rw (← (==_iff x.serial serial).0 same)
              (fire_found-Held s key x clock live e (text_dec (key_of r) (key_of x)) h)
        | inr gone ↦ unfold fire_found in rw gone h
      ]

  -- A committed record is no target of a commit or a release.
  module _ (committed : r.pending ≡ false) where
    pub pending_other :
        (key : Text) (s : DedupeStore) (x : StoredRecord)
        → find key s.records ≡ some x
        → x.pending ≡ true
        → Held r s
        → key_of r ≢ key_of x
    pending_other key s x found open_still (held t h c) e =
        let same = same_record key s x t found h e in
        let clash = ap (λ (y : StoredRecord). y.pending) same in cc

    pub commit_record-Held :
        (key : Text) (s : DedupeStore) (x : StoredRecord) (result reference : Value)
        → find key s.records ≡ some x
        → x.pending ≡ true
        → Held r s
        → Held r (commit_record s x result reference).0
    unfolding commit_record settle
    commit_record-Held key s x result reference found open_still h =
        update-Held s (key_of x) _ (λ _. refl) (pending_other key s x found open_still h) h

    pub release_subject-Held :
        (s : DedupeStore) (subject : Subject) → Held r s → Held r (release_subject s subject).0
    unfolding release_subject
    release_subject-Held s subject h = go (find subject.key s.records) refl
      where
        go :
            (o : Option StoredRecord)
            → find subject.key s.records ≡ o
            → Held r (release_found s subject.fingerprint o).0
        go none e = unfold release_found in h
        go (some x) e =
            elim (Bool-cases
              (not x.pending || not (text_eq x.subject.fingerprint subject.fingerprint))) [
                | inl refused ↦ unfold release_found in rw refused h
                | inr fine ↦
                    unfold release_found in
                    rw fine
                      (remove_record-Held s x (pending_other subject.key s x e (ground arith) h) h)
              ]
