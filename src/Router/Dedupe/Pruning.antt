-- ===== src/Router/Dedupe/Pruning.antt =====
-- What `prune` of src/router/dedupe.ts removes.
use pi_to_pi.Prelude.{
  ℕ, Bool-cases, inl, inr, ◌+◌, ◌≤◌, ◌<◌, ◌≡◌, refl, ap, arith, List, [], ◌∷◌, length, All, Sifted,
  done, keep, leave,
}
use pi_to_pi.Router.Dedupe.Decisions.{StoredRecord}
use pi_to_pi.Router.Dedupe.Store.{DedupeStore, is_due, keep_live, prune}

-- The retention of the record lasts.
abbrev pub IsRetained : ℕ → StoredRecord → Type 0
IsRetained now r = now < r.retained_until

length-keep_live : (now : ℕ) (rs : List StoredRecord) → length (keep_live now rs) ≤ length rs
unfolding keep_live
length-keep_live now [] = omega arith
length-keep_live now (r ∷ rs) = ground (arith, length-keep_live now rs)

All-keep_live : (now : ℕ) (rs : List StoredRecord) → All (IsRetained now) (keep_live now rs)
unfolding keep_live
All-keep_live now [] = tt
All-keep_live now (r ∷ rs) = elim (Bool-cases (is_due now r)) [
  | inl due ↦ rw due (All-keep_live now rs)
  | inr live ↦ rw live (ground arith, All-keep_live now rs)
]

keep_live-live :
    (now : ℕ) (rs : List StoredRecord) → All (IsRetained now) rs → keep_live now rs ≡ rs
unfolding keep_live
keep_live-live now [] live = refl
keep_live-live now (r ∷ rs) (first, live) = ground (arith, keep_live-live now rs live)

-- Over.
abbrev pub IsOver : ℕ → StoredRecord → Type 0
IsOver now r = r.retained_until ≤ now

keep_live-Sifted : (now : ℕ) (rs : List StoredRecord) → Sifted (IsOver now) rs (keep_live now rs)
unfolding keep_live
keep_live-Sifted now [] = done
keep_live-Sifted now (r ∷ rs) = elim (Bool-cases (is_due now r)) [
  | inl due ↦ rw due (leave (ground arith) (keep_live-Sifted now rs))
  | inr live ↦ rw live (keep (keep_live-Sifted now rs))
]

-- Pruning removes exactly the records whose retention is over: what it leaves are the records of the
-- store in the same order, without some whose retention is over, and the retention of all that it
-- leaves lasts. It answers how many it removed, and pruning again at the same time changes nothing.
pub prune-removes :
    (s : DedupeStore) (now : ℕ)
    → Sifted (IsOver now) s.records (prune s now).0.records
      × (All (IsRetained now) (prune s now).0.records
          × (((prune (prune s now).0 now).0 ≡ (prune s now).0)
              × (length s.records ≡ (prune s now).1 + length (prune s now).0.records)))
unfolding prune
prune-removes s now =
    let le = length-keep_live now s.records in
    let live = All-keep_live now s.records in
    let again = keep_live-live now (keep_live now s.records) live in
    (
      keep_live-Sifted now s.records,
      (live, (ap (λ rs. record s { records = rs }) again, omega arith)),
    )
