-- ===== src/Router/Dedupe/Find.antt =====
-- Lookups in the record list of src/router/dedupe.ts after the changes that the store makes.
use pi_to_pi.Prelude.{
  ℕ, ◌<◌, ◌≡◌, ◌≢◌, refl, false, none, some, List, [], ◌∷◌, ◌++◌, Text, text_eq, text_eq_iff, arith,
}
use pi_to_pi.Router.Dedupe.Decisions.{StoredRecord}
use pi_to_pi.Router.Dedupe.Store.{key_of, find, remove, update, keep_live}

-- What is found has the key that was looked for.
pub find-key :
    (key : Text) (rs : List StoredRecord) (r : StoredRecord) → find key rs ≡ some r → key_of r ≡ key
unfolding find
find-key key [] r h = cc
find-key key (x ∷ rs) r h = ground (arith, text_eq_iff (key_of x) key, find-key key rs r)

pub find-append_some :
    (key : Text) (rs ss : List StoredRecord) (r : StoredRecord)
    → find key rs ≡ some r
    → find key (rs ++ ss) ≡ some r
unfolding find
find-append_some key [] ss r h = cc
find-append_some key (x ∷ rs) ss r h = ground (arith, find-append_some key rs ss r)

pub find-append_none :
    (key : Text) (rs ss : List StoredRecord)
    → find key rs ≡ none
    → find key (rs ++ ss) ≡ find key ss
unfolding find
find-append_none key [] ss h = refl
find-append_none key (x ∷ rs) ss h = ground (arith, find-append_none key rs ss)

-- The keys differ.
abbrev pub Other : Text → Text → Type 0
Other key other = text_eq other key ≡ false

pub find-remove_other :
    (key other : Text) (rs : List StoredRecord)
    → key ≢ other
    → find key (remove other rs) ≡ find key rs
unfolding find remove
find-remove_other key other [] h = refl
find-remove_other key other (x ∷ rs) h = ground (
  arith,
  find-remove_other key other rs h,
  text_eq_iff (key_of x) key,
  text_eq_iff (key_of x) other,
)

module _ (f : StoredRecord → StoredRecord)
    (same_key : (r : StoredRecord) → key_of (f r) ≡ key_of r) where
  pub find-update_other :
      (key other : Text) (rs : List StoredRecord)
      → key ≢ other
      → find key (update other f rs) ≡ find key rs
  unfolding find update
  find-update_other key other [] h = refl
  find-update_other key other (x ∷ rs) h = ground (
    arith,
    find-update_other key other rs h,
    text_eq_iff (key_of x) key,
    text_eq_iff (key_of x) other,
    same_key x,
    text_eq_iff (key_of (f x)) key,
  )

  pub find-update_self :
      (key : Text) (rs : List StoredRecord) (r : StoredRecord)
      → find key rs ≡ some r
      → find key (update key f rs) ≡ some (f r)
  unfolding find update
  find-update_self key [] r h = cc
  find-update_self key (x ∷ rs) r h = ground (
    arith,
    find-update_self key rs r,
    same_key x,
    text_eq_iff (key_of x) key,
    text_eq_iff (key_of (f x)) key,
  )

-- Pruning keeps what is not due.
pub find-keep_live :
    (now : ℕ) (key : Text) (rs : List StoredRecord) (r : StoredRecord)
    → find key rs ≡ some r
    → now < r.retained_until
    → find key (keep_live now rs) ≡ some r
unfolding find keep_live
find-keep_live now key [] r h live = cc
find-keep_live now key (x ∷ rs) r h live = ground (arith, find-keep_live now key rs r)
