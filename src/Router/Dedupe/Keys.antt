-- ===== src/Router/Dedupe/Keys.antt =====
-- The keys of src/router/dedupe.ts.
use pi_to_pi.Prelude.{ℕ, ◌≡◌, ◌≢◌, refl, [], ◌∷◌, Text, All}
use pi_to_pi.Router.Dedupe.{make_dedupe_key}

-- The text has no NUL, which separates the parts of a key.
abbrev pub HasNoNul : Text → Type 0
HasNoNul = All (λ (c : ℕ). c ≢ 0)

-- Keys of different operations differ: when no runtime identifier has a NUL, equal keys have equal
-- runtime and operation identifiers.
pub make_dedupe_key-injective :
    (sender operation other_sender other_operation : Text)
    → HasNoNul sender
    → HasNoNul other_sender
    → make_dedupe_key sender operation ≡ make_dedupe_key other_sender other_operation
    → (sender ≡ other_sender) × (operation ≡ other_operation)
unfolding make_dedupe_key
make_dedupe_key-injective [] b [] d h h' e = (refl, cc)
make_dedupe_key-injective [] b (y ∷ c) d h (y_is, h') e = absurd (y_is (cc))
make_dedupe_key-injective (x ∷ a) b [] d (x_is, h) h' e = absurd (x_is (cc))
make_dedupe_key-injective (x ∷ a) b (y ∷ c) d (x_is, h) (y_is, h') e =
    let rest = make_dedupe_key-injective a b c d h h' (cc) in (cc, rest.1)
