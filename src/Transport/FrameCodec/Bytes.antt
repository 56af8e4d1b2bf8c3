-- ===== src/Transport/FrameCodec/Bytes.antt =====
-- The four header bytes hold every 32-bit length.
use pi_to_pi.Prelude.{ℕ, ◌^◌, ◌<◌, ◌≡◌, List, [], ◌∷◌, ◌++◌, refl, length, take, drop, All, arith}
use pi_to_pi.Transport.FrameCodec.{write_uint32_be, read_uint32_be}

pub read-write :
    (n : ℕ) (rest : List ℕ) → n < 2 ^ 32 → read_uint32_be (write_uint32_be n ++ rest) ≡ n
unfolding read_uint32_be write_uint32_be
read-write n rest h = omega arith

pub write-read :
    (a b c d : ℕ)
    → a < 256
    → b < 256
    → c < 256
    → d < 256
    → write_uint32_be (read_uint32_be (a ∷ b ∷ c ∷ d ∷ [])) ≡ a ∷ b ∷ c ∷ d ∷ []
unfolding read_uint32_be write_uint32_be
write-read a b c d p q r s = ground arith

pub take-write : (n : ℕ) (p : List ℕ) → take 4 (write_uint32_be n ++ p) ≡ write_uint32_be n
unfolding write_uint32_be
take-write n p = refl

pub drop-write : (n : ℕ) (p : List ℕ) → drop 4 (write_uint32_be n ++ p) ≡ p
unfolding write_uint32_be
drop-write n p = refl

pub length-write : (n : ℕ) → length (write_uint32_be n) ≡ 4
unfolding write_uint32_be
length-write n = refl

pub write-read_list :
    (h : List ℕ) → length h ≡ 4 → All (λ b. b < 256) h → write_uint32_be (read_uint32_be h) ≡ h
write-read_list (a ∷ b ∷ c ∷ d ∷ []) four (p, (q, (r, (s, _)))) = write-read a b c d p q r s
write-read_list [] four h = absurd (omega arith)
write-read_list (a ∷ []) four h = absurd (omega arith)
write-read_list (a ∷ b ∷ []) four h = absurd (omega arith)
write-read_list (a ∷ b ∷ c ∷ []) four h = absurd (omega arith)
write-read_list (a ∷ b ∷ c ∷ d ∷ e ∷ r) four h = absurd (omega arith)
