-- ===== src/Room/Tests.antt =====
-- Concrete labels of src/room.ts.
use pi_to_pi.Prelude.{
  ℕ, ◌↔◌, true, false, ◌≡◌, refl, leb, ◌||◌, ◌&&◌, ltb, codes, ok, Ensures, arith,
}
use pi_to_pi.Room.{
  Unicode, normalize_project_label, label_of_folded, bounded_label, separate, strip_end,
}
use pi_to_pi.Room.Label.{IsLabel, normalize_project_label-IsLabel}
use pi_to_pi.Room.Canonical.{normalize_project_label-keeps_iff}

-- The letters and digits of ASCII, for texts that need no folding.
abbrev ascii : Unicode
ascii = record {
  fold = ok;
  is_control = λ c. ltb c 32;
  is_kept = λ c. leb 97 c && leb c 122 || (leb 48 c && leb c 57);
}

joins_words : normalize_project_label ascii (codes "--my  app!") ≡ ok (codes "my-app")
unfolding normalize_project_label label_of_folded bounded_label separate strip_end
joins_words = refl

normalize_project_label-IsLabel_example :
    Ensures (IsLabel ascii) (normalize_project_label ascii (codes "--my  app!"))
normalize_project_label-IsLabel_example = normalize_project_label-IsLabel ascii (codes "--my  app!")

clear_letters : (c : ℕ) → ascii.is_kept c ≡ true → ascii.is_control c ≡ false
clear_letters c kept = ground arith

normalize_project_label-keeps_iff_example :
    (normalize_project_label ascii (codes "my-app") ≡ ok (codes "my-app"))
    ↔ IsLabel ascii (codes "my-app")
normalize_project_label-keeps_iff_example =
    normalize_project_label-keeps_iff ascii refl refl clear_letters (codes "my-app") refl
