-- ===== src/Libk/Tests.antt =====
-- Runs of the libk routines, and the theorem on numbers at one of them.
use nemo_os.Base.{ℕ, ◌≡◌, refl, none, some, List, [], ◌∷◌}
use nemo_os.Base.Int.{negsuc}
use nemo_os.Libk.Text.{strcmp, strcpy}
use nemo_os.Libk.Itoa.{itoa, fill_temp, emit}

abbrev cat : List ℕ
cat = b'c' ∷ b'a' ∷ b't' ∷ 0 ∷ b'!' ∷ []

abbrev car : List ℕ
car = b'c' ∷ b'a' ∷ b'r' ∷ []

cat_after_car : strcmp car cat ≡ negsuc 1
unfolding strcmp
cat_after_car = refl

no_room : strcpy (0 ∷ 0 ∷ 0 ∷ []) car ≡ none
unfolding strcpy
no_room = refl

print_510 : itoa 510 ≡ some (b'5' ∷ b'1' ∷ b'0' ∷ [])
unfolding itoa fill_temp emit
print_510 = refl
