-- ===== src/Memory/Pmm/Bitmap.antt =====
-- The bitmap of pmm_bitmap.cpp as a set of pages: what one operation on a bit does to every bit.
use nemo_os.Base.{
  ℕ, zero, suc, ◌*◌, ◌/◌, ◌%◌, ◌<◌, ◌≡◌, refl, false, ◌&&◌, ◌||◌, not, List, [], ◌∷◌, map, arith,
  ◌==◌, length, get_or, get_or-set, length-set,
}
use nemo_os.Base.Bits.{test-set, test-clear, set_bound, clear_bound, test_in-zero}
use nemo_os.Memory.Pmm.{set_bit, clear_bit, test_bit}

-- Every entry is a byte.
abbrev pub AreBytes : List ℕ → Type 0
AreBytes bitmap = (i : ℕ) → get_or bitmap i 0 < 256

module _ (bitmap : List ℕ) (bytes : AreBytes bitmap) (i : ℕ) (h : i < 8 * length bitmap) where
  pub test-set_bit : (j : ℕ) → test_bit j (set_bit i bitmap) ≡ ((i == j) || test_bit j bitmap)
  unfolding test_bit set_bit
  test-set_bit j = rw (get_or-set bitmap (i / 8) (j / 8)) (
      ground (
        arith,
        test-set (get_or bitmap (i / 8) 0) (i % 8) (j % 8) (bytes (i / 8)) (omega arith)
            (omega arith),
      ))

  pub test-clear_bit :
      (j : ℕ) → test_bit j (clear_bit i bitmap) ≡ (not (i == j) && test_bit j bitmap)
  unfolding test_bit clear_bit
  test-clear_bit j = rw (get_or-set bitmap (i / 8) (j / 8)) (
      ground (
        arith,
        test-clear (get_or bitmap (i / 8) 0) (i % 8) (j % 8) (bytes (i / 8)) (omega arith)
            (omega arith),
      ))

  pub set_bit-AreBytes : AreBytes (set_bit i bitmap)
  unfolding set_bit
  set_bit-AreBytes j = rw (get_or-set bitmap (i / 8) j) (
      ground
        (arith, bytes j, set_bound (get_or bitmap (i / 8) 0) (i % 8) (bytes (i / 8)) (omega arith)))

  pub clear_bit-AreBytes : AreBytes (clear_bit i bitmap)
  unfolding clear_bit
  clear_bit-AreBytes j = rw (get_or-set bitmap (i / 8) j) (
      ground (
        arith,
        bytes j,
        clear_bound (get_or bitmap (i / 8) 0) (i % 8) (bytes (i / 8)) (omega arith),
      ))

pub length-set_bit : (i : ℕ) (bitmap : List ℕ) → length (set_bit i bitmap) ≡ length bitmap
unfolding set_bit
length-set_bit i bitmap = length-set bitmap (i / 8) _

pub length-clear_bit : (i : ℕ) (bitmap : List ℕ) → length (clear_bit i bitmap) ≡ length bitmap
unfolding clear_bit
length-clear_bit i bitmap = length-set bitmap (i / 8) _

-- The cleared bitmap.
pub get_or-cleared : (bitmap : List ℕ) (i : ℕ) → get_or (map {B = ℕ} (λ _. 0) bitmap) i 0 ≡ 0
get_or-cleared [] i = refl
get_or-cleared (x ∷ xs) zero = refl
get_or-cleared (x ∷ xs) (suc i) = get_or-cleared xs i

pub test-cleared : (bitmap : List ℕ) (i : ℕ) → test_bit i (map (λ _. 0) bitmap) ≡ false
unfolding test_bit
test-cleared bitmap i = rw (get_or-cleared bitmap (i / 8)) (test_in-zero (i % 8) (omega arith))
