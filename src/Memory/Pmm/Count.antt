-- ===== src/Memory/Pmm/Count.antt =====
-- How many numbers below a bound satisfy a test: the meaning of `used_pages`.
use nemo_os.Base.{
  ℕ, zero, suc, ◌+◌, ◌≤◌, ◌<◌, ◌≡◌, Bool, true, false, ◌||◌, ◌&&◌, not, arith, ◌==◌, ltb,
  if◌then◌else◌,
}

unfoldable pub count_below : (ℕ → Bool) → ℕ → ℕ
count_below f zero = 0
count_below f (suc n) = (if f n then 1 else 0) + count_below f n

pub count_below-le : (f : ℕ → Bool) (n : ℕ) → count_below f n ≤ n
unfolding count_below
count_below-le f zero = omega arith
count_below-le f (suc n) = ground (arith, count_below-le f n)

module _ (f g : ℕ → Bool) (i : ℕ) where
  pub count_below-insert :
      ((j : ℕ) → g j ≡ ((i == j) || f j))
      → f i ≡ false
      → (n : ℕ) → count_below g n ≡ count_below f n + (if ltb i n then 1 else 0)
  unfolding count_below
  count_below-insert h e zero = ground arith
  count_below-insert h e (suc n) = ground (arith, h n, count_below-insert h e n)

  pub count_below-remove :
      ((j : ℕ) → g j ≡ (not (i == j) && f j))
      → f i ≡ true
      → (n : ℕ) → count_below g n + (if ltb i n then 1 else 0) ≡ count_below f n
  unfolding count_below
  count_below-remove h e zero = ground arith
  count_below-remove h e (suc n) = ground (arith, h n, count_below-remove h e n)

-- A test that fails somewhere below the bound does not count everything.
pub count_below-lt : (f : ℕ → Bool) (i n : ℕ) → f i ≡ false → i < n → count_below f n < n
unfolding count_below
count_below-lt f i zero e h = absurd (omega arith)
count_below-lt f i (suc n) e h = ground (arith, count_below-le f n, count_below-lt f i n e)
