-- ===== src/Base/Fifo.antt =====
-- The queue that a circular buffer stands for: oldest first, at most `cap` entries.
use nemo_os.Base.{
  ℕ, ◌≤◌, Option, none, some, List, [], ◌∷◌, ◌++◌, arith, ◌==◌, if◌then◌else◌, length,
  length-append,
}

module _ {ℓ} {A : Type ℓ} where
  -- A full queue drops what is put in.
  unfoldable pub put : ℕ → A → List A → List A
  put cap x q = if length q == cap then q else q ++ (x ∷ [])

  unfoldable pub get : List A → List A × Option A
  get [] = ([], none)
  get (x ∷ q) = (q, some x)

  pub length-put : (cap : ℕ) (x : A) (q : List A) → length q ≤ cap → length (put cap x q) ≤ cap
  unfolding put
  length-put cap x q h = ground (arith, length-append q (x ∷ []))
