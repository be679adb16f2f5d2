-- ===== src/Base/Ring.antt =====
-- Circular arrays: the entries from an index on, going round at the capacity. Shared by the
-- keyboard buffer and the message queues.
use mathlib.Core.Path.{ap₂}
use native.Mathlib.Nat.{mod-eq_of_lt, mod-eq-sub-mod, mod-add-mod, add-zero}
use nemo_os.Base.{
  ℕ, zero, suc, ◌+◌, ◌-◌, ◌%◌, ◌≤◌, ◌<◌, ◌≡◌, ◌≢◌, refl, ap, ◌∙◌, inl, inr, false, List, [], ◌∷◌,
  ◌++◌, arith, ltb, ◌==◌, if◌then◌else◌, Bool-cases, length, set, get_or, get_or-set, ltb→lt,
}

-- Where index `i + k` comes to lie.
pub round_index :
    (cap i k : ℕ)
    → i < cap
    → k < cap
    → (i + k) % cap ≡ (if ltb (i + k) cap then i + k else i + k - cap)
round_index cap i k h g = elim (Bool-cases (ltb (i + k) cap)) [
  | inl low ↦ rw low (mod-eq_of_lt (ltb→lt (i + k) cap low))
  | inr high ↦ rw high (
      ground (
        arith,
        mod-eq-sub-mod {n = i + k} {m = cap} (ground arith),
        mod-eq_of_lt {n = i + k - cap} {m = cap} (ground arith),
      ))
]

-- One step round, and then `k` more.
round_step : (cap i k : ℕ) → ((i + 1) % cap + k) % cap ≡ (i + suc k) % cap
round_step cap i k = rw mod-add-mod (ap (λ n. n % cap) (omega arith))

-- Distinct distances below the capacity lead to distinct places.
round_ne : (cap i k n : ℕ) → i < cap → n < cap → k < n → (i + k) % cap ≢ (i + n) % cap
round_ne cap i k n h g lt e =
    ground (arith, round_index cap i k h (omega arith), round_index cap i n h g)

module _ {ℓ} {A : Type ℓ} (d : A) (cap : ℕ) where
  -- The `n` entries from index `i` on.
  unfoldable pub slots : List A → ℕ → ℕ → List A
  slots xs i zero = []
  slots xs i (suc n) = get_or xs i d ∷ slots xs ((i + 1) % cap) n

  pub length-slots : (xs : List A) (i n : ℕ) → length (slots xs i n) ≡ n
  unfolding slots
  length-slots xs i zero = refl
  length-slots xs i (suc n) = ap suc (length-slots xs ((i + 1) % cap) n)

  slots-snoc :
      (xs : List A) (i n : ℕ)
      → i < cap
      → slots xs i (suc n) ≡ slots xs i n ++ (get_or xs ((i + n) % cap) d ∷ [])
  unfolding slots
  slots-snoc xs i zero h = rw (add-zero, mod-eq_of_lt h)
  slots-snoc xs i (suc n) h =
      ap (λ r. get_or xs i d ∷ r)
        (rw (← round_step cap i n) (slots-snoc xs ((i + 1) % cap) n (omega arith)))

  slots-untouched :
      (xs : List A) (v : A) (j i n : ℕ)
      → i < cap
      → ((k : ℕ) → k < n → (i + k) % cap ≢ j)
      → slots (set xs j v) i n ≡ slots xs i n
  unfolding slots
  slots-untouched xs v j i zero h away = refl
  slots-untouched xs v j i (suc n) h away = ap₂ ◌∷◌ here (
      slots-untouched xs v j ((i + 1) % cap) n (omega arith)
        (λ k lt. rw (round_step cap i k) (away (suc k) (omega arith))))
    where
      apart : (j == i) ≡ false
      apart = ground (arith, away 0 (omega arith), mod-eq_of_lt h, add-zero i)

      here : get_or (set xs j v) i d ≡ get_or xs i d
      here = rw (get_or-set xs j i v d, apart)

  -- A write just behind the last entry adds that entry.
  pub slots-push :
      (xs : List A) (v : A) (i n : ℕ)
      → cap ≤ length xs
      → i < cap
      → n < cap
      → slots (set xs ((i + n) % cap) v) i (suc n) ≡ slots xs i n ++ (v ∷ [])
  slots-push xs v i n room h g =
      let written : get_or (set xs ((i + n) % cap) v) ((i + n) % cap) d ≡ v =
        ground (arith, get_or-set xs ((i + n) % cap) ((i + n) % cap) v d) in
      slots-snoc (set xs ((i + n) % cap) v) i n h
      ∙ ap₂ (λ r x. r ++ (x ∷ []))
          (slots-untouched xs v ((i + n) % cap) i n h (λ k lt. round_ne cap i k n h g lt)) written

  pub slots_of_zero : (xs : List A) (i n : ℕ) → n ≡ 0 → slots xs i n ≡ []
  unfolding slots
  slots_of_zero xs i zero h = refl
  slots_of_zero xs i (suc n) h = absurd (omega arith)

  pub slots_of_pos :
      (xs : List A) (i n : ℕ)
      → 0 < n
      → slots xs i n ≡ get_or xs i d ∷ slots xs ((i + 1) % cap) (n - 1)
  unfolding slots
  slots_of_pos xs i zero h = absurd (omega arith)
  slots_of_pos xs i (suc n) h = ap (λ k. get_or xs i d ∷ slots xs ((i + 1) % cap) k) (omega arith)
