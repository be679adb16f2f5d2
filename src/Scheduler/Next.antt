-- ===== src/Scheduler/Next.antt =====
-- `find_next` of scheduler.cpp: the next runnable process in the round, and none only if there is
-- none at all.
use mathlib.Core.Path.{subst}
use native.Mathlib.Nat.{mod-eq_of_lt, mod-add-mod, add-mod_right}
use nemo_os.Base.{
  ℕ, zero, suc, ◌+◌, ◌-◌, ◌%◌, ◌≤◌, ◌<◌, ◌≡◌, ◌≢◌, ◌↔◌, refl, sym, ap, ◌∙◌, inl, inr, Bool, true,
  false, Option, none, some, arith, ltb, ◌==◌, if◌then◌else◌, Bool-cases,
}
use nemo_os.Process.{Kernel, process_get}
use nemo_os.Scheduler.{is_runnable, index_after, find_from, find_next}

-- Is the process that the loop looks at in a given step runnable?
abbrev pub runs_at : Option ℕ → Kernel → ℕ → Bool
runs_at from k step = is_runnable (process_get (index_after from step k.process_count) k) k

-- What the loop over the steps from `step` on may answer.
pub data Found (from : Option ℕ) (k : Kernel) (step rounds : ℕ) : Option ℕ → Type 0 where
  nobody :
      ((s : ℕ) → step ≤ s → s < step + rounds → runs_at from k s ≡ false)
      → Found from k step rounds none
  first :
      (s : ℕ)
      → step ≤ s
      → s < step + rounds
      → runs_at from k s ≡ true
      → ((t : ℕ) → step ≤ t → t < s → runs_at from k t ≡ false)
      → Found from k step rounds (some (index_after from s k.process_count))

module _ (from : Option ℕ) (k : Kernel) where
  skip :
      (step rounds : ℕ) {r : Option ℕ}
      → runs_at from k step ≡ false
      → Found from k (step + 1) rounds r
      → Found from k step (suc rounds) r
  skip step rounds e (nobody idle) = nobody (λ s lo hi. elim (Bool-cases (s == step)) [
    | inl here ↦ subst (λ t. runs_at from k t ≡ false) (ground arith) e
    | inr later ↦ idle s (ground arith) (omega arith)
  ])
  skip step rounds e (first s lo hi runs idle) = first s (omega arith) (omega arith) runs (λ t a b.
      elim (Bool-cases (t == step)) [
        | inl here ↦ subst (λ t. runs_at from k t ≡ false) (ground arith) e
        | inr later ↦ idle t (ground arith) b
      ])

  find_from-Found : (rounds step : ℕ) → Found from k step rounds (find_from rounds step from k)
  unfolding find_from
  find_from-Found zero step = nobody (λ s lo hi. absurd (omega arith))
  find_from-Found (suc rounds) step = elim (Bool-cases (runs_at from k step)) [
    | inl runs ↦
        rw runs (first step (omega arith) (omega arith) runs (λ t a b. absurd (omega arith)))
    | inr idle ↦ rw idle (skip step rounds idle (find_from-Found rounds (step + 1)))
  ]

  -- `find_next` answers the index of the first runnable process in the order of the round, which
  -- begins behind `from` and comes to every index once, or -1 if none of them is runnable.
  pub find_next-Found : Found from k 1 k.process_count (find_next from k)
  unfolding find_next
  find_next-Found = find_from-Found k.process_count 1

remainder : (i total : ℕ) → 0 < total → i % total < total
remainder i total h = omega arith

-- In which step the round that begins behind `from` comes to index `j`.
unfoldable pub steps_to : Option ℕ → ℕ → ℕ → ℕ
steps_to none j total = j + 1
steps_to (some i) j total = if ltb (i % total) j then j - i % total else total + j - i % total

pub steps_to_bounds :
    (from : Option ℕ) (j total : ℕ)
    → j < total
    → (1 ≤ steps_to from j total) × (steps_to from j total ≤ total)
unfolding steps_to
steps_to_bounds none j total h = omega arith
steps_to_bounds (some i) j total h = ground (arith, remainder i total (omega arith))

pub index_after-steps_to :
    (from : Option ℕ) (j total : ℕ) → j < total → index_after from (steps_to from j total) total ≡ j
unfolding steps_to index_after
index_after-steps_to none j total h =
    rw (mod-eq_of_lt {n = j + 1 - 1} {m = total} (omega arith)) (omega arith)
index_after-steps_to (some i) j total h =
    let below = remainder i total (omega arith) in
    let once_round : i % total + (total + j - i % total) ≡ j + total = omega arith in
    elim (Bool-cases (ltb (i % total) j)) [
      | inl low ↦ rw low (
          sym (mod-add-mod i total (j - i % total))
          ∙ (ap (λ n. n % total) (ground arith) ∙ mod-eq_of_lt h))
      | inr high ↦ rw high (
          sym (mod-add-mod i total (total + j - i % total))
          ∙ (ap (λ n. n % total) once_round ∙ (add-mod_right j total ∙ mod-eq_of_lt h)))
    ]

pub index_after-lt : (from : Option ℕ) (s total : ℕ) → 0 < total → index_after from s total < total
unfolding index_after
index_after-lt none s total h = omega arith
index_after-lt (some i) s total h = omega arith

idle_of_none :
    (from : Option ℕ) (k : Kernel) (r : Option ℕ)
    → Found from k 1 k.process_count r
    → r ≡ none
    → ((j : ℕ) → j < k.process_count → is_runnable (process_get j k) k ≡ false)
idle_of_none from k none (nobody idle) e = λ j h.
    let (lo, hi) = steps_to_bounds from j k.process_count h in
    subst (λ i. is_runnable (process_get i k) k ≡ false)
      (index_after-steps_to from j k.process_count h)
      (idle (steps_to from j k.process_count) lo (omega arith))
idle_of_none from k r (first s lo hi runs before) e = absurd (not_none e)
  where
    not_none : {i : ℕ} → some i ≢ none
    not_none q = cc

none_of_idle :
    (from : Option ℕ) (k : Kernel) {r : Option ℕ}
    → Found from k 1 k.process_count r
    → ((j : ℕ) → j < k.process_count → is_runnable (process_get j k) k ≡ false)
    → r ≡ none
none_of_idle from k (nobody idle) all = refl
none_of_idle from k (first s lo hi runs before) all =
    absurd (true_ne_false (sym runs ∙ all _ (index_after-lt from s k.process_count (omega arith))))
  where
    true_ne_false : true ≢ false
    true_ne_false q = cc

-- `find_next` answers -1 exactly if no process of the table is runnable, wherever it starts.
pub find_next-eq-none :
    (from : Option ℕ) (k : Kernel)
    → (find_next from k ≡ none)
      ↔ ((j : ℕ) → j < k.process_count → is_runnable (process_get j k) k ≡ false)
find_next-eq-none from k =
    (idle_of_none from k _ (find_next-Found from k), none_of_idle from k (find_next-Found from k))
