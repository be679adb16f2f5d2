-- ===== src/Scheduler/Fair.antt =====
-- The round robin of scheduler.cpp is fair: a process that stays runnable is resumed within one
-- round.
use mathlib.Core.Path.{subst}
use native.Mathlib.Nat.{mod-eq_of_lt, mod-eq-sub-mod, mod-add-mod}
use nemo_os.Base.{
  ℕ, ◌+◌, ◌-◌, ◌%◌, ◌≤◌, ◌<◌, ◌≡◌, ◌≢◌, ◌⊎◌, sym, ap, ◌∙◌, inl, inr, Bool, true, false, ◌||◌,
  Option, none, some, List, [], ◌∷◌, arith, ltb, ◌==◌, Bool-cases, length,
}
use nemo_os.Process.{Kernel, process_get}
use nemo_os.Scheduler.{is_runnable, index_after, save_previous, switch_to, scheduler_tick}
use nemo_os.Scheduler.Next.{runs_at, steps_to, steps_to_bounds, index_after-steps_to}
use nemo_os.Scheduler.Tick.{
  Ticked, idle, switched, tick-Ticked, count-save_previous, table-save_previous,
  runnable-save_previous,
}
use nemo_os.Scheduler.Valid.{
  count-switch_to, current-switch_to, process_get-switch_to, state-switch_to,
}

-- The place `s` steps behind place `i`, before and after the end of the table.
module _ (i s total : ℕ) (some_there : 0 < total) where
  reduced : (i + s) % total % total ≡ (i % total + s) % total
  reduced =
      mod-eq_of_lt {n = (i + s) % total} {m = total} (omega arith) ∙ sym (mod-add-mod i total s)

  low_place : i % total + s < total → (i + s) % total % total ≡ i % total + s
  low_place h = reduced ∙ mod-eq_of_lt h

  high_place :
      total ≤ i % total + s
      → i % total + s < total + total
      → (i + s) % total % total ≡ i % total + s - total
  high_place lo hi =
      reduced
      ∙ (mod-eq-sub-mod {n = i % total + s} {m = total} lo
          ∙ mod-eq_of_lt {n = i % total + s - total} {m = total} (omega arith))

-- Stopping after `s` steps of a round that needs more leaves the rest of them.
steps_to-index_after :
    (from : Option ℕ) (s j total : ℕ)
    → j < total
    → 1 ≤ s
    → s < steps_to from j total
    → steps_to (some (index_after from s total)) j total + s ≡ steps_to from j total
unfolding steps_to index_after
steps_to-index_after none s j total h lo hi =
    let inside : (s - 1) % total ≡ s - 1 = mod-eq_of_lt (omega arith) in
    rw (inside, inside) (ground arith)
steps_to-index_after (some i) s j total h lo hi =
    let below : i % total < total = omega arith in
    elim (Bool-cases (ltb (i % total + s) total)) [
      | inl low ↦ rw (low_place i s total (omega arith) (ground arith)) (ground arith)
      | inr high ↦
          rw (high_place i s total (omega arith) (ground arith) (ground arith)) (ground arith)
    ]

-- Is an index the current one?
abbrev pub is_at : ℕ → Option ℕ → Bool
is_at i none = false
is_at i (some c) = c == i

abbrev pub is_current : ℕ → Kernel → Bool
is_current i k = is_at i k.current_process

-- What a tick does for a runnable process: it is resumed, or its turn comes nearer.
abbrev Nearer : ℕ → Kernel → Kernel → Type 0
Nearer i k k' =
    (is_current i k' ≡ true)
    ⊎ (steps_to k'.current_process i k.process_count < steps_to k.current_process i k.process_count)

true_ne_false : true ≢ false
true_ne_false e = cc

Ticked-Nearer :
    (esp i : ℕ) (k : Kernel) {r : Kernel × ℕ}
    → i < k.process_count
    → is_runnable (process_get i k) k ≡ true
    → Ticked esp k r
    → Nearer i k r.0
Ticked-Nearer esp i k h run (idle all) = absurd (true_ne_false (sym run ∙ all i h))
Ticked-Nearer esp i k h run (switched s lo hi runs before j e) =
    elim (Bool-cases (ltb s (steps_to k.current_process i k.process_count))) [
      | inl sooner ↦ inr (
          subst (λ c. steps_to c i k.process_count < steps_to k.current_process i k.process_count)
            (sym (current-switch_to j (save_previous esp k) ∙ ap some e))
            (omega (
              arith,
              steps_to-index_after k.current_process s i k.process_count h lo (ground arith),
            )))
      | inr later ↦ inl (
          let exactly : s ≡ steps_to k.current_process i k.process_count = turn (ground arith) in
          let same : j ≡ i =
            e
            ∙ (ap (λ t. index_after k.current_process t k.process_count) exactly
                ∙ index_after-steps_to k.current_process i k.process_count h) in
          ap (is_at i) (current-switch_to j (save_previous esp k)) ∙ ground arith)
    ]
  where
    here : runs_at k.current_process k (steps_to k.current_process i k.process_count) ≡ true
    here =
        ap (λ n. is_runnable (process_get n k) k)
          (index_after-steps_to k.current_process i k.process_count h)
        ∙ run

    turn :
        steps_to k.current_process i k.process_count ≤ s
        → s ≡ steps_to k.current_process i k.process_count
    turn le = elim (Bool-cases (s == steps_to k.current_process i k.process_count)) [
      | inl yes_now ↦ ground arith
      | inr past ↦ absurd (
          true_ne_false (
            sym here
            ∙ before (steps_to k.current_process i k.process_count)
                (steps_to_bounds k.current_process i k.process_count h).0 (ground arith)))
    ]

-- A tick makes no process unrunnable.
Ticked-runnable :
    (esp a : ℕ) (k : Kernel) {r : Kernel × ℕ}
    → is_runnable a k ≡ true
    → Ticked esp k r
    → is_runnable a r.0 ≡ true
Ticked-runnable esp a k run (idle all) = runnable-save_previous esp a k ∙ run
Ticked-runnable esp a k run (switched s lo hi runs before j e) =
    runnable-switch_to j (save_previous esp k) a (runnable-save_previous esp a k ∙ run)
  where
    runnable-switch_to :
        (i : ℕ) (q : Kernel) (b : ℕ)
        → is_runnable b q ≡ true
        → is_runnable b (switch_to i q).0 ≡ true
    runnable-switch_to i q b h = unfold is_runnable in ground (arith, state-switch_to i q b)

Ticked-table :
    (esp i : ℕ) (k : Kernel) {r : Kernel × ℕ}
    → Ticked esp k r
    → (process_get i r.0 ≡ process_get i k) × (r.0.process_count ≡ k.process_count)
Ticked-table esp i k (idle all) = (table-save_previous esp i k, count-save_previous esp k)
Ticked-table esp i k (switched s lo hi runs before j e) = (
  process_get-switch_to j (save_previous esp k) i ∙ table-save_previous esp i k,
  count-switch_to j (save_previous esp k) ∙ count-save_previous esp k,
)

-- Is the process at index `i` resumed by one of the ticks that interrupt at these stack pointers?
unfoldable pub is_served : ℕ → List ℕ → Kernel → Bool
is_served i [] k = false
is_served i (esp ∷ esps) k =
    let k' = (scheduler_tick esp k).0 in is_current i k' || is_served i esps k'

serve :
    (i : ℕ) (esps : List ℕ) (k : Kernel)
    → i < k.process_count
    → is_runnable (process_get i k) k ≡ true
    → steps_to k.current_process i k.process_count ≤ length esps
    → is_served i esps k ≡ true
unfolding is_served
serve i [] k h run room =
    absurd (omega (arith, steps_to_bounds k.current_process i k.process_count h))
serve i (esp ∷ esps) k h run room =
    let k' = (scheduler_tick esp k).0 in
    let t = tick-Ticked esp k in
    let (entry, count) = Ticked-table esp i k t in
    elim (Ticked-Nearer esp i k h run t) [
      | inl now ↦ rw now
      | inr nearer ↦
          let rest =
            serve i esps k' (omega arith)
              (subst (λ a. is_runnable a k' ≡ true) (sym entry)
                (Ticked-runnable esp (process_get i k) k run t))
              (subst (λ n. steps_to k'.current_process i n ≤ length esps) (sym count)
                (omega arith)) in
          ground (arith, rest)
    ]

-- As many ticks as the table has processes resume every process of it that is runnable at the
-- start, whichever process is current and at whatever stack pointers the ticks interrupt.
pub tick-serves :
    (i : ℕ) (esps : List ℕ) (k : Kernel)
    → i < k.process_count
    → is_runnable (process_get i k) k ≡ true
    → k.process_count ≤ length esps
    → is_served i esps k ≡ true
tick-serves i esps k h run room =
    serve i esps k h run (omega (arith, steps_to_bounds k.current_process i k.process_count h))
