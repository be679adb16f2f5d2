-- ===== src/Scheduler/Valid.antt =====
-- `scheduler_tick` keeps the scheduler's invariant, and where it stores the stack pointers.
use mathlib.Core.Path.{subst}
use nemo_os.Base.{
  ℕ, ◌<◌, ◌≡◌, ◌≢◌, refl, sym, ap, ◌∙◌, true, false, ◌&&◌, ◌||◌, not, some, arith, ◌==◌,
  if◌then◌else◌,
}
use nemo_os.Process.{running, is_running, is_blocked}
use nemo_os.Process.{Kernel, process_get, current, process_switch}
use nemo_os.Process.Table.{IsTable, process_get-distinct}
use nemo_os.Scheduler.{save_previous, switch_to, scheduler_tick}
use nemo_os.Scheduler.Next.{index_after-lt}
use nemo_os.Scheduler.Tick.{
  state_at, IsValid, IsTable-same, save_previous-IsTable, none_runs, count-save_previous,
}
use nemo_os.Scheduler.Tick.{current-save_previous, Ticked, idle, switched, tick-Ticked}

module _ (i : ℕ) (k : Kernel) where
  pub table-switch_to : (switch_to i k).0.process_table ≡ k.process_table
  unfolding switch_to process_switch
  table-switch_to = ground arith

  pub count-switch_to : (switch_to i k).0.process_count ≡ k.process_count
  unfolding switch_to process_switch
  count-switch_to = ground arith

  pub current-switch_to : (switch_to i k).0.current_process ≡ some i
  unfolding switch_to
  current-switch_to = refl

  pub process_get-switch_to : (j : ℕ) → process_get j (switch_to i k).0 ≡ process_get j k
  unfolding process_get
  process_get-switch_to j = ground (arith, table-switch_to, count-switch_to)

  pub state-switch_to :
      (a : ℕ)
      → ((switch_to i k).0.proc a).state
        ≡ (if a == process_get i k then running else (k.proc a).state)
  unfolding switch_to process_switch
  state-switch_to a = ground arith

  pub saved_esp-switch_to : (a : ℕ) → ((switch_to i k).0.proc a).saved_esp ≡ (k.proc a).saved_esp
  unfolding switch_to process_switch
  saved_esp-switch_to a = ground arith

  pub state_at-switch_to :
      (j : ℕ)
      → state_at j (switch_to i k).0
        ≡ (if process_get j k == process_get i k then running else state_at j k)
  state_at-switch_to j =
      ap (λ a. ((switch_to i k).0.proc a).state) (process_get-switch_to j)
      ∙ state-switch_to (process_get j k)

switch_to-IsValid :
    (i : ℕ) (k : Kernel)
    → IsTable k
    → i < k.process_count
    → ((j : ℕ) → j < k.process_count → is_running (state_at j k) ≡ false)
    → IsValid (switch_to i k).0
switch_to-IsValid i k t h idle_all = record {
  table = IsTable-same k (switch_to i k).0 (table-switch_to i k) (count-switch_to i k) t;
  in_table = λ j e. ground (arith, current-switch_to i k, count-switch_to i k);
  one_runs = λ j hj r.
      let inside : j < k.process_count = subst (λ n. j < n) (count-switch_to i k) hj in
      let same : process_get j k ≡ process_get i k =
        ground (arith, state_at-switch_to i k j, idle_all j inside) in
      current-switch_to i k ∙ ap some (sym (process_get-distinct k j i t inside h same));
}

save_previous-IsValid : (esp : ℕ) (k : Kernel) → IsValid k → IsValid (save_previous esp k)
save_previous-IsValid esp k v = record {
  table = save_previous-IsTable esp k v.table;
  in_table = λ i e.
      omega
        (arith, v.in_table i (sym (current-save_previous esp k) ∙ e), count-save_previous esp k);
  one_runs = λ i h r.
      absurd
        (false_ne_true (sym (none_runs esp i k v (omega (arith, count-save_previous esp k))) ∙ r));
}
  where
    false_ne_true : false ≢ true
    false_ne_true e = cc

Ticked-IsValid : (esp : ℕ) (k : Kernel) {r : Kernel × ℕ} → IsValid k → Ticked esp k r → IsValid r.0
Ticked-IsValid esp k v (idle all) = save_previous-IsValid esp k v
Ticked-IsValid esp k v (switched s lo hi runs before i e) =
    switch_to-IsValid i (save_previous esp k) (save_previous-IsTable esp k v.table)
      (rw e (
        omega (
          arith,
          count-save_previous esp k,
          index_after-lt k.current_process s k.process_count (omega arith),
        )))
      (λ j h. none_runs esp j k v (omega (arith, count-save_previous esp k)))

-- A timer tick keeps the invariant: the table holds distinct processes, the current index lies in
-- it, and no other process than the current one is in the running state.
pub tick-IsValid : (esp : ℕ) (k : Kernel) → IsValid k → IsValid (scheduler_tick esp k).0
tick-IsValid esp k v = Ticked-IsValid esp k v (tick-Ticked esp k)

pub saved_esp-save_previous :
    (esp a : ℕ) (k : Kernel)
    → ((save_previous esp k).proc a).saved_esp ≡ (
        if not (current k == 0)
          && (a == current k)
          && (is_running (k.proc (current k)).state || is_blocked (k.proc (current k)).state)
        then esp
        else (k.proc a).saved_esp)
unfolding save_previous
saved_esp-save_previous esp a k = ground arith
