-- ===== src/Scheduler/Tick.antt =====
-- `scheduler_tick` of scheduler.cpp: at most one process is in the running state, the one that the
-- scheduler takes for the current one, and the interrupted one can be resumed where it stopped.
use mathlib.Core.Path.{subst}
use nemo_os.Base.{
  ℕ, ◌≤◌, ◌<◌, ◌≡◌, refl, sym, ap, ◌∙◌, inl, inr, Bool, true, false, ◌&&◌, not, Option, none, some,
  arith, ◌==◌, if◌then◌else◌, Bool-cases, get_or,
}
use nemo_os.Process.{TaskState, ready, is_running}
use nemo_os.Process.{Kernel, process_get, current}
use nemo_os.Process.Table.{IsTable, process_get-nonnull}
use nemo_os.Scheduler.{
  is_runnable, index_after, find_next, save_previous, switch_to, scheduler_tick,
}
use nemo_os.Scheduler.Next.{Found, nobody, first, find_next-Found, runs_at, find_next-eq-none}

-- The state of the process at a table index.
abbrev pub state_at : ℕ → Kernel → TaskState
state_at i k = (k.proc (process_get i k)).state

-- Only the current process may be in the running state.
pub record IsValid (k : Kernel) : Type 0 where
  pub table : IsTable k
  pub in_table : (i : ℕ) → k.current_process ≡ some i → i < k.process_count
  pub one_runs :
      (i : ℕ) → i < k.process_count → is_running (state_at i k) ≡ true → k.current_process ≡ some i

pub IsTable-same :
    (k k' : Kernel)
    → k'.process_table ≡ k.process_table
    → k'.process_count ≡ k.process_count
    → IsTable k
    → IsTable k'
IsTable-same k k' et ec t = record {
  storage = rw et t.storage;
  fits = rw ec t.fits;
  nonnull = λ i h. rw et (t.nonnull i (omega arith));
  distinct = λ i j hi hj e.
      t.distinct i j (omega arith) (omega arith) (subst (λ l. get_or l i 0 ≡ get_or l j 0) et e);
}

-- Saving changes the process objects alone.
pub table-save_previous :
    (esp i : ℕ) (k : Kernel) → process_get i (save_previous esp k) ≡ process_get i k
unfolding save_previous process_get
table-save_previous esp i k = ground arith

pub count-save_previous :
    (esp : ℕ) (k : Kernel) → (save_previous esp k).process_count ≡ k.process_count
unfolding save_previous
count-save_previous esp k = ground arith

pub current-save_previous :
    (esp : ℕ) (k : Kernel) → (save_previous esp k).current_process ≡ k.current_process
unfolding save_previous
current-save_previous esp k = ground arith

-- The state of the process at an address after saving: only a running current process changes.
pub state-save_previous :
    (esp a : ℕ) (k : Kernel)
    → ((save_previous esp k).proc a).state ≡ (
        if not (current k == 0) && (a == current k) && is_running (k.proc (current k)).state
        then ready
        else (k.proc a).state)
unfolding save_previous
state-save_previous esp a k = ground arith

pub runnable-save_previous :
    (esp a : ℕ) (k : Kernel) → is_runnable a (save_previous esp k) ≡ is_runnable a k
unfolding is_runnable
runnable-save_previous esp a k = ground (arith, state-save_previous esp a k)

pub save_previous-IsTable : (esp : ℕ) (k : Kernel) → IsTable k → IsTable (save_previous esp k)
save_previous-IsTable esp k t =
    IsTable-same k (save_previous esp k) same (count-save_previous esp k) t
  where
    same : (save_previous esp k).process_table ≡ k.process_table
    same = unfold save_previous in ground arith

pub current_of : (i : ℕ) (k : Kernel) → k.current_process ≡ some i → current k ≡ process_get i k
unfolding current
current_of i k e = rw e

-- After saving no process of the table is in the running state.
pub none_runs :
    (esp i : ℕ) (k : Kernel)
    → IsValid k
    → i < k.process_count
    → is_running (state_at i (save_previous esp k)) ≡ false
none_runs esp i k v h =
    subst (λ a. is_running ((save_previous esp k).proc a).state ≡ false)
      (sym (table-save_previous esp i k))
      (rw (state-save_previous esp (process_get i k) k)
        (elim (Bool-cases (is_running (state_at i k))) [
          | inl runs ↦
              rw (current_of i k (v.one_runs i h runs))
                (ground (arith, process_get-nonnull k i v.table h))
          | inr still ↦ ground arith
        ]))

-- What a tick does in state `k`.
pub data Ticked (esp : ℕ) (k : Kernel) : Kernel × ℕ → Type 0 where
  idle :
      ((i : ℕ) → i < k.process_count → is_runnable (process_get i k) k ≡ false)
      → Ticked esp k (save_previous esp k, esp)
  switched :
      (s : ℕ)
      → 1 ≤ s
      → s ≤ k.process_count
      → runs_at k.current_process k s ≡ true
      → ((t : ℕ) → 1 ≤ t → t < s → runs_at k.current_process k t ≡ false)
      → (i : ℕ) → i ≡ index_after k.current_process s k.process_count
      → Ticked esp k (switch_to i (save_previous esp k))

runs_at-save_previous :
    (esp : ℕ) (from : Option ℕ) (k : Kernel) (s : ℕ)
    → runs_at from (save_previous esp k) s ≡ runs_at from k s
runs_at-save_previous esp from k s =
    let saved = save_previous esp k in
    ap (λ n. is_runnable (process_get (index_after from s n) saved) saved)
      (count-save_previous esp k)
    ∙ (ap (λ a. is_runnable a saved)
          (table-save_previous esp (index_after from s k.process_count) k)
        ∙ runnable-save_previous esp (process_get (index_after from s k.process_count) k) k)

-- A runnable pointer is not null.
runnable-nonnull : (a : ℕ) (k : Kernel) → is_runnable a k ≡ true → (a == 0) ≡ false
unfolding is_runnable
runnable-nonnull a k e = ground arith

-- What the tick does with the answer of `find_next`.
abbrev resumed : ℕ → Kernel → Option ℕ → Kernel × ℕ
resumed esp saved r = elim r [
  | none ↦ (saved, esp)
  | some i ↦ if process_get i saved == 0 then (saved, esp) else switch_to i saved
]

module _ (esp : ℕ) (k : Kernel) where
  runs-saved :
      (s : ℕ) (b : Bool)
      → runs_at k.current_process (save_previous esp k) s ≡ b
      → runs_at k.current_process k s ≡ b
  runs-saved s b e = sym (runs_at-save_previous esp k.current_process k s) ∙ e

  resumed-Ticked :
      (n : ℕ) {r : Option ℕ}
      → n ≡ k.process_count
      → Found k.current_process (save_previous esp k) 1 n r
      → (r ≡ none → (i : ℕ) → i < k.process_count → is_runnable (process_get i k) k ≡ false)
      → Ticked esp k (resumed esp (save_previous esp k) r)
  resumed-Ticked n e (nobody none_there) all = idle (all refl)
  resumed-Ticked n e (first s lo hi runs before) all =
      rw (runnable-nonnull _ (save_previous esp k) runs) (
        switched s lo (omega arith) (runs-saved s true runs)
          (λ t a b. runs-saved t false (before t a b)) _
          (ap (index_after k.current_process s) (count-save_previous esp k)))

  nobody_runs :
      find_next k.current_process (save_previous esp k) ≡ none
      → (i : ℕ) → i < k.process_count
      → is_runnable (process_get i k) k ≡ false
  nobody_runs e i h =
      sym (runnable-save_previous esp (process_get i k) k)
      ∙ (ap (λ a. is_runnable a (save_previous esp k)) (sym (table-save_previous esp i k))
          ∙ (find_next-eq-none k.current_process (save_previous esp k)).0 e i
              (rw (count-save_previous esp k) h))

empty_table : (esp : ℕ) (k : Kernel) → k.process_count ≡ 0 → save_previous esp k ≡ k
unfolding save_previous current process_get
empty_table esp k e = ground arith

-- A tick saves the interrupted process and then resumes the first runnable process in the order
-- of the round behind it, or goes on with the interrupted stack if no process is runnable.
pub tick-Ticked : (esp : ℕ) (k : Kernel) → Ticked esp k (scheduler_tick esp k)
unfolding scheduler_tick
tick-Ticked esp k = elim (Bool-cases (k.process_count == 0)) [
  | inl empty ↦ rw empty (
      subst (λ q. Ticked esp k (q, esp)) (empty_table esp k (ground arith))
        (idle (λ i h. absurd (ground arith))))
  | inr some_there ↦ rw some_there (
      resumed-Ticked esp k (save_previous esp k).process_count (count-save_previous esp k)
        (find_next-Found k.current_process (save_previous esp k)) (nobody_runs esp k))
]
