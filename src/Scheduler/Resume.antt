-- ===== src/Scheduler/Resume.antt =====
-- src/scheduler/scheduler.cpp: what `scheduler_tick` saves, and what it resumes.
use nemo_os.Base.{
  ℕ, ◌+◌, ◌-◌, ◌%◌, ◌≤◌, ◌<◌, ◌≡◌, ◌≢◌, ◌⊎◌, refl, sym, ap, ◌∙◌, subst, inl, inr, Bool, true, false,
  ◌&&◌, not, Option, none, some, arith, ◌==◌, if◌then◌else◌, Bool-cases,
}
use nemo_os.Process.{
  ready, running, blocked, is_running, is_blocked, is_dead, Kernel, process_get, current,
  process_switch,
}
use nemo_os.Scheduler.{
  is_runnable, index_after, save_previous, switch_to, resume_esp, scheduler_tick,
}
use nemo_os.Scheduler.Next.{runs_at}
use nemo_os.Scheduler.Tick.{Ticked, idle, switched, tick-Ticked, table-save_previous}

-- State `k1` after the interrupted process of `k` is saved: a running one is ready and can go on at
-- `esp`, a blocked one can go on there too, and nothing else changes.
pub record Saved (esp : ℕ) (k k1 : Kernel) : Type 0 where
  pub interrupted :
      current k ≢ 0
      → (k.proc (current k)).state ≡ running
      → k1.proc (current k) ≡ record (k.proc (current k)) { state = ready; saved_esp = esp }
  pub waiting :
      current k ≢ 0
      → (k.proc (current k)).state ≡ blocked
      → k1.proc (current k) ≡ record (k.proc (current k)) { saved_esp = esp }
  pub kept :
      (a : ℕ)
      → (a ≢ current k)
        ⊎ (a ≡ 0)
        ⊎ ((is_running (k.proc a).state ≡ false) × (is_blocked (k.proc a).state ≡ false))
      → k1.proc a ≡ k.proc a
  pub rest : k1 ≡ record k { proc = k1.proc }

-- State `k2` and stack pointer `esp` after the process at index `i` of `k1` is resumed.
pub record Switched (k1 : Kernel) (i : ℕ) (k2 : Kernel) (esp : ℕ) : Type 0 where
  pub now_current : k2.current_process ≡ some i
  pub now_running :
      k2.proc (process_get i k1) ≡ record (k1.proc (process_get i k1)) { state = running }
  pub others : (a : ℕ) → a ≢ process_get i k1 → k2.proc a ≡ k1.proc a
  pub rest : k2 ≡ record k1 {
    current_process = k2.current_process;
    proc = k2.proc;
    tss_esp0 = k2.tss_esp0;
    cr3 = k2.cr3;
  }
  pub kernel_stack : k2.tss_esp0 ≡ (
      if (k1.proc (process_get i k1)).kernel_stack == 0
      then k1.tss_esp0
      else (k1.proc (process_get i k1)).kernel_stack)
  pub space : k2.cr3 ≡ (
      if (k1.proc (process_get i k1)).address_space == 0
      then k1.cr3
      else (k1.proc (process_get i k1)).address_space)
  pub stack_pointer : esp ≡ (
      if (k1.proc (process_get i k1)).saved_esp == 0
      then (k1.proc (process_get i k1)).kernel_stack_top
      else (k1.proc (process_get i k1)).saved_esp)

-- A process that may run, and the index whose turn it is `step` steps behind the current one.
abbrev pub can_run : ℕ → Kernel → Bool
can_run p k = not (p == 0) && not (is_dead (k.proc p).state) && not (is_blocked (k.proc p).state)

abbrev pub turn : Option ℕ → ℕ → ℕ → ℕ
turn none step total = (step - 1) % total
turn (some i) step total = (i + step) % total

abbrev pub can_run_at : Kernel → ℕ → Bool
can_run_at k step = can_run (process_get (turn k.current_process step k.process_count) k) k

-- What a tick in state `k` with stack pointer `esp` may end in.
pub data Resumed (esp : ℕ) (k : Kernel) : Kernel × ℕ → Type 0 where
  goes_on :
      ((i : ℕ) → i < k.process_count → can_run (process_get i k) k ≡ false)
      → (k1 : Kernel) → Saved esp k k1
      → Resumed esp k (k1, esp)
  resumes :
      (step : ℕ)
      → 1 ≤ step
      → step ≤ k.process_count
      → can_run_at k step ≡ true
      → ((t : ℕ) → 1 ≤ t → t < step → can_run_at k t ≡ false)
      → (k1 k2 : Kernel) (esp2 : ℕ) → Saved esp k k1
      → Switched k1 (turn k.current_process step k.process_count) k2 esp2
      → Resumed esp k (k2, esp2)

saved-rest :
    (esp : ℕ) (k : Kernel) → save_previous esp k ≡ record k { proc = (save_previous esp k).proc }
unfolding save_previous
saved-rest esp k = elim (Bool-cases (current k == 0)) [
  | inl e ↦ rw e refl
  | inr e ↦ elim (Bool-cases (is_running (k.proc (current k)).state)) [
    | inl r ↦ rw (e, r) refl
    | inr r ↦ elim (Bool-cases (is_blocked (k.proc (current k)).state)) [
      | inl w ↦ rw (e, r, w) refl
      | inr w ↦ rw (e, r, w) refl
    ]
  ]
]

save_previous-Saved : (esp : ℕ) (k : Kernel) → Saved esp k (save_previous esp k)
unfolding save_previous
save_previous-Saved esp k = record {
  interrupted = λ some_one e.
      let there : (current k == 0) ≡ false = ground arith in
      let runs : is_running (k.proc (current k)).state ≡ true = ap is_running e in
      rw (there, runs) (ground arith);
  waiting = λ some_one e.
      let there : (current k == 0) ≡ false = ground arith in
      let runs : is_running (k.proc (current k)).state ≡ false = ap is_running e in
      let waits : is_blocked (k.proc (current k)).state ≡ true = ap is_blocked e in
      rw (there, runs, waits) (ground arith);
  kept = λ a h. elim h [
    | inl ne ↦ ground arith
    | inr (inl z) ↦ ground arith
    | inr (inr (r, w)) ↦ ground (arith, r, w)
  ];
  rest = saved-rest esp k;
}

switch_to-Switched :
    (i : ℕ) (k : Kernel)
    → (process_get i k == 0) ≡ false
    → Switched k i (switch_to i k).0 (switch_to i k).1
unfolding switch_to process_switch resume_esp
switch_to-Switched i k there = rw there (record {
  now_current = refl;
  now_running = ground arith;
  others = λ a ne. ground arith;
  rest = refl;
  kernel_stack = refl;
  space = refl;
  stack_pointer = refl;
})

index_after-turn : (o : Option ℕ) (s n : ℕ) → index_after o s n ≡ turn o s n
unfolding index_after
index_after-turn none s n = refl
index_after-turn (some i) s n = refl

can_run-saved :
    (k : Kernel) (step : ℕ) (b : Bool)
    → runs_at k.current_process k step ≡ b
    → can_run_at k step ≡ b
unfolding is_runnable
can_run-saved k step b e =
    ap (λ i. can_run (process_get i k) k)
      (sym (index_after-turn k.current_process step k.process_count))
    ∙ e

unrunnable : (p : ℕ) (k : Kernel) → is_runnable p k ≡ false → can_run p k ≡ false
unfolding is_runnable
unrunnable p k e = e

Ticked-Resumed : (esp : ℕ) (k : Kernel) {r : Kernel × ℕ} → Ticked esp k r → Resumed esp k r
Ticked-Resumed esp k (idle all) =
    goes_on (λ i h. unrunnable (process_get i k) k (all i h)) (save_previous esp k)
      (save_previous-Saved esp k)
Ticked-Resumed esp k (switched s lo hi runs before i e) =
    let saved = save_previous esp k in
    let at : i ≡ turn k.current_process s k.process_count =
      e ∙ index_after-turn k.current_process s k.process_count in
    let can : can_run_at k s ≡ true = can_run-saved k s true runs in
    let there : (process_get i saved == 0) ≡ false =
      ap (λ a. a == 0) (table-save_previous esp i k ∙ ap (λ j. process_get j k) at)
      ∙ ground (arith, can) in
    resumes s lo hi can (λ t a b. can_run-saved k t false (before t a b)) saved
      (switch_to i saved).0 (switch_to i saved).1 (save_previous-Saved esp k)
      (subst (λ j. Switched saved j (switch_to i saved).0 (switch_to i saved).1) at
        (switch_to-Switched i saved there))

-- A tick looks at the processes from the one behind the current one on, once around the table. If
-- none of them may run (is there, and neither dead nor blocked), it goes on with the interrupted
-- stack; otherwise it resumes the first that may. Before that, a running current process becomes
-- ready and keeps the interrupted stack pointer, and a blocked one keeps it too. The resumed
-- process becomes the current one and is running; its kernel stack and address space, where it has
-- them, are those of the processor; the stack pointer that is returned is the one it was last
-- interrupted at, or the top of its kernel stack if there is none. Nothing else changes.
pub tick-Resumed : (esp : ℕ) (k : Kernel) → Resumed esp k (scheduler_tick esp k)
tick-Resumed esp k = Ticked-Resumed esp k (tick-Ticked esp k)
