-- ===== src/Scheduler.antt =====
-- src/scheduler/scheduler.cpp: the round robin that the timer interrupt runs.
pub mod Next
pub mod Tick
pub mod Valid
pub mod Fair
pub mod Resume
pub mod Task
mod Tests
use nemo_os.Base.{
  ℕ, zero, suc, ◌+◌, ◌-◌, ◌%◌, Bool, ◌&&◌, not, Option, none, some, ◌==◌, if◌then◌else◌,
}
use nemo_os.Process.{Process, ready, running, dead, is_running, is_blocked, is_dead}
use nemo_os.Process.{Kernel, put_proc, set_state, process_get, current, process_switch}

-- May the process at an address run? A null pointer may not.
unfoldable pub is_runnable : ℕ → Kernel → Bool
is_runnable p k =
    not (p == 0) && not (is_dead (k.proc p).state) && not (is_blocked (k.proc p).state)

-- `(from + step) % total`; -1 comes before index 0.
unfoldable pub index_after : Option ℕ → ℕ → ℕ → ℕ
index_after none step total = (step - 1) % total
index_after (some i) step total = (i + step) % total

-- The loop of `find_next` from `step` on, with `rounds` rounds left; `none` is -1.
unfoldable pub find_from : ℕ → ℕ → Option ℕ → Kernel → Option ℕ
find_from zero step from k = none
find_from (suc rounds) step from k =
    let rest = find_from rounds (step + 1) from k in
    let idx = index_after from step k.process_count in
    if is_runnable (process_get idx k) k then some idx else rest

unfoldable pub find_next : Option ℕ → Kernel → Option ℕ
unfolding find_from
find_next from k = find_from k.process_count 1 from k

-- The first part of `scheduler_tick`: what it does to the process that was interrupted.
unfoldable pub save_previous : ℕ → Kernel → Kernel
save_previous current_esp k =
    let p = current k in
    let x = k.proc p in
    if p == 0
    then k
    else if is_running x.state
    then put_proc p (record x { state = ready; saved_esp = current_esp }) k
    else if is_blocked x.state
    then put_proc p (record x { saved_esp = current_esp }) k
    else k

-- The stack pointer that `scheduler_tick` returns for the process that it resumes.
unfoldable pub resume_esp : Process → ℕ
resume_esp x = if x.saved_esp == 0 then x.kernel_stack_top else x.saved_esp

-- The last part: resume the process at index `i`.
unfoldable pub switch_to : ℕ → Kernel → Kernel × ℕ
switch_to i k =
    let p = process_get i k in
    let k' = set_state p running (process_switch p k) in
    (record k' { current_process = some i }, resume_esp (k.proc p))

-- The new state and the stack pointer that the interrupt returns to.
unfoldable pub scheduler_tick : ℕ → Kernel → Kernel × ℕ
scheduler_tick current_esp k =
    if k.process_count == 0
    then (k, current_esp)
    else let saved = save_previous current_esp k in
      elim (find_next k.current_process saved) [
        | none ↦ (saved, current_esp)
        | some i ↦ if process_get i saved == 0 then (saved, current_esp) else switch_to i saved
      ]

-- `scheduler_mark_dead`, called when a task returns.
unfoldable pub mark_dead : Kernel → Kernel
mark_dead k = let p = current k in if p == 0 then k else set_state p dead k

-- `scheduler_init` and `scheduler_mark_current`
unfoldable pub init : Kernel → Kernel
init k = record k { current_process = none }

unfoldable pub mark_current : ℕ → Kernel → Kernel
mark_current i k = record k { current_process = some i }
