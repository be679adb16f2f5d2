-- ===== src/Scheduler/Tests.antt =====
-- The scheduler of scheduler.cpp at a table of two processes.
use nemo_os.Base.{ℕ, zero, suc, ◌<◌, ◌≡◌, refl, true, some, [], ◌∷◌, arith}
use nemo_os.Process.{process_get, current, process_switch, is_running}
use nemo_os.Process.Tests.{two, two-IsTable}
use nemo_os.Scheduler.{
  is_runnable, index_after, find_next, save_previous, switch_to, scheduler_tick, resume_esp,
}
use nemo_os.Scheduler.Resume.{Resumed, tick-Resumed}
use nemo_os.Scheduler.Tick.{IsValid, state_at}
use nemo_os.Scheduler.Valid.{tick-IsValid}
use nemo_os.Scheduler.Fair.{is_served, tick-serves}

two-IsValid : IsValid two
unfolding process_get
two-IsValid = record { table = two-IsTable; in_table = λ i e. ground arith; one_runs = runs_at_one }
  where
    runs_at_one : (i : ℕ) → i < 2 → is_running (state_at i two) ≡ true → some 1 ≡ some i
    runs_at_one zero h r = cc
    runs_at_one (suc zero) h r = refl
    runs_at_one (suc (suc i)) h r = absurd (omega arith)

-- The second process is interrupted, and the first one starts on its fresh stack.
first_starts : (scheduler_tick 0x8F00 two).1 ≡ 0x8FD4
unfolding scheduler_tick save_previous find_next index_after is_runnable current process_get
    switch_to resume_esp
first_starts = refl

-- Two ticks later it goes on where it was interrupted.
second_resumes : (scheduler_tick 0x8E00 (scheduler_tick 0x8F00 two).0).1 ≡ 0x8F00
unfolding scheduler_tick save_previous find_next index_after is_runnable current process_get
    switch_to resume_esp process_switch
second_resumes = refl

tick-Resumed_example : Resumed 0x8F00 two (scheduler_tick 0x8F00 two)
tick-Resumed_example = tick-Resumed 0x8F00 two

tick-IsValid_example : IsValid (scheduler_tick 0x8F00 two).0
tick-IsValid_example = tick-IsValid 0x8F00 two two-IsValid

tick-serves_example : is_served 0 (0x8F00 ∷ 0x8E00 ∷ []) two ≡ true
unfolding is_runnable process_get
tick-serves_example = tick-serves 0 (0x8F00 ∷ 0x8E00 ∷ []) two (omega arith) refl (omega arith)
