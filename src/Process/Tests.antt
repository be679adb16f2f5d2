-- ===== src/Process/Tests.antt =====
-- The process table of process.cpp at a table of two processes.
use nemo_os.Base.{
  ℕ, zero, suc, ◌<◌, ◌≡◌, ◌≢◌, refl, some, [], ◌∷◌, arith, ◌==◌, if◌then◌else◌, get_or, replicate,
}
use nemo_os.Process.{Process, TaskState, ready, running, Ring, Kernel, IpcQueue}
use nemo_os.Process.{current, unregister_process}
use nemo_os.Process.Table.{IsTable, unregister-loses-current}

abbrev pub idle_process : ℕ → TaskState → Process
idle_process pid s = record {
  pid = pid;
  parent_pid = 1;
  state = s;
  ring = Ring.kernel;
  address_space = 0x1000;
  kernel_stack = 0x9000;
  kernel_stack_top = 0x8FD4;
  kernel_stack_bottom = 0x7000;
  saved_esp = 0;
  user_entry = 0;
  user_esp = 0;
  exit_code = 0;
  msg_queue = 0;
}

abbrev pub no_queue : IpcQueue
no_queue = record { msgs = []; head = 0; tail = 0; count = 0 }

-- Processes at 0x100 and 0x200; the second runs.
abbrev pub two : Kernel
two = record {
  process_table = 0x100 ∷ 0x200 ∷ replicate 14 0;
  process_count = 2;
  current_process = some 1;
  proc = λ a. if a == 0x100 then idle_process 1 ready else idle_process 2 running;
  queue = λ a. no_queue;
  tss_esp0 = 0;
  cr3 = 0;
}

pub two-IsTable : IsTable two
two-IsTable = record {
  storage = refl;
  fits = omega arith;
  nonnull = λ i h. entry i h;
  distinct = λ i j hi hj. apart i j hi hj;
}
  where
    entry : (i : ℕ) → i < 2 → get_or two.process_table i 0 ≢ 0
    entry zero h = omega arith
    entry (suc zero) h = omega arith
    entry (suc (suc i)) h = absurd (omega arith)

    apart :
        (i j : ℕ)
        → i < 2
        → j < 2
        → get_or two.process_table i 0 ≡ get_or two.process_table j 0
        → i ≡ j
    apart zero zero hi hj e = refl
    apart zero (suc zero) hi hj e = absurd (omega arith)
    apart zero (suc (suc j)) hi hj e = absurd (omega arith)
    apart (suc zero) zero hi hj e = absurd (omega arith)
    apart (suc zero) (suc zero) hi hj e = refl
    apart (suc zero) (suc (suc j)) hi hj e = absurd (omega arith)
    apart (suc (suc i)) j hi hj e = absurd (omega arith)

destroy_first : (unregister_process 0x100 two).process_table ≡ 0x200 ∷ 0x200 ∷ replicate 14 0
unfolding unregister_process
destroy_first = refl

unregister-loses-current_example : current (unregister_process 0x100 two) ≡ 0
unregister-loses-current_example =
    unregister-loses-current 0x100 1 two refl refl (0, omega arith, refl)
