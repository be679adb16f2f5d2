-- ===== src/Syscalls/Tests.antt =====
-- System calls at a table of two processes.
use nemo_os.Base.{some, [], arith, ◌==◌, if◌then◌else◌}
use nemo_os.Memory.Pmm.Tests.{dozen, dozen-IsValid}
use nemo_os.Process.{running, dead}
use nemo_os.Process.Table.{IsTable}
use nemo_os.Process.Tests.{two, two-IsTable, idle_process}
use nemo_os.Process.Life.{System}
use nemo_os.Syscalls.{sys_kill, sys_wait}
use nemo_os.Syscalls.Wait.{Waited, sys_wait-Waited}
use nemo_os.Syscalls.Kill.{Killed, sys_kill-Killed}

abbrev both : System
both = record {
  kernel = two;
  pmm = dozen;
  word = λ a. 0;
  free_list = 0;
  heap_end = 0;
  next_pid = 3;
  released = [];
}

-- The first process is the caller, and the second its dead child.
abbrev over : System
over = record both {
  kernel = record two {
    current_process = some 0;
    proc = λ a. if a == 0x100 then idle_process 1 running else idle_process 2 dead;
  };
}

over-IsTable : IsTable over.kernel
over-IsTable = record {
  storage = two-IsTable.storage;
  fits = two-IsTable.fits;
  nonnull = two-IsTable.nonnull;
  distinct = two-IsTable.distinct;
}

sys_wait-Waited_example : Waited 2 over (sys_wait 0x1000 2 over)
sys_wait-Waited_example =
    sys_wait-Waited 0x1000 2 over over-IsTable dozen-IsValid (λ i h b. ground arith)

sys_kill-Killed_example : Killed 2 both (sys_kill 2 both)
sys_kill-Killed_example = sys_kill-Killed 2 both
