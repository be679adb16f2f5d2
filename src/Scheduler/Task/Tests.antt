-- ===== src/Scheduler/Task/Tests.antt =====
-- The theorems on kernel tasks at a concrete table: a ready task, a dead one, and free slots.
use nemo_os.Base.{ℕ, ◌≡◌, refl, true, false, some, [], ◌∷◌, map, get_elem?, replicate}
use nemo_os.Process.{TaskState, free, ready, dead}
use nemo_os.Memory.Pmm.Tests.{dozen, dozen-IsValid}
use nemo_os.Memory.Pmm.Inv.{is_used, IsValid}
use nemo_os.Memory.Vmm.Tests.{dozen-IsReady}
use nemo_os.Scheduler.Task.{Task, Tasks, is_dead_task, task_create, task_cleanup_dead}
use nemo_os.Scheduler.Task.Table.{IsTaskTable}
use nemo_os.Scheduler.Task.Create.{Created, task_create-Created}
use nemo_os.Scheduler.Task.Clean.{clean_task, IsGiven, task_cleanup_dead-Cleaned}

abbrev in_state : TaskState → ℕ → Task
in_state state bottom = record {
  pid = 1;
  state = state;
  entry = 0x1000;
  esp = bottom;
  stack_bottom = bottom;
  stack_size = 4096;
  process = 0;
}

abbrev two_tasks : Tasks
two_tasks = record {
  tasks = in_state ready 0x1000 ∷ in_state dead 0x2000 ∷ replicate 14 (in_state free 0);
  task_count_value = 2;
  next_pid = 3;
  pmm = dozen;
  word = λ a. 7;
  kfreed = [];
}

two_tasks-IsTaskTable : IsTaskTable two_tasks
two_tasks-IsTaskTable = record { slots = refl; counted = refl }

task_create-Created_example :
    Created 0x3000 0x4000 0 two_tasks (task_create 0x3000 0x4000 0 two_tasks)
task_create-Created_example =
    task_create-Created 0x3000 0x4000 0 two_tasks dozen-IsReady two_tasks-IsTaskTable

task_cleanup_dead-Cleaned_example :
    let s1 = task_cleanup_dead two_tasks in
    (s1.tasks ≡ map clean_task two_tasks.tasks)
    × IsTaskTable s1
    × IsValid s1.pmm
    × ((j : ℕ) → is_used dozen j ≡ false → is_used s1.pmm j ≡ false)
    × ((k : ℕ) (t : Task)
        → get_elem? two_tasks.tasks k ≡ some t
        → is_dead_task t.state ≡ true
        → IsGiven t.stack_bottom s1.pmm)
task_cleanup_dead-Cleaned_example =
    task_cleanup_dead-Cleaned two_tasks two_tasks-IsTaskTable dozen-IsValid
