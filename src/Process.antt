-- ===== src/Process.antt =====
-- src/process/process.hpp and the process table of src/process/process.cpp, with the state that
-- the scheduler, the message queues and the system calls share. An object on the kernel heap is
-- named by its address, and 0 is `nullptr`.
pub mod Table
pub mod Stack
pub mod Life
pub mod Tests
use nemo_os.Base.{
  ℕ, zero, suc, ◌+◌, ◌-◌, Bool, true, false, Option, none, some, List, ltb, leb, ◌==◌,
  if◌then◌else◌, set, get_or,
}

-- src/scheduler/task.hpp
pub data TaskState : Type 0 where
  free ready running blocked dead : TaskState

abbrev pub is_running : TaskState → Bool
is_running TaskState.running = true
is_running _ = false

abbrev pub is_blocked : TaskState → Bool
is_blocked TaskState.blocked = true
is_blocked _ = false

abbrev pub is_dead : TaskState → Bool
is_dead TaskState.dead = true
is_dead _ = false

pub data Ring : Type 0 where
  kernel user : Ring

-- `struct Process`, less `main_task`, which is always null.
pub record Process : Type 0 where
  pub pid : ℕ
  pub parent_pid : ℕ
  pub state : TaskState
  pub ring : Ring
  pub address_space : ℕ
  pub kernel_stack : ℕ
  pub kernel_stack_top : ℕ
  pub kernel_stack_bottom : ℕ
  pub saved_esp : ℕ
  pub user_entry : ℕ
  pub user_esp : ℕ
  pub exit_code : ℕ
  pub msg_queue : ℕ

-- src/ipc/ipc.hpp. `body` is the array `data`.
pub record IpcMsg : Type 0 where
  pub sender_pid : ℕ
  pub size : ℕ
  pub body : List ℕ

pub record IpcQueue : Type 0 where
  pub msgs : List IpcMsg
  pub head : ℕ
  pub tail : ℕ
  pub count : ℕ

-- The static variables of process.cpp and scheduler.cpp, the objects at their addresses, and the
-- two registers that a switch loads. `current_process` is `none` where the source has -1.
pub record Kernel : Type 0 where
  pub process_table : List ℕ
  pub process_count : ℕ
  pub current_process : Option ℕ
  pub proc : ℕ → Process
  pub queue : ℕ → IpcQueue
  pub tss_esp0 : ℕ
  pub cr3 : ℕ

abbrev pub max_processes : ℕ
max_processes = 16

-- A write through a `Process*` and through an `ipc_queue*`.
abbrev pub put_proc : ℕ → Process → Kernel → Kernel
put_proc p x k = record k { proc = λ a. if a == p then x else k.proc a }

abbrev pub put_queue : ℕ → IpcQueue → Kernel → Kernel
put_queue q x k = record k { queue = λ a. if a == q then x else k.queue a }

abbrev pub set_state : ℕ → TaskState → Kernel → Kernel
set_state p s k = let x = k.proc p in put_proc p (record x { state = s }) k

-- `process_get`, at an index that is not negative.
unfoldable pub process_get : ℕ → Kernel → ℕ
process_get index k = if ltb index k.process_count then get_or k.process_table index 0 else 0

-- `scheduler_current_process`, and `process_current`.
unfoldable pub current : Kernel → ℕ
current k = elim k.current_process [ none ↦ 0 | some i ↦ process_get i k ]

-- `none` is the panic of a full table.
unfoldable pub register_process : ℕ → Kernel → Option Kernel
register_process p k =
    if leb max_processes k.process_count
    then none
    else some (record k {
      process_table = set k.process_table k.process_count p;
      process_count = k.process_count + 1;
    })

-- The loop of `process_destroy` over the table: the last entry takes the place of the first that
-- holds `p`. `rounds` entries are left, from `i` on.
unfoldable pub remove_from : ℕ → ℕ → ℕ → Kernel → Kernel
remove_from zero i p k = k
remove_from (suc rounds) i p k =
    let rest = remove_from rounds (i + 1) p k in
    if get_or k.process_table i 0 == p
    then record k {
      process_table = set k.process_table i (get_or k.process_table (k.process_count - 1) 0);
      process_count = k.process_count - 1;
    }
    else rest

unfoldable pub unregister_process : ℕ → Kernel → Kernel
unfolding remove_from
unregister_process p k = remove_from k.process_count 0 p k

-- `process_switch`
unfoldable pub process_switch : ℕ → Kernel → Kernel
process_switch next k =
    if next == 0
    then k
    else let x = k.proc next in
      record k {
        tss_esp0 = if x.kernel_stack == 0 then k.tss_esp0 else x.kernel_stack;
        cr3 = if x.address_space == 0 then k.cr3 else x.address_space;
      }
