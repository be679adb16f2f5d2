-- ===== src/Scheduler/Task.antt =====
-- src/scheduler/task.cpp: the table of kernel tasks.
pub mod Table
pub mod Create
pub mod Clean
pub mod Tests
use nemo_os.Base.{
  ℕ, ◌+◌, ◌-◌, ◌%◌, ◌^◌, Bool, true, false, Option, none, some, List, [], ◌∷◌, ◌==◌, if◌then◌else◌,
  set,
}
use nemo_os.Process.{TaskState, free, ready, dead}
use nemo_os.Process.Stack.{push, free_if}
use nemo_os.Memory.Pmm.{Pmm, alloc_page}
use nemo_os.Memory.Words.{clear_words}

pub record Task : Type 0 where
  pub pid : ℕ
  pub state : TaskState
  pub entry : ℕ
  pub esp : ℕ
  pub stack_bottom : ℕ
  pub stack_size : ℕ
  pub process : ℕ

-- The static variables, the pages and memory by words, and the addresses that `kfree` was called
-- with, the last first. The count is the 32 bits of an `int`.
pub record Tasks : Type 0 where
  pub tasks : List Task
  pub task_count_value : ℕ
  pub next_pid : ℕ
  pub pmm : Pmm
  pub word : ℕ → ℕ
  pub kfreed : List ℕ

abbrev pub is_free : TaskState → Bool
is_free TaskState.free = true
is_free _ = false

abbrev pub is_dead_task : TaskState → Bool
is_dead_task TaskState.dead = true
is_dead_task _ = false

-- The seven zeros on top of the stack.
unfoldable pub push_zeros : ℕ × (ℕ → ℕ) → ℕ × (ℕ → ℕ)
push_zeros s = push 0 (push 0 (push 0 (push 0 (push 0 (push 0 (push 0 s))))))

-- The cleared page and what `*--sp` stores in it: the new stack pointer, and memory.
unfoldable pub task_frame : ℕ → ℕ → ℕ → (ℕ → ℕ) → ℕ × (ℕ → ℕ)
task_frame trampoline entry stack word = push_zeros (
    push entry
      (push trampoline (push 0x08 (push 0x202 (stack + 4096, clear_words 1024 stack word)))))

-- The loop of `task_create`: the first free slot, the slots being counted from `i`.
unfoldable pub free_from : ℕ → List Task → Option ℕ
free_from i [] = none
free_from i (t ∷ tasks) =
    let rest = free_from (i + 1) tasks in if is_free t.state then some i else rest

-- The slot of the new task, `none` for a null pointer; `trampoline` is the address of
-- `task_trampoline`.
unfoldable pub task_create : ℕ → ℕ → ℕ → Tasks → Tasks × Option ℕ
task_create trampoline entry process s =
    let (p, stack) = alloc_page s.pmm in
    let (sp, word) = task_frame trampoline entry stack s.word in
    if stack == 0 then (record s { pmm = p }, none) else elim (free_from 0 s.tasks) [
      | none ↦ (record s { pmm = p; word = word; kfreed = stack ∷ s.kfreed }, none)
      | some i ↦ (
        record s {
          tasks = set s.tasks i (record {
            pid = s.next_pid;
            state = ready;
            entry = entry;
            esp = sp;
            stack_bottom = stack;
            stack_size = 4096;
            process = process;
          });
          task_count_value = (s.task_count_value + 1) % 2 ^ 32;
          next_pid = (s.next_pid + 1) % 2 ^ 32;
          pmm = p;
          word = word;
        },
        some i,
      )
    ]

-- A dead task's slot after `task_cleanup_dead`.
abbrev pub cleared : Task → Task
cleared t = record t { state = free; pid = 0; stack_bottom = 0; process = 0 }

-- The loop of `task_cleanup_dead` over the slots that are left.
unfoldable pub clean_from : List Task → ℕ → Pmm → List Task × ℕ × Pmm
clean_from [] count p = ([], count, p)
clean_from (t ∷ tasks) count p =
    let (cleaned, count1, p1) =
      clean_from tasks ((2 ^ 32 + count - 1) % 2 ^ 32) (free_if t.stack_bottom p) in
    let (kept, count2, p2) = clean_from tasks count p in
    if is_dead_task t.state then (cleared t ∷ cleaned, count1, p1) else (t ∷ kept, count2, p2)

unfoldable pub task_cleanup_dead : Tasks → Tasks
task_cleanup_dead s =
    let (tasks, count, p) = clean_from s.tasks s.task_count_value s.pmm in
    record s { tasks = tasks; task_count_value = count; pmm = p }

pub task_count : Tasks → ℕ
task_count s = s.task_count_value

pub task_table : Tasks → List Task
task_table s = s.tasks
