-- ===== src/Process/Life.antt =====
-- src/process/process.cpp: how a process is made, entered and destroyed.
pub mod Finish
pub mod Create
pub mod Destroy
mod Tests
use nemo_os.Base.{
  ℕ, zero, suc, ◌+◌, ◌-◌, ◌*◌, ◌/◌, ◌%◌, ◌^◌, ◌≤◌, ◌<◌, ◌≡◌, ◌≢◌, ◌↔◌, ◌⊎◌, refl, sym, ap, ◌∙◌,
  subst, inl, inr, Bool, true, false, ◌&&◌, ◌||◌, not, Option, none, some, List, [], ◌∷◌, ◌++◌, map,
  arith, ltb, leb, ◌==◌, if◌then◌else◌, Bool-cases, Option-cases, ==_iff, length, get_elem?, set,
  get_or, take, drop, replicate, length-append, length-set, length-take, take-take, length-drop,
  length-replicate, get_elem?-set_self, get_elem?-set_ne, get_or-set, get_or-replicate, ltb→lt,
  lt→ltb, leb→le, tests, ◌>>=◌,
}
use nemo_os.Memory.Pmm.{Pmm, free_page}
use nemo_os.Memory.Words.{clear_words}
use nemo_os.Memory.Kmalloc.{Heap, kmalloc}
use nemo_os.Memory.Kmalloc.Kfree.{kfree}
use nemo_os.Memory.Vmm.{Mmu, vmm_create_space}
use nemo_os.User.{user_install_into_space}
use nemo_os.Process.{
  Process, ready, running, dead, Ring, Kernel, put_proc, set_state, process_get, current,
  register_process, unregister_process, process_switch,
}
use nemo_os.Process.Stack.{
  alloc_kernel_stack, kernel_stack_bytes, build_user_frame, build_kernel_frame,
}

-- A call of `process_destroy` to another component that gives something back.
pub data Release : Type 0 where
  destroyed_space freed_block : ℕ → Release

-- The pages, memory by words, and the heap's variables; `released` are the calls of
-- `process_destroy`, the last one first. What the kernel writes to the block of a process is
-- `kernel.proc`.
pub record System : Type 0 where
  pub kernel : Kernel
  pub pmm : Pmm
  pub word : ℕ → ℕ
  pub free_list : ℕ
  pub heap_end : ℕ
  pub next_pid : ℕ
  pub released : List Release

abbrev pub release : Release → System → System
release call s = record s { released = call ∷ s.released }

abbrev pub with_kernel : Kernel → System → System
with_kernel k s = record s { kernel = k }

-- The parts of the state that kmalloc.cpp and vmm.cpp work on. The functions that are called do not
-- read CR0, and what `invlpg` drops is not kept.
abbrev pub heap_of : System → Heap
heap_of s = record { pmm = s.pmm; word = s.word; free_list = s.free_list; heap_end = s.heap_end }

abbrev pub with_heap : Heap → System → System
with_heap h s = record s {
  pmm = h.pmm;
  word = h.word;
  free_list = h.free_list;
  heap_end = h.heap_end;
}

abbrev pub mmu_of : ℕ → System → Mmu
mmu_of kernel_space s = record {
  pmm = s.pmm;
  word = s.word;
  cr3 = s.kernel.cr3;
  cr0 = 0;
  kernel_space = kernel_space;
  invalidated = [];
}

abbrev pub with_mmu : Mmu → System → System
with_mmu m s = record s { pmm = m.pmm; word = m.word }

-- What a call may end in: a panic, a loop or a recursion that has not come back in the rounds and
-- the depth allowed, or a result.
pub data Outcome : Type 0 where
  panic unfinished : Outcome
  returned : ℕ → System → Outcome

-- The fields that are the same for every new process.
abbrev pub new_process : ℕ → Ring → ℕ → ℕ → ℕ → Process
new_process pid ring space user_entry user_esp = record {
  pid = pid;
  parent_pid = 1;
  state = ready;
  ring = ring;
  address_space = space;
  kernel_stack = 0;
  kernel_stack_top = 0;
  kernel_stack_bottom = 0;
  saved_esp = 0;
  user_entry = user_entry;
  user_esp = user_esp;
  exit_code = 0;
  msg_queue = 0;
}

-- The end of both functions: a process gets its stack, whose bottom and stack pointer are given,
-- and its place in the table.
unfoldable pub finish : ℕ → Process → ℕ → ℕ × (ℕ → ℕ) → Pmm → System → Outcome
finish proc x bottom (sp, word) pmm s =
    let y = record x {
      kernel_stack_bottom = bottom;
      kernel_stack_top = sp;
      kernel_stack = bottom + kernel_stack_bytes;
    } in
    elim (register_process proc (put_proc proc y s.kernel)) [
      | none ↦ Outcome.panic
      | some k ↦ Outcome.returned proc (record s { kernel = k; pmm = pmm; word = word })
    ]

-- `sizeof(Process)`
abbrev pub process_size : ℕ
process_size = 52

-- `kfree(proc); return nullptr;`
unfoldable pub abandon : ℕ → ℕ → System → Outcome
abandon fuel proc s = elim (kfree fuel proc (heap_of s)) [
  | none ↦ Outcome.unfinished
  | some h ↦ Outcome.returned 0 (with_heap h s)
]

abbrev pub counted : System → System
counted s = record s { next_pid = (s.next_pid + 1) % 2 ^ 32 }

-- The end of both functions from the call of `alloc_kernel_stack` on, with its `memset`; `frame`
-- builds the frame below an address in memory. `depth` bounds the recursion of
-- `alloc_kernel_stack`, and `fuel` the rounds of the heap's loops.
unfoldable pub with_stack : ℕ → ℕ → ℕ → Process → (ℕ × (ℕ → ℕ) → ℕ × (ℕ → ℕ)) → System → Outcome
with_stack depth fuel proc x frame s = elim (alloc_kernel_stack depth s.pmm) [
  | none ↦ Outcome.unfinished
  | some (zero, pmm) ↦ abandon fuel proc (record s { pmm = pmm })
  | some (suc below, pmm) ↦
      let bottom = suc below in
      let cleared = clear_words 2048 bottom s.word in
      finish proc x bottom (frame (bottom + kernel_stack_bytes, cleared)) pmm s
]

-- `kernel_space` is the static variable of vmm.cpp, and `user_code_phys` that of user_mode.cpp.
unfoldable pub process_create : ℕ → ℕ → ℕ → ℕ → ℕ → ℕ → System → Outcome
process_create depth fuel kernel_space user_code_phys user_entry user_esp s =
    elim (kmalloc fuel process_size (heap_of s)) [
      | none ↦ Outcome.unfinished
      | some (h, proc) ↦
          let s1 = counted (with_heap h s) in
          let (m, space) = vmm_create_space (mmu_of kernel_space s1) in
          let x = new_process s.next_pid Ring.user space user_entry user_esp in
          let installed = with_mmu (user_install_into_space space user_code_phys m) s1 in
          if proc == 0
          then Outcome.returned 0 (with_heap h s)
          else if space == 0
          then abandon fuel proc (with_mmu m s1)
          else with_stack depth fuel proc x (build_user_frame user_entry user_esp) installed
    ]

unfoldable pub process_create_kernel : ℕ → ℕ → ℕ → ℕ → System → Outcome
process_create_kernel depth fuel kernel_space entry s =
    elim (kmalloc fuel process_size (heap_of s)) [
      | none ↦ Outcome.unfinished
      | some (h, proc) ↦
          let x = new_process s.next_pid Ring.kernel kernel_space 0 0 in
          if proc == 0
          then Outcome.returned 0 (with_heap h s)
          else with_stack depth fuel proc x (build_kernel_frame entry) (counted (with_heap h s))
    ]

abbrev pub is_user : Ring → Bool
is_user Ring.user = true
is_user Ring.kernel = false

-- The part of `process_destroy` that gives the pages and the heap blocks of a process back.
unfoldable pub free_process : ℕ → Process → System → System
free_process kernel_space x s =
    let s1 =
      if is_user x.ring && not (x.address_space == kernel_space)
      then release (Release.destroyed_space x.address_space) s
      else s in
    let s2 = if x.kernel_stack_bottom == 0 then s1 else record s1 {
      pmm = free_page (x.kernel_stack_bottom + 4096) (free_page x.kernel_stack_bottom s1.pmm);
    } in
    if x.msg_queue == 0 then s2 else release (Release.freed_block x.msg_queue) s2

unfoldable pub process_destroy : ℕ → ℕ → System → System
process_destroy kernel_space proc s =
    let s1 = with_kernel (set_state proc dead s.kernel) s in
    let s2 = free_process kernel_space (s.kernel.proc proc) s1 in
    if proc == 0
    then s
    else release (Release.freed_block proc) (with_kernel (unregister_process proc s2.kernel) s2)

-- The loop of `process_first_enter` that finds the process in the table, from index `i` on.
unfoldable pub mark_from : ℕ → ℕ → ℕ → Kernel → Kernel
mark_from zero i proc k = k
mark_from (suc rounds) i proc k =
    let rest = mark_from rounds (i + 1) proc k in
    if process_get i k == proc then record k { current_process = some i } else rest

-- `process_first_enter` up to the jump: the state, and the stack pointer that it jumps with;
-- `none` is the endless loop for a null pointer.
unfoldable pub process_first_enter : ℕ → Kernel → Option (Kernel × ℕ)
process_first_enter proc k =
    let k1 = process_switch proc (set_state proc running k) in
    if proc == 0 then none else some (mark_from 16 0 proc k1, (k1.proc proc).kernel_stack_top)

-- `process_exit_current` up to the loop that waits for the next tick.
unfoldable pub process_exit_current : ℕ → Kernel → Kernel
process_exit_current code k =
    let me = current k in
    let x = k.proc me in
    if me == 0 then k else put_proc me (record x { exit_code = code; state = dead }) k

unfoldable pub process_set_entry : ℕ → ℕ → ℕ → System → System
process_set_entry proc entry user_esp s =
    let x = s.kernel.proc proc in
    let (sp, word) = build_user_frame entry user_esp (x.kernel_stack_bottom + 8192, s.word) in
    let y = record x { user_entry = entry; user_esp = user_esp; kernel_stack_top = sp } in
    if proc == 0 then s else record s { kernel = put_proc proc y s.kernel; word = word }
