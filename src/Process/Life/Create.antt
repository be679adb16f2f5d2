-- ===== src/Process/Life/Create.antt =====
-- src/process/process.cpp: what `process_create` leaves behind.
use nemo_os.Base.{ℕ, ◌≡◌, ◌≢◌, none, some, ◌==◌, if◌then◌else◌}
use nemo_os.Memory.Pmm.{Pmm}
use nemo_os.Process.{Ring, Process}
use nemo_os.Process.Stack.{alloc_kernel_stack, build_user_frame}
use nemo_os.Process.Life.{
  System, Outcome, heap_of, with_heap, mmu_of, with_mmu, process_size, abandon, counted, with_stack,
  new_process,
}
use nemo_os.Memory.Kmalloc.{Heap, kmalloc}
use nemo_os.Memory.Vmm.{Mmu, vmm_create_space}
use nemo_os.User.{user_install_into_space}
use nemo_os.Process.Life.Finish.{Made}

module _ (depth fuel kernel_space user_code_phys user_entry user_esp : ℕ) (s : System) where
  -- The states after `kmalloc`, after `vmm_create_space` and after `user_install_into_space`.
  abbrev pub allocated : Heap → System
  allocated h = counted (with_heap h s)

  abbrev pub spaced : Heap → Mmu → System
  spaced h m = with_mmu m (allocated h)

  abbrev pub installed : Heap → ℕ → Mmu → System
  installed h space m = with_mmu (user_install_into_space space user_code_phys m) (allocated h)

  -- What a call may end in, by what the functions that it calls return.
  pub data Created : Outcome → Type 0 where
    heap_unfinished : kmalloc fuel process_size (heap_of s) ≡ none → Created Outcome.unfinished
    no_memory :
        (h : Heap)
        → kmalloc fuel process_size (heap_of s) ≡ some (h, 0)
        → Created (Outcome.returned 0 (with_heap h s))
    no_space :
        (h : Heap) (proc : ℕ) (m : Mmu)
        → kmalloc fuel process_size (heap_of s) ≡ some (h, proc)
        → proc ≢ 0
        → vmm_create_space (mmu_of kernel_space (allocated h)) ≡ (m, 0)
        → Created (abandon fuel proc (spaced h m))
    stack_unfinished :
        (h : Heap) (proc space : ℕ) (m : Mmu)
        → kmalloc fuel process_size (heap_of s) ≡ some (h, proc)
        → vmm_create_space (mmu_of kernel_space (allocated h)) ≡ (m, space)
        → alloc_kernel_stack depth (installed h space m).pmm ≡ none
        → Created Outcome.unfinished
    no_stack :
        (h : Heap) (proc space : ℕ) (m : Mmu) (q : Pmm)
        → kmalloc fuel process_size (heap_of s) ≡ some (h, proc)
        → vmm_create_space (mmu_of kernel_space (allocated h)) ≡ (m, space)
        → alloc_kernel_stack depth (installed h space m).pmm ≡ some (0, q)
        → Created (abandon fuel proc (record (installed h space m) { pmm = q }))
    made :
        (h : Heap) (proc space bottom : ℕ) (m : Mmu) (q : Pmm) (t : System)
        → kmalloc fuel process_size (heap_of s) ≡ some (h, proc)
        → proc ≢ 0
        → vmm_create_space (mmu_of kernel_space (allocated h)) ≡ (m, space)
        → space ≢ 0
        → alloc_kernel_stack depth (installed h space m).pmm ≡ some (bottom, q)
        → bottom ≢ 0
        → t.pmm ≡ q
        → Made proc space user_entry user_esp bottom s t
        → Created (Outcome.returned proc t)

  -- The function after `kmalloc` and `vmm_create_space`.
  abbrev went_on : Heap → ℕ → Mmu × ℕ → Outcome
  went_on h proc (m, space) =
      if proc == 0
      then Outcome.returned 0 (with_heap h s)
      else if space == 0
      then abandon fuel proc (spaced h m)
      else with_stack depth fuel proc (new_process s.next_pid Ring.user space user_entry user_esp)
          (build_user_frame user_entry user_esp) (installed h space m)
