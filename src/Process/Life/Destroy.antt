-- ===== src/Process/Life/Destroy.antt =====
-- src/process/process.cpp: what `process_destroy` gives back.
use nemo_os.Base.{
  ℕ, zero, suc, ◌+◌, ◌/◌, ◌<◌, ◌≡◌, ◌≢◌, refl, inl, inr, false, arith, ◌==◌, if◌then◌else◌,
  Bool-cases,
}
use nemo_os.Memory.Pmm.{Pmm, free_page}
use nemo_os.Memory.Pmm.Inv.{is_used, IsValid}
use nemo_os.Memory.Pmm.Free.{free_page_lem, free_page-IsValid}
use nemo_os.Process.{
  Process, dead, Kernel, remove_from, unregister_process, set_state, process_get, TaskState,
}
use nemo_os.Process.Table.{Unregistered, IsTable, unregister-Unregistered}
use nemo_os.Process.Life.{System, free_process, process_destroy}

remove_from-proc :
    (rounds i p : ℕ) (k : Kernel) (a : ℕ) → (remove_from rounds i p k).proc a ≡ k.proc a
unfolding remove_from
remove_from-proc zero i p k a = refl
remove_from-proc (suc rounds) i p k a = ground (arith, remove_from-proc rounds (i + 1) p k a)

unregister-proc : (p : ℕ) (k : Kernel) (a : ℕ) → (unregister_process p k).proc a ≡ k.proc a
unfolding unregister_process
unregister-proc p k a = remove_from-proc k.process_count 0 p k a

-- The state after `process_destroy proc`.
pub record Destroyed (proc : ℕ) (s t : System) : Type 0 where
  pub table : Unregistered proc s.kernel t.kernel
  pub state : (t.kernel.proc proc).state ≡ dead
  pub others : (a : ℕ) → a ≢ proc → t.kernel.proc a ≡ s.kernel.proc a
  pub pages : IsValid t.pmm
  pub stack :
      (s.kernel.proc proc).kernel_stack_bottom ≢ 0
      → (is_used t.pmm ((s.kernel.proc proc).kernel_stack_bottom / 4096) ≡ false)
        × (is_used t.pmm (((s.kernel.proc proc).kernel_stack_bottom + 4096) / 4096) ≡ false)

free_process-kernel :
    (kernel_space : ℕ) (x : Process) (s : System)
    → (free_process kernel_space x s).kernel ≡ s.kernel
unfolding free_process
free_process-kernel kernel_space x s = ground arith

free_process-pmm :
    (kernel_space : ℕ) (x : Process) (s : System)
    → (free_process kernel_space x s).pmm ≡ (
        if x.kernel_stack_bottom == 0
        then s.pmm
        else free_page (x.kernel_stack_bottom + 4096) (free_page x.kernel_stack_bottom s.pmm))
unfolding free_process
free_process-pmm kernel_space x s = ground arith

-- After both pages of a stack are given back, neither is in use.
stack-freed :
    (bottom : ℕ) (p : Pmm)
    → IsValid p
    → bottom / 4096 < p.total_pages
    → (bottom + 4096) / 4096 < p.total_pages
    → let q = free_page (bottom + 4096) (free_page bottom p) in
      IsValid q × (is_used q (bottom / 4096) ≡ false) × (is_used q ((bottom + 4096) / 4096) ≡ false)
stack-freed bottom p v low high =
    let first = free_page_lem p v bottom in
    let second = free_page_lem (free_page bottom p) first.0 (bottom + 4096) in
    (
      second.0,
      ground (arith, second.3 (bottom / 4096), first.3 (bottom / 4096)),
      ground (arith, second.3 ((bottom + 4096) / 4096), first.1),
    )

-- A write to a process changes no table.
set_state-Unregistered :
    (p : ℕ) (st : TaskState) (k k' : Kernel)
    → Unregistered p (set_state p st k) k'
    → Unregistered p k k'
unfolding process_get
set_state-Unregistered p st k k' u = record { table = u.table; gone = u.gone; kept = u.kept }

module _ (kernel_space proc : ℕ) (s : System) (ne : proc ≢ 0) where
  destroyed-kernel :
      (process_destroy kernel_space proc s).kernel
      ≡ unregister_process proc (set_state proc dead s.kernel)
  unfolding process_destroy
  destroyed-kernel =
      let x = s.kernel.proc proc in
      let s1 = record s { kernel = set_state proc dead s.kernel } in
      let nonzero : (proc == 0) ≡ false = ground arith in
      rw (nonzero, free_process-kernel kernel_space x s1)

  destroyed-pmm : (process_destroy kernel_space proc s).pmm ≡ (
      if (s.kernel.proc proc).kernel_stack_bottom == 0
      then s.pmm
      else free_page
          ((s.kernel.proc proc).kernel_stack_bottom + 4096)
          (free_page (s.kernel.proc proc).kernel_stack_bottom s.pmm))
  unfolding process_destroy
  destroyed-pmm =
      let x = s.kernel.proc proc in
      let s1 = record s { kernel = set_state proc dead s.kernel } in
      let nonzero : (proc == 0) ≡ false = ground arith in
      rw nonzero (free_process-pmm kernel_space x s1)

  -- The table loses exactly the destroyed process, which is marked as dead; every other process
  -- stays as it was, and both pages of its kernel stack are free again.
  pub process_destroy-Destroyed :
      IsTable s.kernel
      → IsValid s.pmm
      → ((s.kernel.proc proc).kernel_stack_bottom ≢ 0
          → ((s.kernel.proc proc).kernel_stack_bottom + 4096) / 4096 < s.pmm.total_pages)
      → Destroyed proc s (process_destroy kernel_space proc s)
  process_destroy-Destroyed table v inside =
      let k = set_state proc dead s.kernel in
      let same_table : IsTable k = record {
        storage = table.storage;
        fits = table.fits;
        nonnull = table.nonnull;
        distinct = table.distinct;
      } in
      record {
        table = rw destroyed-kernel (
            set_state-Unregistered proc dead s.kernel _
              (unregister-Unregistered proc k same_table));
        state = rw (destroyed-kernel, unregister-proc proc k proc) (ground arith);
        others = λ a h. rw (destroyed-kernel, unregister-proc proc k a) (ground arith);
        pages = rw destroyed-pmm (pages (s.kernel.proc proc).kernel_stack_bottom);
        stack = λ b. rw destroyed-pmm (freed (s.kernel.proc proc).kernel_stack_bottom b (inside b));
      }
    where
      pages :
          (bottom : ℕ)
          → IsValid
              (if bottom == 0 then s.pmm else free_page (bottom + 4096) (free_page bottom s.pmm))
      pages bottom = elim (Bool-cases (bottom == 0)) [
        | inl e ↦ rw e v
        | inr e ↦ rw e (
            free_page-IsValid (free_page bottom s.pmm) (free_page-IsValid s.pmm v bottom)
              (bottom + 4096))
      ]

      freed :
          (bottom : ℕ)
          → bottom ≢ 0
          → (bottom + 4096) / 4096 < s.pmm.total_pages
          → let q =
              if bottom == 0 then s.pmm else free_page (bottom + 4096) (free_page bottom s.pmm) in
            (is_used q (bottom / 4096) ≡ false) × (is_used q ((bottom + 4096) / 4096) ≡ false)
      freed bottom b h =
          let e : (bottom == 0) ≡ false = ground arith in
          let f = stack-freed bottom s.pmm v (omega arith) h in rw e (f.1, f.2)
