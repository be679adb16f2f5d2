-- ===== src/Process/Life/Finish.antt =====
-- src/process/process.cpp: a process gets its stack and its place in the table.
use nemo_os.Base.{
  ℕ, ◌+◌, ◌-◌, ◌%◌, ◌^◌, ◌<◌, ◌≡◌, ◌≢◌, sym, ◌∙◌, subst, inl, inr, some, [], ◌∷◌, ◌++◌, arith, set,
  get_or, replicate,
}
use nemo_os.Memory.Pmm.{Pmm}
use nemo_os.Process.{Ring, Kernel, max_processes, put_proc, process_get, register_process, Process}
use nemo_os.Process.Table.{IsTable, register-IsTable}
use nemo_os.Process.Stack.Frame.{words_at}
use nemo_os.Process.Life.{System, Outcome, finish, new_process}

-- The process as it stands at its address once it is made.
abbrev pub ready_process : ℕ → ℕ → ℕ → ℕ → ℕ → Process
ready_process pid space user_entry user_esp bottom =
    record (new_process pid Ring.user space user_entry user_esp) {
      kernel_stack = bottom + 8192;
      kernel_stack_top = bottom + 8192 - 52;
      kernel_stack_bottom = bottom;
    }

-- The process `proc` with a stack at `bottom` in state `t`, made from state `s`.
pub record Made (proc space user_entry user_esp bottom : ℕ) (s t : System) : Type 0 where
  pub table : IsTable t.kernel
  pub count : t.kernel.process_count ≡ s.kernel.process_count + 1
  pub last : process_get s.kernel.process_count t.kernel ≡ proc
  pub earlier :
      (i : ℕ) → i < s.kernel.process_count → process_get i t.kernel ≡ process_get i s.kernel
  pub process : t.kernel.proc proc ≡ ready_process s.next_pid space user_entry user_esp bottom
  pub others : (a : ℕ) → a ≢ proc → t.kernel.proc a ≡ s.kernel.proc a
  pub frame :
      words_at t.word (bottom + 8192 - 52) 13
      ≡ replicate 8 0 ++ (user_entry ∷ 0x1B ∷ 0x202 ∷ user_esp ∷ 0x23 ∷ [])
  pub pid : t.next_pid ≡ (s.next_pid + 1) % 2 ^ 32

pub put_proc-IsTable : (p : ℕ) (x : Process) (k : Kernel) → IsTable k → IsTable (put_proc p x k)
put_proc-IsTable p x k t = record {
  storage = t.storage;
  fits = t.fits;
  nonnull = t.nonnull;
  distinct = t.distinct;
}

-- The table with a process entered at its end.
abbrev pub entered : ℕ → Kernel → Kernel
entered p k = record k {
  process_table = set k.process_table k.process_count p;
  process_count = k.process_count + 1;
}

register-entered :
    (p : ℕ) (k : Kernel)
    → k.process_count < max_processes
    → register_process p k ≡ some (entered p k)
unfolding register_process
register-entered p k h = ground arith

some_injective : {k k' : Kernel} → some k ≡ some k' → k ≡ k'
some_injective e = cc

abbrev pub IsEntered : ℕ → Kernel → Kernel → Type 0
IsEntered p k k' =
    IsTable k'
    × (process_get k.process_count k' ≡ p)
    × ((i : ℕ) → i < k.process_count → process_get i k' ≡ process_get i k)

pub entered-IsEntered :
    (p : ℕ) (k : Kernel)
    → IsTable k
    → p ≢ 0
    → ((i : ℕ) → i < k.process_count → get_or k.process_table i 0 ≢ p)
    → k.process_count < max_processes
    → IsEntered p k (entered p k)
entered-IsEntered p k t f new room = elim (register-IsTable k p t f new) [
  | inl full ↦ absurd (omega (arith, full.1))
  | inr got ↦
      subst (IsEntered p k) (some_injective (sym got.1 ∙ register-entered p k room))
        (got.2, got.4, got.5)
]

-- The state in which `finish` returns.
abbrev pub finished : ℕ → Process → ℕ → ℕ × (ℕ → ℕ) → Pmm → System → System
finished proc x bottom frame pmm s =
    let y = record x {
      kernel_stack_bottom = bottom;
      kernel_stack_top = frame.0;
      kernel_stack = bottom + 8192;
    } in
    record s { kernel = entered proc (put_proc proc y s.kernel); pmm = pmm; word = frame.1 }

pub finish-finished :
    (proc : ℕ) (x : Process) (bottom : ℕ) (frame : ℕ × (ℕ → ℕ)) (pmm : Pmm) (s : System)
    → s.kernel.process_count < max_processes
    → finish proc x bottom frame pmm s ≡ Outcome.returned proc (finished proc x bottom frame pmm s)
unfolding finish
finish-finished proc x bottom (sp, word) pmm s room =
    let y = record x {
      kernel_stack_bottom = bottom;
      kernel_stack_top = sp;
      kernel_stack = bottom + 8192;
    } in
    rw (finish, register-entered proc (put_proc proc y s.kernel) room)

pub proc-put : (p : ℕ) (x : Process) (k : Kernel) → (put_proc p x k).proc p ≡ x
proc-put p x k = ground arith
