-- ===== src/Syscalls/Wait.antt =====
-- syscall.cpp: call 5 takes a dead child off the table.
use nemo_os.Base.{
  ℕ, zero, suc, ◌+◌, ◌/◌, ◌^◌, ◌≤◌, ◌<◌, ◌≡◌, ◌≢◌, ◌⊎◌, refl, ap, subst, inl, inr, Bool, true,
  false, ◌&&◌, arith, ◌==◌, Bool-cases,
}
use nemo_os.Process.{is_dead, dead, TaskState, process_get, current}
use nemo_os.Process.Table.{IsTable}
use nemo_os.Memory.Pmm.Inv.{IsValid}
use nemo_os.Process.Life.Destroy.{Destroyed, process_destroy-Destroyed}
use nemo_os.Process.Life.{System, process_destroy}
use nemo_os.Syscalls.{failed, is_waited, wait_from, sys_wait}

-- Is the process at a table index a dead child that is waited for?
abbrev pub reapable : ℕ → ℕ → System → ℕ → Bool
reapable me pid s i =
    let child = process_get i s.kernel in
    is_waited me pid s.kernel child && is_dead (s.kernel.proc child).state

-- The same, written out: the pid in 32 bits is an `int`, and every child fits a negative one.
pub record IsReapable (me pid : ℕ) (s : System) (i : ℕ) : Type 0 where
  pub child_there : process_get i s.kernel ≢ 0
  pub parent : (s.kernel.proc (process_get i s.kernel)).parent_pid ≡ (s.kernel.proc me).pid
  pub fits : (2 ^ 31 ≤ pid) ⊎ ((s.kernel.proc (process_get i s.kernel)).pid ≡ pid)
  pub is_over : (s.kernel.proc (process_get i s.kernel)).state ≡ dead

state-dead : (state : TaskState) → is_dead state ≡ true → state ≡ dead
state-dead TaskState.free e = absurd (cc)
state-dead TaskState.ready e = absurd (cc)
state-dead TaskState.running e = absurd (cc)
state-dead TaskState.blocked e = absurd (cc)
state-dead TaskState.dead e = refl

reapable-IsReapable :
    (me pid : ℕ) (s : System) (i : ℕ) → reapable me pid s i ≡ true → IsReapable me pid s i
unfolding is_waited
reapable-IsReapable me pid s i e = record {
  child_there = λ z. ground arith;
  parent = ground arith;
  fits = ground arith;
  is_over = state-dead (s.kernel.proc (process_get i s.kernel)).state (ground arith);
}

IsReapable-reapable :
    (me pid : ℕ) (s : System) (i : ℕ) → IsReapable me pid s i → reapable me pid s i ≡ true
unfolding is_waited
IsReapable-reapable me pid s i r =
    let over : is_dead (s.kernel.proc (process_get i s.kernel)).state ≡ true =
      ap is_dead r.is_over in
    let there = r.child_there in ground (arith, over, r.parent, r.fits, there)

not-IsReapable :
    (me pid : ℕ) (s : System) (i : ℕ) → reapable me pid s i ≡ false → ¬ IsReapable me pid s i
not-IsReapable me pid s i e r = ground (arith, IsReapable-reapable me pid s i r)

pub data Waited (pid : ℕ) (s : System) : System × ℕ → Type 0 where
  no_process : current s.kernel ≡ 0 → Waited pid s (s, failed)
  no_child :
      ((i : ℕ) → i < s.kernel.process_count → ¬ IsReapable (current s.kernel) pid s i)
      → Waited pid s (s, failed)
  reaped :
      (i : ℕ)
      → i < s.kernel.process_count
      → IsReapable (current s.kernel) pid s i
      → ((j : ℕ) → j < i → ¬ IsReapable (current s.kernel) pid s j)
      → (t : System) → Destroyed (process_get i s.kernel) s t
      → Waited pid s (t, (s.kernel.proc (process_get i s.kernel)).pid)

-- The stacks of the processes in the table are pages.
abbrev pub StacksInside : System → Type 0
StacksInside s =
    (i : ℕ)
    → i < s.kernel.process_count
    → (s.kernel.proc (process_get i s.kernel)).kernel_stack_bottom ≢ 0
    → ((s.kernel.proc (process_get i s.kernel)).kernel_stack_bottom + 4096) / 4096
      < s.pmm.total_pages

module _ (kernel_space pid : ℕ) (s : System) (table : IsTable s.kernel) (v : IsValid s.pmm)
    (inside : StacksInside s) where
  wait-hit :
      (rounds i : ℕ)
      → reapable (current s.kernel) pid s i ≡ true
      → wait_from (suc rounds) i kernel_space (current s.kernel) pid s ≡ (
        process_destroy kernel_space (process_get i s.kernel) s,
        (s.kernel.proc (process_get i s.kernel)).pid,
      )
  unfolding wait_from
  wait-hit rounds i e = ground arith

  wait-miss :
      (rounds i : ℕ)
      → reapable (current s.kernel) pid s i ≡ false
      → wait_from (suc rounds) i kernel_space (current s.kernel) pid s
        ≡ wait_from rounds (i + 1) kernel_space (current s.kernel) pid s
  unfolding wait_from
  wait-miss rounds i e = ground arith

  wait_from-Waited :
      (rounds i : ℕ)
      → i + rounds ≡ s.kernel.process_count
      → ((j : ℕ) → j < i → reapable (current s.kernel) pid s j ≡ false)
      → Waited pid s (wait_from rounds i kernel_space (current s.kernel) pid s)
  unfolding wait_from
  wait_from-Waited zero i e before =
      no_child (λ j h. not-IsReapable _ pid s j (before j (omega arith)))
  wait_from-Waited (suc rounds) i e before =
      elim (Bool-cases (reapable (current s.kernel) pid s i)) [
        | inl hit ↦ rw (wait-hit rounds i hit) (
            reaped i (omega arith) (reapable-IsReapable _ pid s i hit)
              (λ j h. not-IsReapable _ pid s j (before j h)) _
              (process_destroy-Destroyed kernel_space (process_get i s.kernel) s
                (reapable-IsReapable _ pid s i hit).child_there table v (inside i (omega arith))))
        | inr miss ↦ rw (wait-miss rounds i miss) (
            wait_from-Waited rounds (i + 1) (omega arith) (λ j h. elim (Bool-cases (j == i)) [
              | inl here ↦
                  subst (λ n. reapable (current s.kernel) pid s n ≡ false) (ground arith) miss
              | inr earlier ↦ before j (ground arith)
            ]))
      ]

  -- On a well-formed table, with stacks in valid pages, waiting destroys the first process of the
  -- table whose parent is the caller, whose pid is the one asked for, or any if that is negative,
  -- and which is dead, and returns its pid. Destroying takes exactly that process off the table and
  -- gives both pages of its stack back. If there is none, or no caller, the call fails and changes
  -- nothing.
  pub sys_wait-Waited : Waited pid s (sys_wait kernel_space pid s)
  unfolding sys_wait
  sys_wait-Waited = elim (Bool-cases (current s.kernel == 0)) [
    | inl e ↦ rw e (no_process (ground arith))
    | inr e ↦
        rw e (wait_from-Waited s.kernel.process_count 0 (omega arith) (λ j h. absurd (omega arith)))
  ]
