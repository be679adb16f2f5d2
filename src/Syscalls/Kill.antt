-- ===== src/Syscalls/Kill.antt =====
-- syscall.cpp: call 6 marks a process as dead, and call 4 the caller.
use nemo_os.Base.{
  ℕ, zero, suc, ◌+◌, ◌<◌, ◌≡◌, ◌≢◌, refl, ap, subst, inl, inr, Bool, true, false, ◌&&◌, not, arith,
  ◌==◌, Bool-cases,
}
use nemo_os.Process.{dead, Kernel, set_state, process_get}
use nemo_os.Process.Life.{System, with_kernel}
use nemo_os.Scheduler.{is_runnable}
use nemo_os.Syscalls.{failed, kill_from, sys_kill}

abbrev pub has_pid : ℕ → System → ℕ → Bool
has_pid pid s i =
    not (process_get i s.kernel == 0) && ((s.kernel.proc (process_get i s.kernel)).pid == pid)

-- Only the state of the process at `p` changed, and it may not be scheduled any more.
pub record Marked (p : ℕ) (s t : System) : Type 0 where
  pub marked : t.kernel.proc p ≡ record (s.kernel.proc p) { state = dead }
  pub never_runs : is_runnable p t.kernel ≡ false
  pub others : (a : ℕ) → a ≢ p → t.kernel.proc a ≡ s.kernel.proc a
  pub rest : t ≡ record s { kernel = record s.kernel { proc = t.kernel.proc } }

pub data Killed (pid : ℕ) (s : System) : System × ℕ → Type 0 where
  unknown :
      ((i : ℕ) → i < s.kernel.process_count → has_pid pid s i ≡ false) → Killed pid s (s, failed)
  killed :
      (i : ℕ)
      → i < s.kernel.process_count
      → has_pid pid s i ≡ true
      → ((j : ℕ) → j < i → has_pid pid s j ≡ false)
      → (t : System) → Marked (process_get i s.kernel) s t
      → Killed pid s (t, 0)

not-runnable : (p : ℕ) (k : Kernel) → (k.proc p).state ≡ dead → is_runnable p k ≡ false
unfolding is_runnable
not-runnable p k h = rw h (ground arith)

module _ (pid : ℕ) (s : System) where
  set_state-Marked : (p : ℕ) → Marked p s (with_kernel (set_state p dead s.kernel) s)
  unfolding process_get
  set_state-Marked p =
      let here : (set_state p dead s.kernel).proc p ≡ record (s.kernel.proc p) { state = dead } =
        ground arith in
      record {
        marked = here;
        never_runs = not-runnable p (set_state p dead s.kernel) (ap (λ x. x.state) here);
        others = λ a h. ground arith;
        rest = refl;
      }

  kill-hit :
      (rounds i : ℕ)
      → has_pid pid s i ≡ true
      → kill_from (suc rounds) i pid s
        ≡ (with_kernel (set_state (process_get i s.kernel) dead s.kernel) s, 0)
  unfolding kill_from
  kill-hit rounds i e = ground arith

  kill-miss :
      (rounds i : ℕ)
      → has_pid pid s i ≡ false
      → kill_from (suc rounds) i pid s ≡ kill_from rounds (i + 1) pid s
  unfolding kill_from
  kill-miss rounds i e = ground arith

  kill_from-Killed :
      (rounds i : ℕ)
      → i + rounds ≡ s.kernel.process_count
      → ((j : ℕ) → j < i → has_pid pid s j ≡ false)
      → Killed pid s (kill_from rounds i pid s)
  unfolding kill_from
  kill_from-Killed zero i e before = unknown (λ j h. before j (omega arith))
  kill_from-Killed (suc rounds) i e before = elim (Bool-cases (has_pid pid s i)) [
    | inl hit ↦ rw (kill-hit rounds i hit) (
        killed i (omega arith) hit before
          (with_kernel (set_state (process_get i s.kernel) dead s.kernel) s)
          (set_state-Marked (process_get i s.kernel)))
    | inr miss ↦ rw (kill-miss rounds i miss) (
        kill_from-Killed rounds (i + 1) (omega arith) (λ j h. elim (Bool-cases (j == i)) [
          | inl here ↦ subst (λ n. has_pid pid s n ≡ false) (ground arith) miss
          | inr earlier ↦ before j (ground arith)
        ]))
  ]

  -- A kill sets the state of the first process of the table that has the pid to dead, so that the
  -- scheduler does not choose it any more, and changes nothing else: no other process and no other
  -- part of the state, the running process, the queues and the pages included. Without such a process it fails and
  -- changes nothing.
  pub sys_kill-Killed : Killed pid s (sys_kill pid s)
  unfolding sys_kill
  sys_kill-Killed =
      kill_from-Killed s.kernel.process_count 0 (omega arith) (λ j h. absurd (omega arith))
