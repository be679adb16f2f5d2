-- ===== src/Scheduler/Task/Clean.antt =====
-- src/scheduler/task.cpp: `task_cleanup_dead`.
use nemo_os.Base.{
  ℕ, zero, suc, ◌+◌, ◌-◌, ◌/◌, ◌%◌, ◌^◌, ◌<◌, ◌≡◌, ◌≢◌, refl, sym, ap, ◌∙◌, subst, inl, inr, true,
  false, some, List, [], ◌∷◌, map, arith, ◌==◌, if◌then◌else◌, Bool-cases, length, get_elem?,
  length-map,
}
use nemo_os.Process.{TaskState, free}
use nemo_os.Process.Stack.{free_if}
use nemo_os.Memory.Pmm.{Pmm, page_size}
use nemo_os.Memory.Pmm.Inv.{is_used, IsValid}
use nemo_os.Memory.Pmm.Free.{free_page_lem}
use nemo_os.Scheduler.Task.{
  Task, Tasks, is_free, is_dead_task, cleared, clean_from, task_cleanup_dead,
}
use nemo_os.Scheduler.Task.Table.{in_use, IsTaskTable, in_use-le-length}

-- The slot of a dead task is free, with no pid, stack or process; what else it holds stays.
abbrev pub clean_task : Task → Task
clean_task t =
    if is_dead_task t.state
    then record {
      pid = 0;
      state = free;
      entry = t.entry;
      esp = t.esp;
      stack_bottom = 0;
      stack_size = t.stack_size;
      process = 0;
    }
    else t

-- The pages after some are given back: none is in use that was not before.
record Shrunk (p q : Pmm) : Type 0 where
  valid : IsValid q
  total : q.total_pages ≡ p.total_pages
  less : (j : ℕ) → is_used p j ≡ false → is_used q j ≡ false

-- The page that holds `a` is not in use.
abbrev pub IsGiven : ℕ → Pmm → Type 0
IsGiven a p = a ≢ 0 → a / page_size < p.total_pages → is_used p (a / page_size) ≡ false

free_if-Shrunk : (a : ℕ) (p : Pmm) → IsValid p → Shrunk p (free_if a p) × IsGiven a (free_if a p)
free_if-Shrunk a p v = elim (Bool-cases (a == 0)) [
  | inl e ↦ rw e (record { valid = v; total = refl; less = λ j h. h }, λ ne. absurd (ground arith))
  | inr e ↦
      let f = free_page_lem p v a in
      rw e (
        record { valid = f.0; total = f.1; less = λ j h. ground (arith, f.3 j, h) },
        λ ne small. ground (arith, f.3 (a / page_size), f.1, small),
      )
]

-- What the loop leaves of the slots `tasks`, `rest` being the number of used slots before them.
record Cleaned (tasks : List Task) (rest : ℕ) (p : Pmm) (r : List Task × ℕ × Pmm) : Type 0 where
  same : r.0 ≡ map clean_task tasks
  left : r.1 ≡ in_use r.0 + rest
  pages : Shrunk p r.2
  given :
      (k : ℕ) (t : Task)
      → get_elem? tasks k ≡ some t
      → is_dead_task t.state ≡ true
      → IsGiven t.stack_bottom r.2

some_task : {t u : Task} → some t ≡ some u → t ≡ u
some_task e = cc

IsGiven-cons :
    (t : Task) (tasks : List Task) (q : Pmm)
    → (is_dead_task t.state ≡ true → IsGiven t.stack_bottom q)
    → ((k : ℕ) (u : Task)
        → get_elem? tasks k ≡ some u
        → is_dead_task u.state ≡ true
        → IsGiven u.stack_bottom q)
    → (k : ℕ) (u : Task) → get_elem? (t ∷ tasks) k ≡ some u
    → is_dead_task u.state ≡ true
    → IsGiven u.stack_bottom q
IsGiven-cons t tasks q head tail zero u h =
    subst (λ x. is_dead_task x.state ≡ true → IsGiven x.stack_bottom q) (some_task h) head
IsGiven-cons t tasks q head tail (suc k) u h = tail k u h

one_cleared :
    (t : Task) (tasks : List Task) (rest : ℕ) (p : Pmm) {r : List Task × ℕ × Pmm}
    → IsValid p
    → is_dead_task t.state ≡ true
    → Cleaned tasks rest (free_if t.stack_bottom p) r
    → Cleaned (t ∷ tasks) rest p (cleared t ∷ r.0, r.1, r.2)
one_cleared t tasks rest p {r} v e c =
    let (s, g) = free_if-Shrunk t.stack_bottom p v in
    record {
      same = rw (e, c.same) refl;
      left = ground (arith, c.left);
      pages = record {
        valid = c.pages.valid;
        total = c.pages.total ∙ s.total;
        less = λ j h. c.pages.less j (s.less j h);
      };
      given =
          IsGiven-cons t tasks r.2
            (λ _ ne small.
              c.pages.less (t.stack_bottom / page_size) (g ne (omega (arith, c.pages.total))))
            c.given;
    }

one_kept :
    (t : Task) (tasks : List Task) (rest : ℕ) (p : Pmm) {r : List Task × ℕ × Pmm}
    → is_dead_task t.state ≡ false
    → Cleaned tasks ((if is_free t.state then 0 else 1) + rest) p r
    → Cleaned (t ∷ tasks) rest p (t ∷ r.0, r.1, r.2)
one_kept t tasks rest p {r} e c = record {
  same = rw (e, c.same) refl;
  left = omega (arith, c.left);
  pages = c.pages;
  given = IsGiven-cons t tasks r.2 (λ d. absurd (ground (arith, e, d))) c.given;
}

dead_used : (state : TaskState) → is_dead_task state ≡ true → is_free state ≡ false
dead_used TaskState.free e = sym e
dead_used TaskState.ready e = refl
dead_used TaskState.running e = refl
dead_used TaskState.blocked e = refl
dead_used TaskState.dead e = refl

clean_from-Cleaned :
    (tasks : List Task) (count rest : ℕ) (p : Pmm)
    → IsValid p
    → count ≡ in_use tasks + rest
    → in_use tasks + rest < 2 ^ 32
    → Cleaned tasks rest p (clean_from tasks count p)
unfolding clean_from
clean_from-Cleaned [] count rest p v h small = record {
  same = refl;
  left = h;
  pages = record { valid = v; total = refl; less = λ j e. e };
  given = λ k t at. absurd (cc);
}
clean_from-Cleaned (t ∷ tasks) count rest p v h small = elim (Bool-cases (is_dead_task t.state)) [
  | inl e ↦
      let one = dead_used t.state e in
      rw e (
        one_cleared t tasks rest p v e (
          clean_from-Cleaned tasks ((2 ^ 32 + count - 1) % 2 ^ 32) rest (free_if t.stack_bottom p)
            (free_if-Shrunk t.stack_bottom p v).0.valid (ground (arith, h, small, one))
            (ground (arith, small, one))))
  | inr e ↦ rw e (
      one_kept t tasks rest p e (
        clean_from-Cleaned tasks count ((if is_free t.state then 0 else 1) + rest) p v
          (omega (arith, h)) (omega (arith, small))))
]

-- On a table whose count is right, `task_cleanup_dead` makes the slot of every dead task free, with
-- pid, stack and process 0, leaves every other slot as it is, and counts those that are left. No
-- page is in use that was not so before, and the page of a dead task's stack, when it is one of the
-- pages and not at address 0, is not in use any more.
pub task_cleanup_dead-Cleaned :
    (s : Tasks)
    → IsTaskTable s
    → IsValid s.pmm
    → let s1 = task_cleanup_dead s in
      (s1.tasks ≡ map clean_task s.tasks)
      × IsTaskTable s1
      × IsValid s1.pmm
      × ((j : ℕ) → is_used s.pmm j ≡ false → is_used s1.pmm j ≡ false)
      × ((k : ℕ) (t : Task)
          → get_elem? s.tasks k ≡ some t
          → is_dead_task t.state ≡ true
          → IsGiven t.stack_bottom s1.pmm)
unfolding task_cleanup_dead
task_cleanup_dead-Cleaned s table v =
    let c =
      clean_from-Cleaned s.tasks s.task_count_value 0 s.pmm v (omega (arith, table.counted))
        (omega (arith, table.slots, in_use-le-length s.tasks)) in
    (
      c.same,
      record {
        slots = ap length c.same ∙ length-map s.tasks clean_task ∙ table.slots;
        counted = omega (arith, c.left);
      },
      c.pages.valid,
      c.pages.less,
      c.given,
    )
