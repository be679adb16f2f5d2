-- ===== src/Scheduler/Task/Create.antt =====
-- src/scheduler/task.cpp: `task_create`.
use nemo_os.Base.{
  ℕ, zero, suc, ◌+◌, ◌*◌, ◌%◌, ◌^◌, ◌<◌, ◌≡◌, ◌≢◌, refl, sym, ap, ◌∙◌, subst, true, false, ◌||◌,
  Option, none, some, List, [], ◌∷◌, ◌++◌, arith, ◌==◌, if◌then◌else◌, length, get_elem?, set,
  replicate, length-set, get_elem?-set_self, get_elem?-set_ne,
}
use nemo_os.Process.{ready}
use nemo_os.Process.Stack.Frame.{words_at}
use nemo_os.Memory.Pmm.{Pmm, page_size}
use nemo_os.Memory.Pmm.Inv.{is_used, IsValid}
use nemo_os.Memory.Pmm.Alloc.{Allocated, full, page, alloc_page-Allocated}
use nemo_os.Memory.Vmm.Inv.{IsReady}
use nemo_os.Scheduler.Task.{Task, Tasks, is_free, task_frame, free_from, task_create}
use nemo_os.Scheduler.Task.Table.{
  in_use, IsTaskTable, in_use-le-length, Slot, no_slot, slot, free_from-Slot, task_frame-words,
}

-- The new task in slot `i`, the first that was free, in a stack page `n` that was not in use.
pub record Made (trampoline entry process : ℕ) (s s1 : Tasks) (i n : ℕ) : Type 0 where
  pub table : IsTaskTable s1
  pub pages : IsValid s1.pmm
  pub fresh : is_used s.pmm n ≡ false
  pub taken : (j : ℕ) → is_used s1.pmm j ≡ ((n == j) || is_used s.pmm j)
  pub first : (k : ℕ) (u : Task) → k < i → get_elem? s.tasks k ≡ some u → is_free u.state ≡ false
  pub was_free : (t : Task) → get_elem? s.tasks i ≡ some t → is_free t.state ≡ true
  pub task :
      get_elem? s1.tasks i
      ≡ some (record {
        pid = s.next_pid;
        state = ready;
        entry = entry;
        esp = n * page_size + 4052;
        stack_bottom = n * page_size;
        stack_size = 4096;
        process = process;
      })
  pub others : (k : ℕ) → k ≢ i → get_elem? s1.tasks k ≡ get_elem? s.tasks k
  pub frame :
      words_at s1.word (n * page_size + 4052) 11
      ≡ replicate 7 0 ++ (entry ∷ trampoline ∷ 0x08 ∷ 0x202 ∷ [])

-- What `task_create` may return. A page that is taken while no slot is free is given to `kfree`.
pub data Created (trampoline entry process : ℕ) (s : Tasks) : Tasks × Option ℕ → Type 0 where
  no_page :
      ((j : ℕ) → j < s.pmm.total_pages → is_used s.pmm j ≡ true)
      → Created trampoline entry process s (s, none)
  table_full :
      (n : ℕ) (s1 : Tasks)
      → in_use s.tasks ≡ 16
      → s1.tasks ≡ s.tasks
      → is_used s.pmm n ≡ false
      → ((j : ℕ) → is_used s1.pmm j ≡ ((n == j) || is_used s.pmm j))
      → s1.kfreed ≡ n * page_size ∷ s.kfreed
      → Created trampoline entry process s (s1, none)
  made :
      (i n : ℕ) (s1 : Tasks)
      → i < 16
      → Made trampoline entry process s s1 i n
      → Created trampoline entry process s (s1, some i)

elem_inside : (tasks : List Task) (j : ℕ) (t : Task) → get_elem? tasks j ≡ some t → j < length tasks
elem_inside [] j t h = absurd (cc)
elem_inside (u ∷ tasks) zero t h = omega arith
elem_inside (u ∷ tasks) (suc j) t h = omega (arith, elem_inside tasks j t h)

-- `task_create` after the search, in the page `stack`, `p` being the pages that are left.
abbrev placed : ℕ → ℕ → ℕ → Tasks → Pmm → ℕ → Option ℕ → Tasks × Option ℕ
placed trampoline entry process s p stack r =
    let (sp, word) = task_frame trampoline entry stack s.word in
    elim r [
      | none ↦ (record s { pmm = p; word = word; kfreed = stack ∷ s.kfreed }, none)
      | some i ↦ (
        record s {
          tasks = set s.tasks i (record {
            pid = s.next_pid;
            state = ready;
            entry = entry;
            esp = sp;
            stack_bottom = stack;
            stack_size = 4096;
            process = process;
          });
          task_count_value = (s.task_count_value + 1) % 2 ^ 32;
          next_pid = (s.next_pid + 1) % 2 ^ 32;
          pmm = p;
          word = word;
        },
        some i,
      )
    ]

abbrev created_by : ℕ → ℕ → ℕ → Tasks → Pmm × ℕ → Tasks × Option ℕ
created_by trampoline entry process s (p, stack) =
    if stack == 0
    then (record s { pmm = p }, none)
    else placed trampoline entry process s p stack (free_from 0 s.tasks)

module _ (trampoline entry process : ℕ) (s : Tasks) (table : IsTaskTable s) (n : ℕ)
    (free_before : is_used s.pmm n ≡ false) (q : Pmm) (valid : IsValid q)
    (bits : (j : ℕ) → is_used q j ≡ ((n == j) || is_used s.pmm j)) where
  placed-Created :
      {r : Option ℕ}
      → Slot s.tasks 0 r
      → Created trampoline entry process s (placed trampoline entry process s q (n * page_size) r)
  placed-Created (no_slot all) = table_full n _ (all ∙ table.slots) refl free_before bits refl
  placed-Created (slot j t at f before one) =
      let inside : j < length s.tasks = elem_inside s.tasks j t at in
      let frame = task_frame-words trampoline entry (n * page_size) s.word in
      let new : ℕ → Task = λ sp. record {
        pid = s.next_pid;
        state = ready;
        entry = entry;
        esp = sp;
        stack_bottom = n * page_size;
        stack_size = 4096;
        process = process;
      } in
      let sp : ℕ = (task_frame trampoline entry (n * page_size) s.word).0 in
      subst
        (λ i.
          Created trampoline entry process s
            (placed trampoline entry process s q (n * page_size) (some i)))
        (omega arith)
        (made j n _ (omega (arith, table.slots)) (record {
          table = record {
            slots = length-set s.tasks j (new sp) ∙ table.slots;
            counted =
                omega
                  (arith, table.slots, table.counted, in_use-le-length s.tasks, one (new sp) refl);
          };
          pages = valid;
          fresh = free_before;
          taken = bits;
          first = before;
          was_free = λ u h. cc;
          task = get_elem?-set_self s.tasks j (new sp) inside ∙ ap (λ a. some (new a)) frame.0;
          others = λ k ne. get_elem?-set_ne s.tasks {i = j} {j = k} (new sp) (λ e. ne (sym e));
          frame = frame.1;
        }))

created_by-Created :
    (trampoline entry process : ℕ) (s : Tasks) {r : Pmm × ℕ}
    → IsTaskTable s
    → is_used s.pmm 0 ≡ true
    → Allocated s.pmm r
    → Created trampoline entry process s (created_by trampoline entry process s r)
created_by-Created trampoline entry process s table used (full all) = no_page all
created_by-Created trampoline entry process s table used (page n h free_before below q w bits u t) =
    let nonzero : (n * page_size == 0) ≡ false =
      ground (arith, ap (is_used s.pmm) {x = n} {y = 0}, used) in
    rw nonzero (
      placed-Created trampoline entry process s table n free_before q w bits
        (free_from-Slot s.tasks 0))

-- On a table whose count is right, `task_create` makes a task in the first free slot: it is ready,
-- under the next pid, with a stack in a page that was not in use before, whose first frame holds
-- seven zeros, the entry point, the trampoline, the code segment and the flags; no other slot
-- changes, and the count is right again. When every page is in use it changes nothing. When every
-- slot is in use it returns null and the page stays taken: it goes to `kfree`, which does not own
-- it.
pub task_create-Created :
    (trampoline entry process : ℕ) (s : Tasks)
    → IsReady s.pmm
    → IsTaskTable s
    → Created trampoline entry process s (task_create trampoline entry process s)
unfolding task_create
task_create-Created trampoline entry process s v table =
    created_by-Created trampoline entry process s table v.null_used (alloc_page-Allocated v.valid)
