-- ===== src/Scheduler/Task/Table.antt =====
-- src/scheduler/task.cpp: the table, the search for a slot and the first frame.
use nemo_os.Base.{
  ℕ, zero, suc, ◌+◌, ◌≤◌, ◌<◌, ◌≡◌, refl, sym, ap, ◌∙◌, subst, inl, inr, true, false, Option, none,
  some, List, [], ◌∷◌, ◌++◌, arith, if◌then◌else◌, Bool-cases, length, get_elem?, set, replicate,
}
use nemo_os.Process.Stack.Frame.{words_at, push_all, push_all-words, push_all-pointer}
use nemo_os.Memory.Words.{clear_words}
use nemo_os.Scheduler.Task.{Task, Tasks, is_free, push_zeros, task_frame, free_from}

-- The slots that are not free.
abbrev pub in_use : List Task → ℕ
in_use [] = 0
in_use (t ∷ tasks) = (if is_free t.state then 0 else 1) + in_use tasks

pub record IsTaskTable (s : Tasks) : Type 0 where
  pub slots : length s.tasks ≡ 16
  pub counted : s.task_count_value ≡ in_use s.tasks

pub in_use-le-length : (tasks : List Task) → in_use tasks ≤ length tasks
in_use-le-length [] = omega arith
in_use-le-length (t ∷ tasks) = ground (arith, in_use-le-length tasks)

-- What the search for a slot may find.
pub data Slot (tasks : List Task) (i : ℕ) : Option ℕ → Type 0 where
  no_slot : in_use tasks ≡ length tasks → Slot tasks i none
  slot :
      (j : ℕ) (t : Task)
      → get_elem? tasks j ≡ some t
      → is_free t.state ≡ true
      → ((k : ℕ) (u : Task) → k < j → get_elem? tasks k ≡ some u → is_free u.state ≡ false)
      → ((v : Task) → is_free v.state ≡ false → in_use (set tasks j v) ≡ 1 + in_use tasks)
      → Slot tasks i (some (i + j))

before_later :
    (t : Task) (tasks : List Task) (j : ℕ)
    → is_free t.state ≡ false
    → ((k : ℕ) (u : Task) → k < j → get_elem? tasks k ≡ some u → is_free u.state ≡ false)
    → (k : ℕ) (u : Task) → k < suc j
    → get_elem? (t ∷ tasks) k ≡ some u
    → is_free u.state ≡ false
before_later t tasks j e before zero u lt h = cc
before_later t tasks j e before (suc k) u lt h = before k u (omega arith) h

later :
    (t : Task) (tasks : List Task) (i : ℕ) {r : Option ℕ}
    → is_free t.state ≡ false
    → Slot tasks (i + 1) r
    → Slot (t ∷ tasks) i r
later t tasks i e (no_slot all) = no_slot (ground (arith, all, e))
later t tasks i e (slot j u at f before one) =
    subst (λ n. Slot (t ∷ tasks) i (some n)) (omega arith)
      (slot (suc j) u at f (before_later t tasks j e before) (λ v h. ground (arith, e, one v h)))

here-Slot :
    (t : Task) (tasks : List Task) (i : ℕ) → is_free t.state ≡ true → Slot (t ∷ tasks) i (some i)
here-Slot t tasks i e =
    subst (λ n. Slot (t ∷ tasks) i (some n)) (omega arith)
      (slot 0 t refl e (λ k u lt _. absurd (omega arith)) (λ v h. ground (arith, e, h)))

pub free_from-Slot : (tasks : List Task) (i : ℕ) → Slot tasks i (free_from i tasks)
unfolding free_from
free_from-Slot [] i = no_slot refl
free_from-Slot (t ∷ tasks) i = elim (Bool-cases (is_free t.state)) [
  | inl e ↦ rw e (here-Slot t tasks i e)
  | inr e ↦ rw e (later t tasks i e (free_from-Slot tasks (i + 1)))
]

pub task_frame-words :
    (trampoline entry stack : ℕ) (word : ℕ → ℕ)
    → ((task_frame trampoline entry stack word).0 ≡ stack + 4052)
      × (words_at (task_frame trampoline entry stack word).1 (stack + 4052) 11
          ≡ replicate 7 0 ++ (entry ∷ trampoline ∷ 0x08 ∷ 0x202 ∷ []))
unfolding task_frame push_zeros words_at
task_frame-words trampoline entry stack word =
    let vs = 0x202 ∷ 0x08 ∷ trampoline ∷ entry ∷ replicate 7 0 in
    let s : ℕ × (ℕ → ℕ) = (stack + 4096, clear_words 1024 stack word) in
    let top : (push_all vs s).0 ≡ stack + 4052 = push_all-pointer vs s ∙ omega arith in
    (top, ap (λ a. words_at (push_all vs s).1 a 11) (sym top) ∙ push_all-words vs s 0 (omega arith))
