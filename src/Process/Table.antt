-- ===== src/Process/Table.antt =====
-- The process table of process.cpp: entries are distinct, and what adding and removing one does.
use mathlib.Core.Path.{subst}
use nemo_os.Base.{
  ℕ, zero, suc, ◌+◌, ◌-◌, ◌≤◌, ◌<◌, ◌≡◌, ◌≢◌, ◌⊎◌, refl, sym, ◌∙◌, inl, inr, none, some, arith, leb,
  ◌==◌, if◌then◌else◌, Bool-cases, length, set, get_or, length-set, get_or-set,
}
use nemo_os.Process.{
  Kernel, max_processes, process_get, register_process, remove_from, unregister_process, current,
}

-- The table holds distinct, non-null addresses up to its count.
pub record IsTable (k : Kernel) : Type 0 where
  pub storage : length k.process_table ≡ max_processes
  pub fits : k.process_count ≤ max_processes
  pub nonnull : (i : ℕ) → i < k.process_count → get_or k.process_table i 0 ≢ 0
  pub distinct :
      (i j : ℕ)
      → i < k.process_count
      → j < k.process_count
      → get_or k.process_table i 0 ≡ get_or k.process_table j 0
      → i ≡ j

-- Within the count `process_get` reads the table.
pub process_get_in :
    (k : Kernel) (i : ℕ) → i < k.process_count → process_get i k ≡ get_or k.process_table i 0
unfolding process_get
process_get_in k i h = ground arith

pub process_get-nonnull :
    (k : Kernel) (i : ℕ) → IsTable k → i < k.process_count → process_get i k ≢ 0
process_get-nonnull k i t h = rw (process_get_in k i h) (t.nonnull i h)

pub process_get-distinct :
    (k : Kernel) (i j : ℕ)
    → IsTable k
    → i < k.process_count
    → j < k.process_count
    → process_get i k ≡ process_get j k
    → i ≡ j
process_get-distinct k i j t hi hj e =
    t.distinct i j hi hj (sym (process_get_in k i hi) ∙ (e ∙ process_get_in k j hj))

-- The state after an entry is added at the end.
abbrev added : ℕ → Kernel → Kernel
added p k = record k {
  process_table = set k.process_table k.process_count p;
  process_count = k.process_count + 1;
}

module _ (k : Kernel) (p : ℕ) (t : IsTable k) (ne : p ≢ 0)
    (new : (i : ℕ) → i < k.process_count → get_or k.process_table i 0 ≢ p)
    (room : k.process_count < max_processes) where
  entry-added :
      (i : ℕ)
      → get_or (added p k).process_table i 0
        ≡ (if k.process_count == i then p else get_or k.process_table i 0)
  entry-added i = ground (arith, get_or-set k.process_table k.process_count i p 0, t.storage)

  added-IsTable : IsTable (added p k)
  added-IsTable = record {
    storage = length-set k.process_table k.process_count p ∙ t.storage;
    fits = omega arith;
    nonnull = λ i h. ground (arith, entry-added i, t.nonnull i, ne);
    distinct =
        λ i j hi hj e. ground (arith, entry-added i, entry-added j, t.distinct i j, new i, new j);
  }

-- A process that is not in the table yet becomes its last entry, and the table stays one of
-- distinct processes; a full table is the only reason for a panic.
pub register-IsTable :
    (k : Kernel) (p : ℕ)
    → IsTable k
    → p ≢ 0
    → ((i : ℕ) → i < k.process_count → get_or k.process_table i 0 ≢ p)
    → ((register_process p k ≡ none) × (k.process_count ≡ max_processes))
      ⊎ ((k' : Kernel) × (register_process p k ≡ some k')
          × IsTable k'
          × (k'.process_count ≡ k.process_count + 1)
          × (process_get k.process_count k' ≡ p)
          × ((i : ℕ) → i < k.process_count → process_get i k' ≡ process_get i k))
unfolding register_process process_get
register-IsTable k p t ne new = elim (Bool-cases (leb max_processes k.process_count)) [
  | inl full ↦ inl (rw full, ground (arith, t.fits))
  | inr more ↦
      let room : k.process_count < max_processes = ground arith in
      let entry = entry-added k p t ne new room in
      inr (
        added p k,
        rw more,
        added-IsTable k p t ne new room,
        refl,
        ground (arith, entry k.process_count),
        λ i h. ground (arith, entry i),
      )
]

-- The state after the entry at index `i` is replaced by the last one.
abbrev moved : ℕ → Kernel → Kernel
moved i k = record k {
  process_table = set k.process_table i (get_or k.process_table (k.process_count - 1) 0);
  process_count = k.process_count - 1;
}

-- What the loop of `process_destroy` does from index `i` on.
data Removed (p : ℕ) (k : Kernel) (i rounds : ℕ) : Kernel → Type 0 where
  absent :
      ((j : ℕ) → i ≤ j → j < i + rounds → get_or k.process_table j 0 ≢ p) → Removed p k i rounds k
  found :
      (j : ℕ)
      → i ≤ j
      → j < i + rounds
      → get_or k.process_table j 0 ≡ p
      → Removed p k i rounds (moved j k)

module _ (p : ℕ) (k : Kernel) where
  later :
      (i rounds : ℕ) {r : Kernel}
      → get_or k.process_table i 0 ≢ p
      → Removed p k (i + 1) rounds r
      → Removed p k i (suc rounds) r
  later i rounds ne (absent none_there) = absent (λ j lo hi. elim (Bool-cases (i == j)) [
    | inl here ↦ subst (λ n. get_or k.process_table n 0 ≢ p) (ground arith) ne
    | inr behind ↦ none_there j (ground arith) (omega arith)
  ])
  later i rounds ne (found j lo hi e) = found j (omega arith) (omega arith) e

  remove_from-Removed : (rounds i : ℕ) → Removed p k i rounds (remove_from rounds i p k)
  unfolding remove_from
  remove_from-Removed zero i = absent (λ j lo hi. absurd (omega arith))
  remove_from-Removed (suc rounds) i = elim (Bool-cases (get_or k.process_table i 0 == p)) [
    | inl here ↦ rw here (found i (omega arith) (omega arith) (ground arith))
    | inr elsewhere ↦
        rw elsewhere (later i rounds (ground arith) (remove_from-Removed rounds (i + 1)))
  ]

-- The table after `process_destroy` has taken out `p`.
pub record Unregistered (p : ℕ) (k k' : Kernel) : Type 0 where
  pub table : IsTable k'
  pub gone : (j : ℕ) → j < k'.process_count → process_get j k' ≢ p
  pub kept :
      (i : ℕ)
      → i < k.process_count
      → process_get i k ≢ p
      → (j : ℕ) × (j < k'.process_count) × (process_get j k' ≡ process_get i k)

module _ (p : ℕ) (k : Kernel) (t : IsTable k) (i : ℕ) (h : i < k.process_count)
    (at : get_or k.process_table i 0 ≡ p) where
  entry-moved :
      (j : ℕ)
      → get_or (moved i k).process_table j 0 ≡ (
          if i == j
          then get_or k.process_table (k.process_count - 1) 0
          else get_or k.process_table j 0)
  entry-moved j = ground (
    arith,
    get_or-set k.process_table i j (get_or k.process_table (k.process_count - 1) 0) 0,
    t.storage,
    t.fits,
  )

  moved-IsTable : IsTable (moved i k)
  moved-IsTable = record {
    storage = length-set k.process_table i _ ∙ t.storage;
    fits = omega (arith, t.fits);
    nonnull = λ j hj. ground (arith, entry-moved j, t.nonnull j, t.nonnull (k.process_count - 1));
    distinct = λ a b ha hb e. ground (
      arith,
      entry-moved a,
      entry-moved b,
      t.distinct a b,
      t.distinct a (k.process_count - 1),
      t.distinct (k.process_count - 1) b,
    );
  }

  moved-Unregistered : Unregistered p k (moved i k)
  unfolding process_get
  moved-Unregistered = record {
    table = moved-IsTable;
    gone =
        λ j hj. ground (arith, entry-moved j, t.distinct j i, t.distinct (k.process_count - 1) i);
    kept = λ j hj ne. elim (Bool-cases (j == (k.process_count - 1))) [
      | inl last ↦ (i, ground arith, ground (arith, entry-moved i))
      | inr other ↦ (j, ground arith, ground (arith, entry-moved j))
    ];
  }

unregistered :
    (p : ℕ) (k : Kernel) {r : Kernel}
    → IsTable k
    → Removed p k 0 k.process_count r
    → Unregistered p k r
unregistered p k t (absent none_there) = record {
  table = t;
  gone = λ j h. rw (process_get_in k j h) (none_there j (omega arith) (omega arith));
  kept = λ i h ne. (i, h, refl);
}
unregistered p k t (found j lo hi e) = moved-Unregistered p k t j (omega arith) e

-- The table loop of `process_destroy` leaves a table of distinct processes without `p`, and with
-- every other process that was in it.
pub unregister-Unregistered :
    (p : ℕ) (k : Kernel) → IsTable k → Unregistered p k (unregister_process p k)
unfolding unregister_process
unregister-Unregistered p k t = unregistered p k t (remove_from-Removed p k k.process_count 0)

lost :
    (p i : ℕ) (k : Kernel) {r : Kernel}
    → k.current_process ≡ some i
    → i + 1 ≡ k.process_count
    → (j : ℕ) × (j < i) × (get_or k.process_table j 0 ≡ p)
    → Removed p k 0 k.process_count r
    → current r ≡ 0
unfolding current process_get
lost p i k e last (j, h, q) (absent none_there) =
    absurd (none_there j (omega arith) (omega arith) q)
lost p i k e last (j, h, q) (found m lo hi at) = rw e (ground arith)

-- If the running process stands last in the table and another one is destroyed, the scheduler's
-- index is left behind the end of the table: the running process is no longer found.
pub unregister-loses-current :
    (p i : ℕ) (k : Kernel)
    → k.current_process ≡ some i
    → i + 1 ≡ k.process_count
    → (j : ℕ) × (j < i) × (get_or k.process_table j 0 ≡ p)
    → current (unregister_process p k) ≡ 0
unfolding unregister_process
unregister-loses-current p i k e last at =
    lost p i k e last at (remove_from-Removed p k k.process_count 0)
