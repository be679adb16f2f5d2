-- ===== src/Memory/Vmm/Spaces.antt =====
-- src/memory/vmm.cpp: `vmm_create_space`, and `vmm_destroy_space` after it.
use nemo_os.Base.{
  ℕ, ◌+◌, ◌*◌, ◌/◌, ◌%◌, ◌^◌, ◌<◌, ◌≡◌, ◌≢◌, ◌⊎◌, refl, sym, ap, ◌∙◌, inl, inr, true, false, arith,
  ◌==◌, if◌then◌else◌, Bool-cases,
}
use nemo_os.Memory.Pmm.{Pmm, page_size}
use nemo_os.Memory.Pmm.Inv.{is_used}
use nemo_os.Memory.Pmm.Alloc.{Allocated, full, page, alloc_page-Allocated}
use nemo_os.Memory.Vmm.{
  Mmu, is_present, frame_of, pd_index, pt_index, copy_entries, vmm_create_space, vmm_destroy_space,
}
use nemo_os.Memory.Vmm.Inv.{leaf, IsSpace, IsReady}
use nemo_os.Memory.Vmm.Entries.{Entry, Partial, HasTable, Entry-used, absent, shared, copied}
use nemo_os.Memory.Vmm.Create.{Finished, failed, finished, loop-Finished, give_back, Entry-own}

-- The new space `new` in state `m1`, a copy of the kernel's in state `m0`.
pub record IsCopy (m0 m1 : Mmu) (new : ℕ) : Type 0 where
  pub ready : IsReady m1.pmm
  pub space : IsSpace m1.pmm m1.word new
  pub same : (virt : ℕ) → virt < 2 ^ 32 → leaf m1.word new virt ≡ leaf m0.word m0.kernel_space virt
  pub old_words : (a : ℕ) → is_used m0.pmm (a / 4096) ≡ true → m1.word a ≡ m0.word a
  pub own : (i x : ℕ) → i < 1024 → HasTable (m1.word (new + 4 * i)) x → is_used m0.pmm x ≡ false

module _ (m0 : Mmu) (k : IsSpace m0.pmm m0.word m0.kernel_space) (new : ℕ)
    (aligned : new % 4096 ≡ 0) (unused : is_used m0.pmm (new / 4096) ≡ false)
    (inside : new / 4096 < m0.pmm.total_pages) (m1 : Mmu) (p : Partial m0 new 1024 m1) where
  abbrev old : ℕ → ℕ
  old j = m0.word (m0.kernel_space + 4 * j)

  abbrev entry : ℕ → ℕ
  entry j = m1.word (new + 4 * j)

  live : (j : ℕ) → j < 1024 → is_present (entry j) ≡ true → is_used m1.pmm (entry j / 4096) ≡ true
  live j lt on = Entry-used m0 k new aligned unused j lt p.old_used (p.entries j lt) on

  apart_by :
      (j : ℕ) {e1 : ℕ}
      → j < 1024
      → Entry m0 m1 new (old j) e1
      → is_present e1 ≡ true
      → frame_of e1 ≢ new
  apart_by j lt (absent off zero_entry) on e = ground (arith, ap is_present zero_entry, on)
  apart_by j lt (shared on kernel same) on' e = ground (
    arith,
    k.table_live j lt on,
    unused,
    ap (λ x. is_used m0.pmm (x / 4096)) same,
    ap (λ x. is_used m0.pmm (x / 4096)) e,
  )
  apart_by j lt (copied on user free live small ne flags words) on' e = ne (omega arith)

  -- Two entries: one has a table of its own, or both are the kernel's.
  kind :
      {e e1 : ℕ}
      → Entry m0 m1 new e e1
      → is_present e1 ≡ true
      → (is_used m0.pmm (e1 / 4096) ≡ false) ⊎ ((e1 ≡ e) × (is_present e ≡ true))
  kind (absent off zero_entry) on = absurd (ground (arith, ap is_present zero_entry, on))
  kind (shared on kernel same) on' = inr (same, on)
  kind (copied on user free live small ne flags words) on' = inl free

  distinct :
      (i j : ℕ)
      → i < 1024
      → j < 1024
      → i ≢ j
      → is_present (entry i) ≡ true
      → is_present (entry j) ≡ true
      → frame_of (entry i) ≢ frame_of (entry j)
  distinct i j li lj ne oi oj e = elim (kind (p.entries i li) oi) [
    | inl free ↦ p.distinct i j li lj ne oi oj free (omega arith)
    | inr (same, on) ↦ elim (kind (p.entries j lj) oj) [
      | inl free ↦ p.distinct j i lj li (λ q. ne (sym q)) oj oi free (omega arith)
      | inr (same', on') ↦
          k.distinct i j li lj ne on on' (sym (ap frame_of same) ∙ e ∙ ap frame_of same')
    ]
  ]

  space : IsSpace m1.pmm m1.word new
  space = record {
    aligned = aligned;
    live = p.new_used;
    table_live = live;
    apart = λ j lt on. apart_by j lt (p.entries j lt) on;
    distinct = distinct;
  }

  -- The word that an entry leads to, before and after.
  below :
      (j t : ℕ) {e1 : ℕ}
      → j < 1024
      → t < 1024
      → Entry m0 m1 new (old j) e1
      → (if is_present e1 then m1.word (frame_of e1 + 4 * t) else 0)
        ≡ (if is_present (old j) then m0.word (frame_of (old j) + 4 * t) else 0)
  below j t lt lt' (absent off zero_entry) = rw (off, zero_entry)
  below j t lt lt' (shared on kernel same) =
      rw (same, on)
        (p.old_words (frame_of (old j) + 4 * t)
          (ap (is_used m0.pmm) (omega arith) ∙ k.table_live j lt on))
  below j t {e1} lt lt' (copied on user free live small ne flags words) =
      let on' : is_present e1 ≡ true = ground (arith, on) in rw (on, on') (words t lt')

  same : (virt : ℕ) → virt < 2 ^ 32 → leaf m1.word new virt ≡ leaf m0.word m0.kernel_space virt
  unfolding leaf
  same virt lt =
      below (pd_index virt) (pt_index virt) (omega arith) (omega arith)
        (p.entries (pd_index virt) (omega arith))

  Partial-IsCopy : IsCopy m0 m1 new
  Partial-IsCopy = record {
    ready = p.ready;
    space = space;
    same = same;
    old_words = p.old_words;
    own = λ i x lt t. (Entry-own m0 k new aligned unused inside x (p.entries i lt) t).0;
  }

-- What a call of `vmm_create_space` may return.
pub data Created (m0 : Mmu) : Mmu × ℕ → Type 0 where
  refused :
      (m1 : Mmu)
      → IsReady m1.pmm
      → ((x : ℕ) → is_used m1.pmm x ≡ is_used m0.pmm x)
      → ((a : ℕ) → is_used m0.pmm (a / 4096) ≡ true → m1.word a ≡ m0.word a)
      → Created m0 (m1, 0)
  created :
      (m1 : Mmu) (new : ℕ)
      → new ≢ 0
      → IsCopy m0 m1 new
      → ((x : ℕ) → is_used (vmm_destroy_space new m1).pmm x ≡ is_used m0.pmm x)
      → Created m0 (m1, new)

-- The rest of `vmm_create_space`.
abbrev create_by : Mmu → Pmm × ℕ → Mmu × ℕ
create_by m (q, new) =
    let m1 = record m { pmm = q } in
    if new == 0 then (m1, 0) else copy_entries 1024 0 new m.kernel_space m1

module _ (m0 : Mmu) (r : IsReady m0.pmm) (k : IsSpace m0.pmm m0.word m0.kernel_space) where
  Finished-Created :
      (new : ℕ) (aligned : new % 4096 ≡ 0) (unused : is_used m0.pmm (new / 4096) ≡ false)
      (inside : new / 4096 < m0.pmm.total_pages) {res : Mmu × ℕ}
      → new ≢ 0
      → Finished m0 k new aligned unused inside res
      → Created m0 res
  unfolding vmm_destroy_space
  Finished-Created new aligned unused inside ne (failed m1 ready pages words) =
      refused m1 ready pages words
  Finished-Created new aligned unused inside ne (finished m1 p) =
      created m1 new ne (Partial-IsCopy m0 k new aligned unused inside m1 p) gone
    where
      nonzero : (new == 0) ≡ false
      nonzero = ground (arith, ne)

      gone : (x : ℕ) → is_used (vmm_destroy_space new m1).pmm x ≡ is_used m0.pmm x
      gone x = rw nonzero (give_back m0 k new aligned unused inside 1024 m1 p x)

  begun : {res : Pmm × ℕ} → Allocated m0.pmm res → Created m0 (create_by m0 res)
  begun (full all) = refused m0 r (λ x. refl) (λ a u. refl)
  begun (page n inside free below q w bits used total) = rw nonzero (
      Finished-Created (n * page_size) (omega arith) (ap (is_used m0.pmm) index ∙ free)
        (omega (arith, index)) (λ e. ground arith)
        (loop-Finished m0 k (n * page_size) (omega arith) (ap (is_used m0.pmm) index ∙ free)
          (omega (arith, index)) 1024 0 (record m0 { pmm = q }) r refl start))
    where
      index : n * page_size / 4096 ≡ n
      index = omega arith

      nonzero : (n * page_size == 0) ≡ false
      nonzero = ground (arith, ap (is_used m0.pmm) {x = n} {y = 0}, r.null_used)

      start : Partial m0 (n * page_size) 0 (record m0 { pmm = q })
      start = record {
        ready = record { valid = w; null_used = rw (bits 0) (ground (arith, r.null_used)) };
        old_used = λ j u. rw (bits j) (ground arith);
        old_words = λ a u. refl;
        new_used = rw (index, bits n) (ground arith);
        entries = λ j lt. absurd (omega arith);
        distinct = λ j l lt. absurd (omega arith);
        total = total;
        taken = λ x u. elim (Bool-cases (n == x)) [
          | inl e ↦ inr (inl (ground (arith, index)))
          | inr e ↦ inl (ground (arith, bits x))
        ];
      }

  -- `vmm_create_space` of a well-formed kernel space either returns the address of a new,
  -- well-formed space in which every address leads to what it leads to in the kernel's, whose user
  -- tables are pages that were not in use before, so that the two share none, while memory that was
  -- in use is unchanged, and which `vmm_destroy_space` gives back page by page, leaving exactly the
  -- pages in use that were so before; or it returns 0, with the same pages in use as before.
  pub vmm_create_space-Created : Created m0 (vmm_create_space m0)
  unfolding vmm_create_space
  vmm_create_space-Created = begun (alloc_page-Allocated r.valid)
