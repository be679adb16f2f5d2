-- ===== src/Memory/Vmm/Create.antt =====
-- src/memory/vmm.cpp: the loop of `vmm_create_space`, and what giving the pages back leaves.
use nemo_os.Base.{
  ℕ, zero, suc, ◌+◌, ◌*◌, ◌/◌, ◌%◌, ◌<◌, ◌≡◌, ◌≢◌, sym, ap, ◌∙◌, subst, inl, inr, Bool, true, false,
  arith, if◌then◌else◌, Bool-cases,
}
use nemo_os.Memory.Pmm.{Pmm, free_page}
use nemo_os.Memory.Pmm.Inv.{is_used}
use nemo_os.Memory.Vmm.Rounds.{Stepped, no_page, next, copy_entry-Stepped}
use nemo_os.Memory.Vmm.{Mmu, is_present, is_user_entry, copy_entries, free_copied, free_tables}
use nemo_os.Memory.Vmm.Inv.{IsSpace, IsReady}
use nemo_os.Memory.Vmm.Entries.{Entry, Partial, HasTable, Partial-Round, absent, shared, copied}
use nemo_os.Memory.Vmm.Freed

module _ (m0 : Mmu) (k : IsSpace m0.pmm m0.word m0.kernel_space) (new : ℕ)
    (aligned : new % 4096 ≡ 0) (unused : is_used m0.pmm (new / 4096) ≡ false)
    (inside : new / 4096 < m0.pmm.total_pages) where
  abbrev old : ℕ → ℕ
  old j = m0.word (m0.kernel_space + 4 * j)

  -- A user table of the copy is not one of the old pages.
  pub Entry-own :
      {m : Mmu} {e e1 : ℕ} (x : ℕ)
      → Entry m0 m new e e1
      → HasTable e1 x
      → (is_used m0.pmm x ≡ false) × (x < m0.pmm.total_pages) × (x ≢ new / 4096)
  Entry-own x (absent off zero_entry) (on, user, here) =
      absurd (ground (arith, ap is_present zero_entry, on))
  Entry-own x (shared on kernel same) (on', user, here) =
      absurd (ground (arith, ap is_user_entry same, user))
  Entry-own x (copied on user free live small ne flags words) (on', user', here) =
      (ap (is_used m0.pmm) (sym here) ∙ free, omega (arith, here), λ e. ne (here ∙ e))

  Entry-user :
      {m : Mmu} {e e1 : ℕ} → Entry m0 m new e e1 → is_user_entry e1 ≡ true → is_present e1 ≡ true
  Entry-user (absent off zero_entry) u = absurd (ground (arith, ap is_user_entry zero_entry, u))
  Entry-user (shared on kernel same) u = ap is_present same ∙ on
  Entry-user (copied on user free live small ne flags words) u = ground (arith, on)

  -- Giving back the user tables and the directory leaves the pages of the old state in use.
  pub give_back :
      (i : ℕ) (m : Mmu)
      → Partial m0 new i m
      → (x : ℕ) → is_used (free_page new (free_tables i 0 new m.word m.pmm)) x ≡ is_used m0.pmm x
  give_back i m p x = elim (Bool-cases (is_used m0.pmm x)) [
    | inl old_page ↦
        Freed.free_page-other new x tables f.valid (λ e. ground (arith, ap (is_used m0.pmm) e))
        ∙ Freed.free_tables-other i 0 new m.word m.pmm x p.ready.valid
            (λ j lt t. ground (arith, Entry-own x (p.entries j (omega arith)) t))
        ∙ p.old_used x old_page
        ∙ sym old_page
    | inr free ↦ elim (Bool-cases (is_used m.pmm x)) [
      | inr still_free ↦ last.fewer x (f.fewer x still_free) ∙ sym free
      | inl u ↦ elim (p.taken x u) [
        | inl o ↦ ground (arith, o, free)
        | inr (inl n) ↦
            Freed.free_page-gone new x tables f.valid (sym n)
              (omega (arith, f.total, p.total, inside))
            ∙ sym free
        | inr (inr (j, lt, t)) ↦
            last.fewer x (
              Freed.free_tables-gone i 0 new m.word m.pmm x j p.ready.valid (omega arith)
                (omega arith) t (omega (arith, p.total, (Entry-own x (p.entries j lt) t).1)))
            ∙ sym free
      ]
    ]
  ]
    where
      tables : Pmm
      tables = free_tables i 0 new m.word m.pmm

      f : Freed.Frees m.pmm tables
      f = Freed.free_tables-Frees i 0 new m.word m.pmm p.ready.valid

      last : Freed.Frees tables (free_page new tables)
      last = Freed.free_page-Frees new tables f.valid

  -- What the loop may return: nothing, and the pages as before; or the finished directory.
  pub data Finished : Mmu × ℕ → Type 0 where
    failed :
        (m1 : Mmu)
        → IsReady m1.pmm
        → ((x : ℕ) → is_used m1.pmm x ≡ is_used m0.pmm x)
        → ((a : ℕ) → is_used m0.pmm (a / 4096) ≡ true → m1.word a ≡ m0.word a)
        → Finished (m1, 0)
    finished : (m1 : Mmu) → Partial m0 new 1024 m1 → Finished (m1, new)

  -- The state that the failed loop leaves at entry `i`.
  given_up : ℕ → Mmu → Mmu
  given_up i m = record m { pmm = free_page new (free_copied i 0 new m.word m.pmm) }

  give_up : (i : ℕ) (m : Mmu) → Partial m0 new i m → IsReady m0.pmm → Finished (given_up i m, 0)
  unfolding given_up
  give_up i m p r =
      let pages =
        Freed.free_copied-free_tables i 0 new m.word m.pmm
          (λ j lt. Entry-user (p.entries j (omega arith))) in
      let f = Freed.free_tables-Frees i 0 new m.word m.pmm p.ready.valid in
      let g = Freed.free_page-Frees new (free_tables i 0 new m.word m.pmm) f.valid in
      failed (given_up i m)
        (rw pages (record { valid = g.valid; null_used = give_back i m p 0 ∙ r.null_used }))
        (λ x. rw pages (give_back i m p x)) p.old_words

  loop_by : ℕ → ℕ → Mmu × Bool → Mmu × ℕ
  loop_by i n (m1, ok) =
      if ok then copy_entries n (i + 1) new m0.kernel_space m1 else (given_up i m1, 0)

  round-Finished :
      (n i : ℕ) (m : Mmu) {r : Mmu × Bool}
      → IsReady m0.pmm
      → i + suc n ≡ 1024
      → ((m1 : Mmu)
          → Partial m0 new (i + 1) m1
          → Finished (copy_entries n (i + 1) new m0.kernel_space m1))
      → Partial m0 new i m
      → Stepped m0 k new aligned unused i m r
      → Finished (loop_by i n r)
  unfolding loop_by
  round-Finished n i m r h rest p (no_page all) = give_up i m p r
  round-Finished n i m r h rest p (next m1 round) =
      rest m1 (Partial-Round m0 k new aligned unused i m m1 (omega arith) p round)

  pub loop-Finished :
      (n i : ℕ) (m : Mmu)
      → IsReady m0.pmm
      → i + n ≡ 1024
      → Partial m0 new i m
      → Finished (copy_entries n i new m0.kernel_space m)
  unfolding copy_entries given_up loop_by
  loop-Finished zero i m r h p = finished m (subst (λ c. Partial m0 new c m) (omega arith) p)
  loop-Finished (suc n) i m r h p =
      round-Finished n i m r h (λ m1. loop-Finished n (i + 1) m1 r (omega arith)) p
        (copy_entry-Stepped m0 k new aligned unused i m (omega arith) p)
