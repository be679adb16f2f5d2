-- ===== src/Memory/Vmm/Entries.antt =====
-- src/memory/vmm.cpp: the invariant of the loop of `vmm_create_space`.
use nemo_os.Base.{
  ℕ, ◌+◌, ◌*◌, ◌/◌, ◌%◌, ◌<◌, ◌≡◌, ◌≢◌, ◌⊎◌, sym, ap, ◌∙◌, subst, inl, inr, true, false, arith,
  Bool-cases,
}
use nemo_os.Memory.Pmm.Inv.{is_used}
use nemo_os.Memory.Vmm.{Mmu, is_present, is_user_entry, frame_of}
use nemo_os.Memory.Vmm.Inv.{IsSpace, IsReady}

-- How the entry `e` of the kernel's directory in state `m0` is copied to `e1` in state `m`: an
-- absent one as 0, a kernel table by reference, a user table into a page of its own.
pub data Entry (m0 m : Mmu) (new e e1 : ℕ) : Type 0 where
  absent : is_present e ≡ false → e1 ≡ 0 → Entry m0 m new e e1
  shared : is_present e ≡ true → is_user_entry e ≡ false → e1 ≡ e → Entry m0 m new e e1
  copied :
      is_present e ≡ true
      → is_user_entry e ≡ true
      → is_used m0.pmm (e1 / 4096) ≡ false
      → is_used m.pmm (e1 / 4096) ≡ true
      → e1 / 4096 < m0.pmm.total_pages
      → e1 / 4096 ≢ new / 4096
      → e1 % 4096 ≡ e % 4096
      → ((j : ℕ) → j < 1024 → m.word (frame_of e1 + 4 * j) ≡ m0.word (frame_of e + 4 * j))
      → Entry m0 m new e e1

-- Is `x` the page of a user table that the directory's entry `e` refers to?
abbrev pub HasTable : ℕ → ℕ → Type 0
HasTable e x = (is_present e ≡ true) × (is_user_entry e ≡ true) × (e / 4096 ≡ x)

-- The new directory `new` in state `m`, its first `i` entries copied.
pub record Partial (m0 : Mmu) (new i : ℕ) (m : Mmu) : Type 0 where
  pub ready : IsReady m.pmm
  pub old_used : (j : ℕ) → is_used m0.pmm j ≡ true → is_used m.pmm j ≡ true
  pub old_words : (a : ℕ) → is_used m0.pmm (a / 4096) ≡ true → m.word a ≡ m0.word a
  pub new_used : is_used m.pmm (new / 4096) ≡ true
  pub entries :
      (j : ℕ) → j < i → Entry m0 m new (m0.word (m0.kernel_space + 4 * j)) (m.word (new + 4 * j))
  pub distinct :
      (j k : ℕ)
      → j < i
      → k < i
      → j ≢ k
      → is_present (m.word (new + 4 * j)) ≡ true
      → is_present (m.word (new + 4 * k)) ≡ true
      → is_used m0.pmm (m.word (new + 4 * j) / 4096) ≡ false
      → m.word (new + 4 * j) / 4096 ≢ m.word (new + 4 * k) / 4096
  pub total : m.pmm.total_pages ≡ m0.pmm.total_pages
  pub taken :
      (x : ℕ)
      → is_used m.pmm x ≡ true
      → (is_used m0.pmm x ≡ true)
        ⊎ ((x ≡ new / 4096) ⊎ ((j : ℕ) × (j < i) × HasTable (m.word (new + 4 * j)) x))

-- One round, from state `m` to state `m1`.
pub record Round (m0 : Mmu) (new i : ℕ) (m m1 : Mmu) : Type 0 where
  pub ready : IsReady m1.pmm
  pub used_kept : (j : ℕ) → is_used m.pmm j ≡ true → is_used m1.pmm j ≡ true
  pub words_kept :
      (a : ℕ) → is_used m.pmm (a / 4096) ≡ true → a ≢ new + 4 * i → m1.word a ≡ m.word a
  pub entry : Entry m0 m1 new (m0.word (m0.kernel_space + 4 * i)) (m1.word (new + 4 * i))
  pub fresh :
      is_used m0.pmm (m1.word (new + 4 * i) / 4096) ≡ false
      → is_present (m1.word (new + 4 * i)) ≡ true
      → is_used m.pmm (m1.word (new + 4 * i) / 4096) ≡ false
  pub total : m1.pmm.total_pages ≡ m.pmm.total_pages
  pub taken :
      (x : ℕ)
      → is_used m1.pmm x ≡ true
      → (is_used m.pmm x ≡ true) ⊎ HasTable (m1.word (new + 4 * i)) x

module _ (m0 : Mmu) (k : IsSpace m0.pmm m0.word m0.kernel_space) (new : ℕ)
    (aligned : new % 4096 ≡ 0) (unused : is_used m0.pmm (new / 4096) ≡ false) where
  abbrev old : ℕ → ℕ
  old j = m0.word (m0.kernel_space + 4 * j)

  -- The table of a copied entry is in use.
  pub Entry-used :
      {m : Mmu} (j : ℕ) {e1 : ℕ}
      → j < 1024
      → ((x : ℕ) → is_used m0.pmm x ≡ true → is_used m.pmm x ≡ true)
      → Entry m0 m new (old j) e1
      → is_present e1 ≡ true
      → is_used m.pmm (e1 / 4096) ≡ true
  Entry-used j lt kept (absent off zero_entry) h = absurd (ground (arith, ap is_present zero_entry))
  Entry-used {m} j lt kept (shared on kernel same) h =
      ap (λ x. is_used m.pmm (x / 4096)) same ∙ kept _ (k.table_live j lt on)
  Entry-used j lt kept (copied on user free live inside ne flags words) h = live

  module _ (i : ℕ) (m m1 : Mmu) (lt : i < 1024) (p : Partial m0 new i m)
      (r : Round m0 new i m m1) where
    entry-kept : (j : ℕ) → j < i → m1.word (new + 4 * j) ≡ m.word (new + 4 * j)
    entry-kept j h =
        r.words_kept (new + 4 * j) (ap (is_used m.pmm) (omega (arith, aligned)) ∙ p.new_used)
          (λ e. omega arith)

    Entry-kept : {e e1 : ℕ} → Entry m0 m new e e1 → Entry m0 m1 new e e1
    Entry-kept (absent off zero_entry) = absent off zero_entry
    Entry-kept (shared on kernel same) = shared on kernel same
    Entry-kept {e} {e1} (copied on user free live inside ne flags words) =
        copied on user free (r.used_kept _ live) inside ne flags (λ j h.
          r.words_kept (frame_of e1 + 4 * j) (ap (is_used m.pmm) (omega arith) ∙ live)
            (λ q. ne (omega (arith, aligned)))
          ∙ words j h)

    which : (j : ℕ) → j < i + 1 → (j ≡ i) ⊎ (j < i)
    which j h = ground arith

    entries : (j : ℕ) → j < i + 1 → Entry m0 m1 new (old j) (m1.word (new + 4 * j))
    entries j h = elim (which j h) [
      | inl e ↦ subst (λ x. Entry m0 m1 new (old x) (m1.word (new + 4 * x))) (sym e) r.entry
      | inr less ↦
          subst (λ x. Entry m0 m1 new (old j) x) (sym (entry-kept j less))
            (Entry-kept (p.entries j less))
    ]

    -- A present entry of the first `i` has a table that was in use before the round.
    used_before :
        (j : ℕ)
        → j < i
        → is_present (m1.word (new + 4 * j)) ≡ true
        → is_used m.pmm (m1.word (new + 4 * j) / 4096) ≡ true
    used_before j h there =
        ap (λ x. is_used m.pmm (x / 4096)) (entry-kept j h)
        ∙ Entry-used j (omega arith) p.old_used (p.entries j h)
            (ap is_present (sym (entry-kept j h)) ∙ there)

    abbrev table : ℕ → ℕ
    table j = m1.word (new + 4 * j) / 4096

    -- The round's own table against an earlier one.
    apart_last :
        (j : ℕ)
        → j < i
        → is_present (m1.word (new + 4 * j)) ≡ true
        → is_present (m1.word (new + 4 * i)) ≡ true
        → (is_used m0.pmm (table j) ≡ false) ⊎ (is_used m0.pmm (table i) ≡ false)
        → table j ≢ table i
    apart_last j h tj ti free e = elim (Bool-cases (is_used m0.pmm (table i))) [
      | inl u ↦ ground (arith, ap (is_used m0.pmm) e)
      | inr f ↦ ground (arith, used_before j h tj, r.fresh f ti, ap (is_used m.pmm) e)
    ]

    at_last :
        (j : ℕ)
        → j ≡ i
        → is_present (m1.word (new + 4 * j)) ≡ true
        → is_present (m1.word (new + 4 * i)) ≡ true
    at_last j e h = ap (λ x. is_present (m1.word (new + 4 * x))) (sym e) ∙ h

    distinct :
        (j l : ℕ)
        → j < i + 1
        → l < i + 1
        → j ≢ l
        → is_present (m1.word (new + 4 * j)) ≡ true
        → is_present (m1.word (new + 4 * l)) ≡ true
        → is_used m0.pmm (table j) ≡ false
        → table j ≢ table l
    distinct j l hj hl ne tj tl free e = elim (which j hj) [
      | inl ej ↦ elim (which l hl) [
        | inl el ↦ ne (ej ∙ sym el)
        | inr less ↦
            apart_last l less tl (at_last j ej tj)
              (inr (ap (λ x. is_used m0.pmm (table x)) (sym ej) ∙ free)) (sym e ∙ ap table ej)
      ]
      | inr less ↦ elim (which l hl) [
        | inl el ↦ apart_last j less tj (at_last l el tl) (inl free) (e ∙ ap table el)
        | inr less' ↦
            p.distinct j l less less' ne (ap is_present (sym (entry-kept j less)) ∙ tj)
              (ap is_present (sym (entry-kept l less')) ∙ tl)
              (ap (λ x. is_used m0.pmm (x / 4096)) (sym (entry-kept j less)) ∙ free)
              (ap (λ x. x / 4096) (sym (entry-kept j less))
                ∙ e
                ∙ ap (λ x. x / 4096) (entry-kept l less'))
      ]
    ]

    taken :
        (x : ℕ)
        → is_used m1.pmm x ≡ true
        → (is_used m0.pmm x ≡ true)
          ⊎ ((x ≡ new / 4096) ⊎ ((j : ℕ) × (j < i + 1) × HasTable (m1.word (new + 4 * j)) x))
    taken x u = elim (r.taken x u) [
      | inr here ↦ inr (inr (i, omega arith, here))
      | inl before ↦ elim (p.taken x before) [
        | inl o ↦ inl o
        | inr (inl n) ↦ inr (inl n)
        | inr (inr (j, less, t)) ↦
            inr (inr (j, omega arith, subst (λ e. HasTable e x) (sym (entry-kept j less)) t))
      ]
    ]

    pub Partial-Round : Partial m0 new (i + 1) m1
    Partial-Round = record {
      ready = r.ready;
      old_used = λ j u. r.used_kept j (p.old_used j u);
      old_words = λ a u.
          r.words_kept a (p.old_used _ u)
            (λ e. ground (arith, ap (λ x. is_used m0.pmm (x / 4096)) e, aligned))
          ∙ p.old_words a u;
      new_used = r.used_kept _ p.new_used;
      entries = entries;
      distinct = distinct;
      total = r.total ∙ p.total;
      taken = taken;
    }
