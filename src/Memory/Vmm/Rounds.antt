-- ===== src/Memory/Vmm/Rounds.antt =====
-- src/memory/vmm.cpp: one round of the loop of `vmm_create_space`.
use nemo_os.Base.{
  ℕ, ◌+◌, ◌*◌, ◌/◌, ◌%◌, ◌<◌, ◌≡◌, ◌≢◌, ◌⊎◌, refl, sym, ap, ◌∙◌, subst, inl, inr, Bool, true, false,
  ◌||◌, not, arith, ◌==◌, if◌then◌else◌, Bool-cases,
}
use nemo_os.Memory.Pmm.{Pmm, alloc_page, page_size}
use nemo_os.Memory.Pmm.Inv.{is_used, IsValid}
use nemo_os.Memory.Pmm.Alloc.{Allocated, full, page, alloc_page-Allocated}
use nemo_os.Memory.Words.{put, put_self, put-ne, copy_words, copy_words-inside, copy_words-outside}
use nemo_os.Memory.Vmm.{Mmu, is_present, is_user_entry, frame_of, copy_entry}
use nemo_os.Memory.Vmm.Inv.{IsSpace}
use nemo_os.Memory.Vmm.Entries.{Entry, Partial, Round, HasTable, absent, shared, copied}

module _ (m0 : Mmu) (k : IsSpace m0.pmm m0.word m0.kernel_space) (new : ℕ)
    (aligned : new % 4096 ≡ 0) (unused : is_used m0.pmm (new / 4096) ≡ false) where
  abbrev old : ℕ → ℕ
  old j = m0.word (m0.kernel_space + 4 * j)

  module _ (i : ℕ) (m : Mmu) (lt : i < 1024) (p : Partial m0 new i m) where
    -- A round that only writes the entry.
    simple :
        (e1 : ℕ)
        → Entry m0 (record m { word = put (new + 4 * i) e1 m.word }) new (old i) e1
        → (is_used m0.pmm (e1 / 4096) ≡ false
            → is_present e1 ≡ true
            → is_used m.pmm (e1 / 4096) ≡ false)
        → Round m0 new i m (record m { word = put (new + 4 * i) e1 m.word })
    simple e1 entry fresh = record {
      ready = p.ready;
      used_kept = λ j u. u;
      words_kept = λ a u ne. put-ne (new + 4 * i) e1 a m.word ne;
      entry = rw (put_self (new + 4 * i) e1 m.word) entry;
      fresh = rw (put_self (new + 4 * i) e1 m.word) fresh;
      total = refl;
      taken = λ x u. inl u;
    }

    -- A round that copies a user table to page `n`.
    module _ (n : ℕ) (q : Pmm) (w : IsValid q) (inside : n < m.pmm.total_pages)
        (free : is_used m.pmm n ≡ false)
        (bits : (j : ℕ) → is_used q j ≡ ((n == j) || is_used m.pmm j))
        (on : is_present (old i) ≡ true) (user : is_user_entry (old i) ≡ true)
        (total : q.total_pages ≡ m.pmm.total_pages) where
      abbrev e1 : ℕ
      e1 = n * 4096 + old i % 4096

      abbrev after : Mmu
      after = record m {
        pmm = q;
        word = put (new + 4 * i) e1 (copy_words 1024 (n * 4096) (frame_of (old i)) m.word);
      }

      used_ne : (j : ℕ) → is_used m.pmm j ≡ true → j ≢ n
      used_ne j u e = ground (arith, ap (is_used m.pmm) e)

      still : (j : ℕ) → is_used m.pmm j ≡ true → is_used q j ≡ true
      still j u = rw (bits j) (ground arith)

      table-e1 : e1 / 4096 ≡ n
      table-e1 = omega arith

      kept : (a : ℕ) → is_used m.pmm (a / 4096) ≡ true → a ≢ new + 4 * i → after.word a ≡ m.word a
      kept a u ne =
          let apart : a / 4096 ≢ n = used_ne (a / 4096) u in
          put-ne (new + 4 * i) e1 a (copy_words 1024 (n * 4096) (frame_of (old i)) m.word) ne
          ∙ copy_words-outside 1024 (n * 4096) (frame_of (old i)) a m.word (ground arith)

      copied_words :
          (j : ℕ) → j < 1024 → after.word (frame_of e1 + 4 * j) ≡ m0.word (frame_of (old i) + 4 * j)
      copied_words j h =
          let live : is_used m0.pmm (old i / 4096) ≡ true = k.table_live i lt on in
          let apart : old i / 4096 ≢ n = used_ne (old i / 4096) (p.old_used _ live) in
          let new_ne : new / 4096 ≢ n = used_ne (new / 4096) p.new_used in
          put-ne (new + 4 * i) e1 (frame_of e1 + 4 * j)
            (copy_words 1024 (n * 4096) (frame_of (old i)) m.word)
            (λ e. new_ne (omega (arith, aligned)))
          ∙ ap (λ x. copy_words 1024 (n * 4096) (frame_of (old i)) m.word (x + 4 * j)) (omega arith)
          ∙ copy_words-inside 1024 (n * 4096) (frame_of (old i)) j m.word (ground arith) h
          ∙ p.old_words (frame_of (old i) + 4 * j) (ap (is_used m0.pmm) (omega arith) ∙ live)

      unused_before : is_used m0.pmm n ≡ false
      unused_before = elim (Bool-cases (is_used m0.pmm n)) [
        | inl u ↦ ground (arith, p.old_used n u)
        | inr f ↦ f
      ]

      copied_entry : Entry m0 after new (old i) e1
      copied_entry =
          copied on user (ap (is_used m0.pmm) table-e1 ∙ unused_before)
            (ap (is_used q) table-e1 ∙ bits n ∙ ground arith) (omega (arith, inside, p.total))
            (λ e. used_ne (new / 4096) p.new_used (sym e ∙ table-e1)) (omega arith) copied_words

      taken : (x : ℕ) → is_used q x ≡ true → (is_used m.pmm x ≡ true) ⊎ HasTable e1 x
      taken x u = elim (Bool-cases (n == x)) [
        | inl e ↦ inr (ground (arith, on), ground (arith, user), ground arith)
        | inr e ↦ inl (ground (arith, bits x))
      ]

      copying : Round m0 new i m after
      copying = record {
        ready = record { valid = w; null_used = still 0 p.ready.null_used };
        used_kept = still;
        words_kept = kept;
        entry =
            rw (put_self (new + 4 * i) e1 (copy_words 1024 (n * 4096) (frame_of (old i)) m.word))
              copied_entry;
        fresh =
            rw (put_self (new + 4 * i) e1 (copy_words 1024 (n * 4096) (frame_of (old i)) m.word))
              (λ _ _. ap (is_used m.pmm) table-e1 ∙ free);
        total = total;
        taken = λ x u.
            rw (put_self (new + 4 * i) e1 (copy_words 1024 (n * 4096) (frame_of (old i)) m.word))
              (taken x u);
      }

  -- What one round may leave: the same state when there is no page for a table, or the entry
  -- copied.
  pub data Stepped (i : ℕ) (m : Mmu) : Mmu × Bool → Type 0 where
    no_page : ((j : ℕ) → j < m.pmm.total_pages → is_used m.pmm j ≡ true) → Stepped i m (m, false)
    next : (m1 : Mmu) → Round m0 new i m m1 → Stepped i m (m1, true)

  -- `copy_entry`, from the old entry and what `pmm_alloc_page` returned.
  abbrev step_by : ℕ → Mmu → ℕ → Pmm × ℕ → Mmu × Bool
  step_by i m e (q, pt) =
      let copied = copy_words 1024 pt (frame_of e) m.word in
      if not (is_present e)
      then (record m { word = put (new + 4 * i) 0 m.word }, true)
      else if not (is_user_entry e)
      then (record m { word = put (new + 4 * i) e m.word }, true)
      else if pt == 0
      then (record m { pmm = q }, false)
      else (record m { pmm = q; word = put (new + 4 * i) (pt + e % 4096) copied }, true)

  module _ (i : ℕ) (m : Mmu) (lt : i < 1024) (p : Partial m0 new i m) where
    user_step :
        is_present (old i) ≡ true
        → is_user_entry (old i) ≡ true
        → {r : Pmm × ℕ} → Allocated m.pmm r
        → Stepped i m (step_by i m (old i) r)
    user_step on user (full all) = rw (on, user) (no_page all)
    user_step on user (page n inside free below q w bits used total) =
        rw (on, user, nonzero) (next _ (copying i m lt p n q w inside free bits on user total))
      where
        nonzero : (n * page_size == 0) ≡ false
        nonzero = ground (arith, ap (is_used m.pmm) {x = n} {y = 0}, p.ready.null_used)

    step : {r : Pmm × ℕ} → Allocated m.pmm r → Stepped i m (step_by i m (old i) r)
    step h = elim (Bool-cases (is_present (old i))) [
      | inr off ↦
          rw off (next _ (simple i m lt p 0 (absent off refl) (λ _ h. absurd (ground (arith, h)))))
      | inl on ↦ elim (Bool-cases (is_user_entry (old i))) [
        | inl user ↦ user_step on user h
        | inr kernel ↦
            rw (on, kernel)
              (next _ (
                simple i m lt p (old i) (shared on kernel refl)
                  (λ f _. ground (arith, k.table_live i lt on))))
      ]
    ]

    pub copy_entry-Stepped : Stepped i m (copy_entry new m0.kernel_space i m)
    unfolding copy_entry
    copy_entry-Stepped =
        subst (λ e. Stepped i m (step_by i m e (alloc_page m.pmm))) (sym same)
          (step (alloc_page-Allocated p.ready.valid))
      where
        same : m.word (m0.kernel_space + 4 * i) ≡ old i
        same =
            p.old_words (m0.kernel_space + 4 * i)
              (ap (is_used m0.pmm) (omega (arith, k.aligned)) ∙ k.live)
