-- ===== src/Memory/Vmm/Table.antt =====
-- src/memory/vmm.cpp: the table that `vmm_map` and the functions of paging.cpp add to a directory.
use nemo_os.Base.{
  ℕ, ◌+◌, ◌*◌, ◌/◌, ◌^◌, ◌<◌, ◌≡◌, ◌≢◌, ◌⊎◌, sym, ap, ◌∙◌, inl, inr, true, false, ◌||◌, arith, ◌==◌,
  Bool-cases, ◌%◌,
}
use nemo_os.Memory.Pmm.{Pmm}
use nemo_os.Memory.Pmm.Inv.{is_used}
use nemo_os.Memory.Words.{
  put, put_self, put-ne, clear_words, clear_words-inside, clear_words-outside,
}
use nemo_os.Memory.Vmm.{is_present, frame_of, pd_index, pt_index}
use nemo_os.Memory.Vmm.Inv.{leaf, IsSpace}

-- The directory gets a cleared page that was not in use.
module _ (p q : Pmm) (word : ℕ → ℕ) (space n i f : ℕ) (f_small : f < 4096) (f_odd : f % 2 ≡ 1)
    (s : IsSpace p word space) (lt : i < 1024) (absent : is_present (word (space + 4 * i)) ≡ false)
    (free : is_used p n ≡ false) (bits : (j : ℕ) → is_used q j ≡ ((n == j) || is_used p j)) where
  abbrev entry : ℕ
  entry = n * 4096 + f

  abbrev after : ℕ → ℕ
  after = put (space + 4 * i) entry (clear_words 1024 (n * 4096) word)

  used_ne : (j : ℕ) → is_used p j ≡ true → j ≢ n
  used_ne j u e = ground (arith, ap (is_used p) e)

  space_ne : space / 4096 ≢ n
  space_ne = used_ne (space / 4096) s.live

  entry-frame : frame_of entry ≡ n * 4096
  entry-frame = omega arith

  entry-present : is_present entry ≡ true
  entry-present = ground arith

  pub table-here : after (space + 4 * i) ≡ entry
  table-here = put_self (space + 4 * i) entry (clear_words 1024 (n * 4096) word)

  -- Outside the new page and the directory's entry memory is unchanged.
  pub after-outside : (b : ℕ) → b / 4096 ≢ n → b ≢ space + 4 * i → after b ≡ word b
  after-outside b ne h =
      put-ne (space + 4 * i) entry b (clear_words 1024 (n * 4096) word) h
      ∙ clear_words-outside 1024 (n * 4096) b word (ground arith)

  pub directory-kept : (j : ℕ) → j < 1024 → j ≢ i → after (space + 4 * j) ≡ word (space + 4 * j)
  directory-kept j lt' ne =
      after-outside (space + 4 * j) (λ e. space_ne (omega (arith, s.aligned)))
        (λ e. ne (omega arith))

  live_still : (j : ℕ) → is_used p j ≡ true → is_used q j ≡ true
  live_still j u = rw (bits j) (ground arith)

  -- Each present entry is the new one or an old one.
  which : (j : ℕ) → (j ≡ i) ⊎ (j ≢ i)
  which j = ground arith

  present_still :
      (j : ℕ)
      → j < 1024
      → j ≢ i
      → is_present (after (space + 4 * j)) ≡ true
      → is_present (word (space + 4 * j)) ≡ true
  present_still j lt' ne h = ap is_present (sym (directory-kept j lt' ne)) ∙ h

  -- The new table is none of the old ones.
  fresh :
      (j : ℕ)
      → j < 1024
      → is_present (word (space + 4 * j)) ≡ true
      → frame_of (word (space + 4 * j)) ≢ n * 4096
  fresh j lt' h e = used_ne (word (space + 4 * j) / 4096) (s.table_live j lt' h) (omega arith)

  table_live :
      (j : ℕ)
      → j < 1024
      → is_present (after (space + 4 * j)) ≡ true
      → is_used q (after (space + 4 * j) / 4096) ≡ true
  table_live j lt' h = elim (which j) [
    | inl e ↦
        ap (λ x. is_used q (after (space + 4 * x) / 4096)) e
        ∙ ap (λ x. is_used q (x / 4096)) table-here
        ∙ bits (entry / 4096)
        ∙ ground arith
    | inr ne ↦
        ap (λ x. is_used q (x / 4096)) (directory-kept j lt' ne)
        ∙ live_still _ (s.table_live j lt' (present_still j lt' ne h))
  ]

  frame-at :
      (j : ℕ)
      → j < 1024
      → is_present (after (space + 4 * j)) ≡ true
      → (j ≡ i) × (frame_of (after (space + 4 * j)) ≡ n * 4096)
        ⊎ (j ≢ i)
          × (frame_of (after (space + 4 * j)) ≡ frame_of (word (space + 4 * j)))
          × (is_present (word (space + 4 * j)) ≡ true)
  frame-at j lt' h = elim (which j) [
    | inl e ↦
        inl (e, ap (λ x. frame_of (after (space + 4 * x))) e ∙ ap frame_of table-here ∙ entry-frame)
    | inr ne ↦ inr (ne, ap frame_of (directory-kept j lt' ne), present_still j lt' ne h)
  ]

  apart :
      (j : ℕ)
      → j < 1024
      → is_present (after (space + 4 * j)) ≡ true
      → frame_of (after (space + 4 * j)) ≢ space
  apart j lt' h e = elim (frame-at j lt' h) [
    | inl (_, f) ↦ space_ne (omega arith)
    | inr (_, f, old) ↦ s.apart j lt' old (sym f ∙ e)
  ]

  distinct :
      (j k : ℕ)
      → j < 1024
      → k < 1024
      → j ≢ k
      → is_present (after (space + 4 * j)) ≡ true
      → is_present (after (space + 4 * k)) ≡ true
      → frame_of (after (space + 4 * j)) ≢ frame_of (after (space + 4 * k))
  distinct j k lj lk ne hj hk e = elim (frame-at j lj hj) [
    | inl (ej, fj) ↦ elim (frame-at k lk hk) [
      | inl (ek, fk) ↦ ne (ej ∙ sym ek)
      | inr (_, fk, old) ↦ fresh k lk old (sym fk ∙ sym e ∙ fj)
    ]
    | inr (_, fj, oj) ↦ elim (frame-at k lk hk) [
      | inl (ek, fk) ↦ fresh j lj oj (sym fj ∙ e ∙ fk)
      | inr (_, fk, ok) ↦ s.distinct j k lj lk ne oj ok (sym fj ∙ e ∙ fk)
    ]
  ]

  pub after-IsSpace : IsSpace q after space
  after-IsSpace = record {
    aligned = s.aligned;
    live = live_still (space / 4096) s.live;
    table_live = table_live;
    apart = apart;
    distinct = distinct;
  }

  -- An address without a table finds a zero in the new one.
  pub leaf-kept : (virt : ℕ) → virt < 2 ^ 32 → leaf after space virt ≡ leaf word space virt
  unfolding leaf
  leaf-kept virt small = elim (which (pd_index virt)) [
    | inl e ↦ rw (e, table-here, absent, entry-present, entry-frame) zero_there
    | inr ne ↦ elim (Bool-cases (is_present (word (space + 4 * pd_index virt)))) [
      | inl h ↦
          let w : ℕ = word (space + 4 * pd_index virt) in
          let inside : pd_index virt < 1024 = omega arith in
          rw (directory-kept (pd_index virt) (omega arith) ne, h)
            (after-outside (frame_of w + 4 * pt_index virt)
              (λ e. used_ne (w / 4096) (s.table_live (pd_index virt) inside h) (omega arith))
              (λ e. s.apart (pd_index virt) inside h (omega (arith, s.aligned))))
      | inr h ↦ rw (directory-kept (pd_index virt) (omega arith) ne, h)
    ]
  ]
    where
      zero_there : after (n * 4096 + 4 * pt_index virt) ≡ 0
      zero_there =
          put-ne (space + 4 * i) entry (n * 4096 + 4 * pt_index virt)
            (clear_words 1024 (n * 4096) word) (λ e. space_ne (omega (arith, s.aligned)))
          ∙ clear_words-inside 1024 (n * 4096) (pt_index virt) word (omega arith)
