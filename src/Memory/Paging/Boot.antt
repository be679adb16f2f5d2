-- ===== src/Memory/Paging/Boot.antt =====
-- src/memory/paging.cpp: `paging_init`.
use nemo_os.Base.{
  ℕ, zero, suc, ◌+◌, ◌*◌, ◌/◌, ◌%◌, ◌^◌, ◌≤◌, ◌<◌, ◌≡◌, ◌≢◌, ◌⊎◌, refl, sym, ap, ◌∙◌, subst, inl,
  inr, Bool, true, false, Option, some, arith, ltb, ◌==◌, if◌then◌else◌, Bool-cases, ltb→lt,
}
use mathlib.Core.Option
use nemo_os.Memory.Pmm.Inv.{is_used}
use nemo_os.Memory.Words.{
  put, put_self, put-ne, clear_words, clear_words-inside, clear_words-outside,
}
use nemo_os.Memory.Vmm.{Mmu, is_present, frame_of, pd_index, pt_index}
use nemo_os.Memory.Vmm.Inv.{leaf, IsSpace, IsReady}
use nemo_os.Memory.Paging.{
  init_page, init_from, fill_boot, end_of, first_tables, enable, paging_init,
}
use nemo_os.Memory.Paging.Page.{IsFull, Paged, Attempt, out_of_pages, written, init_page-Attempt}

-- The addresses below `addr` lead to themselves, and no other is mapped.
pub record UpTo (dir addr : ℕ) (m : Mmu) : Type 0 where
  pub ready : IsReady m.pmm
  pub space : IsSpace m.pmm m.word dir
  pub below : (w : ℕ) → w < 2 ^ 32 → w < addr → leaf m.word dir w ≡ frame_of w + 3
  pub above : (w : ℕ) → w < 2 ^ 32 → addr ≤ w → leaf m.word dir w ≡ 0

-- How the loop of `paging_init` may end.
pub data Ended (dir last : ℕ) : Mmu × Bool → Type 0 where
  panicked : (m : Mmu) → IsFull m → Ended dir last (m, false)
  completed : (m : Mmu) → UpTo dir last m → Ended dir last (m, true)

module _ (dir : ℕ) where
  UpTo-Paged :
      (addr : ℕ) (m m1 : Mmu)
      → addr % 4096 ≡ 0
      → UpTo dir addr m
      → Paged dir addr (addr + 3) m m1
      → UpTo dir (addr + 4096) m1
  UpTo-Paged addr m m1 a u p = record {
    ready = p.ready;
    space = p.space;
    below = λ w lt less. elim (Bool-cases (ltb w addr)) [
      | inl h ↦ p.elsewhere w lt (λ e. ground arith) ∙ u.below w lt (ground arith)
      | inr h ↦ p.here w (ground arith) ∙ ground arith
    ];
    above = λ w lt le. p.elsewhere w lt (λ e. ground arith) ∙ u.above w lt (omega arith);
  }

  Attempt-Ended :
      (addr last : ℕ) (m : Mmu) {m1 : Mmu} {ok : Bool} {rest : Option (Mmu × Bool)}
      → addr % 4096 ≡ 0
      → UpTo dir addr m
      → Attempt dir addr (addr + 3) m m1 ok
      → (UpTo dir (addr + 4096) m1 → (r : Mmu × Bool) × (rest ≡ some r) × Ended dir last r)
      → (r : Mmu × Bool) × ((if ok then rest else some (m1, false)) ≡ some r) × Ended dir last r
  Attempt-Ended addr last m a u (out_of_pages all) f = ((m, false), refl, panicked m all)
  Attempt-Ended addr last m a u (written m1 p) f = f (UpTo-Paged addr m m1 a u p)

  init_from-Ended :
      (last fuel addr : ℕ) (m : Mmu)
      → UpTo dir addr m
      → addr % 4096 ≡ 0
      → last % 4096 ≡ 0
      → last < 2 ^ 32
      → addr ≤ last
      → last ≤ addr + 4096 * fuel
      → (r : Mmu × Bool) × (init_from fuel dir addr last m ≡ some r) × Ended dir last r
  unfolding init_from
  init_from-Ended last zero addr m u a b small le enough =
      let same : addr ≡ last = omega arith in
      ((m, true), ground arith, completed m (subst (λ x. UpTo dir x m) same u))
  init_from-Ended last (suc fuel) addr m u a b small le enough = elim (Bool-cases (ltb addr last)) [
    | inl h ↦
        let less : addr < last = omega (arith, ltb→lt addr last h) in
        let next : (addr + 0x1000) % 2 ^ 32 ≡ addr + 4096 = omega (arith, a, b, small) in
        let t = init_page-Attempt dir addr m u.ready u.space (omega arith) in
        rw (h, next)
          (Attempt-Ended addr last m a u t (λ v.
            init_from-Ended last fuel (addr + 4096) (init_page dir addr m).0 v (omega arith) b small
              (omega arith) (omega arith)))
    | inr h ↦
        let same : addr ≡ last = ground arith in
        ((m, true), rw h, completed m (subst (λ x. UpTo dir x m) same u))
  ]

fill_boot-outside :
    (k i boot b : ℕ) (word : ℕ → ℕ)
    → (b < boot + 4 * i) ⊎ (boot + 4 * (i + k) ≤ b)
    → fill_boot k i boot word b ≡ word b
unfolding fill_boot
fill_boot-outside zero i boot b word h = refl
fill_boot-outside (suc k) i boot b word h =
    fill_boot-outside k (i + 1) boot b (put (boot + 4 * i) (i * 0x1000 + 3) word) (ground arith)
    ∙ put-ne (boot + 4 * i) (i * 0x1000 + 3) b word (λ e. ground arith)

fill_boot-inside :
    (k i boot j : ℕ) (word : ℕ → ℕ)
    → i ≤ j
    → j < i + k
    → fill_boot k i boot word (boot + 4 * j) ≡ j * 0x1000 + 3
unfolding fill_boot
fill_boot-inside zero i boot j word le lt = absurd (omega arith)
fill_boot-inside (suc k) i boot j word le lt = elim (Bool-cases (i == j)) [
  | inl e ↦
      let same : j ≡ i = ground arith in
      rw same (
        fill_boot-outside k (i + 1) boot (boot + 4 * i) (put (boot + 4 * i) (i * 0x1000 + 3) word)
          (inl (omega arith))
        ∙ put_self (boot + 4 * i) (i * 0x1000 + 3) word)
  | inr e ↦
      fill_boot-inside k (i + 1) boot j (put (boot + 4 * i) (i * 0x1000 + 3) word) (ground arith)
        (omega arith)
]

module _ (dir boot : ℕ) (m : Mmu) (v : IsReady m.pmm) (a : dir % 4096 ≡ 0) (b : boot % 4096 ≡ 0)
    (differ : boot ≢ dir) (dir_used : is_used m.pmm (dir / 4096) ≡ true)
    (boot_used : is_used m.pmm (boot / 4096) ≡ true) where
  abbrev word : ℕ → ℕ
  word = first_tables dir boot m.word

  first_entry : word (dir + 4 * 0) ≡ boot + 3
  unfolding first_tables
  first_entry =
      ap (put dir (boot + 3) (clear_words 1024 dir (fill_boot 1024 0 boot m.word))) (omega arith)
      ∙ put_self dir (boot + 3) (clear_words 1024 dir (fill_boot 1024 0 boot m.word))

  other_entry : (i : ℕ) → i < 1024 → i ≢ 0 → word (dir + 4 * i) ≡ 0
  unfolding first_tables
  other_entry i lt ne =
      put-ne dir (boot + 3) (dir + 4 * i) (clear_words 1024 dir (fill_boot 1024 0 boot m.word))
        (λ e. ne (omega arith))
      ∙ clear_words-inside 1024 dir i (fill_boot 1024 0 boot m.word) lt

  boot_entry : (j : ℕ) → j < 1024 → word (boot + 4 * j) ≡ j * 0x1000 + 3
  unfolding first_tables
  boot_entry j lt =
      let apart : boot / 4096 ≢ dir / 4096 = λ e. differ (omega (arith, a, b)) in
      put-ne dir (boot + 3) (boot + 4 * j) (clear_words 1024 dir (fill_boot 1024 0 boot m.word))
        (λ e. apart (omega (arith, a, b)))
      ∙ clear_words-outside 1024 dir (boot + 4 * j) (fill_boot 1024 0 boot m.word) (ground arith)
      ∙ fill_boot-inside 1024 0 boot j m.word (omega arith) (omega arith)

  only_first : (i : ℕ) → i < 1024 → is_present (word (dir + 4 * i)) ≡ true → i ≡ 0
  only_first i lt h = elim (Bool-cases (i == 0)) [
    | inl e ↦ ground arith
    | inr e ↦
        let ne : i ≢ 0 = λ q. ground arith in ground (arith, ap is_present (other_entry i lt ne), h)
  ]

  first_frame :
      (i : ℕ) → i < 1024 → is_present (word (dir + 4 * i)) ≡ true → word (dir + 4 * i) ≡ boot + 3
  first_frame i lt h = ap (λ j. word (dir + 4 * j)) (only_first i lt h) ∙ first_entry

  below : (w : ℕ) → w < 2 ^ 32 → w < 0x400000 → leaf word dir w ≡ frame_of w + 3
  unfolding leaf
  below w lt less =
      let d : pd_index w ≡ 0 = omega arith in
      let on : is_present (boot + 3) ≡ true = ground (arith, b) in
      let f : frame_of (boot + 3) ≡ boot = omega (arith, b) in
      rw (d, first_entry, on, f) (boot_entry (pt_index w) (omega arith) ∙ omega arith)

  above : (w : ℕ) → w < 2 ^ 32 → 0x400000 ≤ w → leaf word dir w ≡ 0
  unfolding leaf
  above w lt le = rw (other_entry (pd_index w) (omega arith) (λ e. omega arith))

  first-UpTo : UpTo dir 0x400000 (record m { word = word })
  first-UpTo = record {
    ready = v;
    space = record {
      aligned = a;
      live = dir_used;
      table_live = λ i lt h.
          ap (λ e. is_used m.pmm (e / 4096)) (first_frame i lt h)
          ∙ ap (is_used m.pmm) (omega (arith, b))
          ∙ boot_used;
      apart = λ i lt h e. differ (omega (arith, b, first_frame i lt h));
      distinct = λ i j li lj ne hi hj e. ne (only_first i li hi ∙ sym (only_first j lj hj));
    };
    below = below;
    above = above;
  }

-- How `paging_init` may end: a PANIC when every page is in use, or paging on, with the memory up
-- to `last` mapped to itself.
pub data Started (dir last : ℕ) : Mmu × Bool → Type 0 where
  panic : (m : Mmu) → IsFull m → Started dir last (m, false)
  running :
      (m : Mmu)
      → UpTo dir last m
      → m.cr3 ≡ dir
      → m.cr0 / 2 ^ 31 % 2 ≡ 1
      → Started dir last (m, true)

enable-Started :
    (dir last : ℕ) {o : Option (Mmu × Bool)}
    → (r : Mmu × Bool) × (o ≡ some r) × Ended dir last r
    → (r : Mmu × Bool) × (Option.map (enable dir) o ≡ some r) × Started dir last r
unfolding enable
enable-Started dir last (r, e, panicked m all) =
    ((m, false), ap (Option.map (enable dir)) e, panic m all)
enable-Started dir last (r, e, completed m u) = (
  enable dir (m, true),
  ap (Option.map (enable dir)) e,
  running _ (record { ready = u.ready; space = u.space; below = u.below; above = u.above }) refl
      (ground arith),
)

-- The kernel maps at least its first four megabytes.
abbrev pub mapped_end : ℕ → ℕ
mapped_end total_memory_mb =
    if ltb (end_of total_memory_mb) 0x400000 then 0x400000 else end_of total_memory_mb

init_from-stops :
    (fuel dir addr last : ℕ) (m : Mmu)
    → ltb addr last ≡ false
    → init_from fuel dir addr last m ≡ some (m, true)
unfolding init_from
init_from-stops zero dir addr last m h = rw h
init_from-stops (suc fuel) dir addr last m h = rw h

loop-Ended :
    (dir last : ℕ) (m : Mmu)
    → UpTo dir 0x400000 m
    → last % 4096 ≡ 0
    → last < 2 ^ 32
    → (r : Mmu × Bool) × (init_from 1048576 dir 0x400000 last m ≡ some r)
      × Ended dir (if ltb last 0x400000 then 0x400000 else last) r
loop-Ended dir last m u b small = elim (Bool-cases (ltb last 0x400000)) [
  | inl h ↦
      rw h ((m, true), init_from-stops 1048576 dir 0x400000 last m (ground arith), completed m u)
  | inr h ↦ rw h (
      init_from-Ended dir last 1048576 0x400000 m u (omega arith) b small (ground arith)
        (omega arith))
]

-- Given two different pages in use for the static arrays, `paging_init` ends, in at most 2 ^ 20
-- rounds of its loop: with a PANIC when every page is in use, or with paging on and a well-formed
-- kernel directory in CR3 in which every address below the end of memory (as computed in 32 bits,
-- and at least 4 MB) leads to itself, present and writable, and no other address is mapped.
pub paging_init-Started :
    (dir boot total_memory_mb : ℕ) (m : Mmu)
    → IsReady m.pmm
    → dir % 4096 ≡ 0
    → boot % 4096 ≡ 0
    → boot ≢ dir
    → is_used m.pmm (dir / 4096) ≡ true
    → is_used m.pmm (boot / 4096) ≡ true
    → (r : Mmu × Bool) × (paging_init 1048576 dir boot total_memory_mb m ≡ some r)
      × Started dir (mapped_end total_memory_mb) r
unfolding paging_init
paging_init-Started dir boot total_memory_mb m v a b differ du bu =
    enable-Started dir (mapped_end total_memory_mb) loop
  where
    start : UpTo dir 0x400000 (record m { word = first_tables dir boot m.word })
    start = first-UpTo dir boot m v a b differ du bu

    loop :
        (r : Mmu × Bool) × (init_from 1048576 dir 0x400000
            (end_of total_memory_mb)
            (record m { word = first_tables dir boot m.word })
          ≡ some r)
        × Ended dir (mapped_end total_memory_mb) r
    loop = loop-Ended dir (end_of total_memory_mb) _ start (omega arith) (omega arith)
