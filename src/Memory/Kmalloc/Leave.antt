-- ===== src/Memory/Kmalloc/Leave.antt =====
-- src/memory/kmalloc.cpp: the free list when `kmalloc` takes the whole of block `k`.
use nemo_os.Base.{
  ℕ, ◌+◌, ◌-◌, ◌*◌, ◌/◌, ◌≤◌, ◌<◌, ◌≡◌, ◌≢◌, ◌⊎◌, sym, ap, ◌∙◌, inl, inr, ◌&&◌, not, arith, ltb,
  ◌==◌, if◌then◌else◌, Bool-cases,
}
use nemo_os.Memory.Kmalloc.{Heap, list_remove}
use nemo_os.Memory.Kmalloc.FreeList.{Blocks, nth, before, IsFree}
use nemo_os.Memory.Kmalloc.Links
use nemo_os.Memory.Kmalloc.Remove

-- The blocks without block `k`.
abbrev pub without : ℕ → Blocks → Blocks
without k b = record {
  count = b.count - 1;
  at = λ i. if ltb i k then b.at i else b.at (i + 1);
  size = λ i. if ltb i k then b.size i else b.size (i + 1);
}

module _ (b : Blocks) (m : Heap) (f : IsFree b m) (k : ℕ) (lt : k < b.count) where
  abbrev h : ℕ
  h = b.at k

  abbrev next : ℕ
  next = nth b (k + 1)

  abbrev prev : ℕ
  prev = before b k

  na : (next ≡ 0) ⊎ ((next + 32 ≤ h) ⊎ (h + b.size k ≤ next))
  na = Links.next_apart b m f k lt

  pa : (prev ≡ 0) ⊎ ((prev + 32 ≤ h) ⊎ (h + b.size k ≤ prev))
  pa = Links.prev_apart b m f k lt

  na32 : (next ≡ 0) ⊎ ((next + 32 ≤ h) ⊎ (h + 32 ≤ next))
  na32 = ground (arith, na, f.big k lt)

  pa32 : (prev ≡ 0) ⊎ ((prev + 32 ≤ h) ⊎ (h + 32 ≤ prev))
  pa32 = ground (arith, pa, f.big k lt)

  -- The two links are different words.
  links_apart : (prev ≡ 0) ⊎ ((next ≡ 0) ⊎ (prev + 8 ≢ next + 12))
  links_apart = elim (Bool-cases (k == 0)) [
    | inl e ↦ inl (rw e)
    | inr e ↦ elim (Bool-cases (ltb (k + 1) b.count)) [
      | inr past ↦ inr (inl (rw past))
      | inl more ↦
          rw (e, more)
            (inr (
              inr (
                Links.apart_fields b m f (k - 1) (k + 1) 8 12 (omega arith) (ground arith)
                  (omega arith) (omega arith) (inr (λ q. omega arith)))))
    ]
  ]

  removed :
      (x : ℕ)
      → (list_remove h m).word x ≡ (
          if not (next == 0) && (x == next + 12)
          then prev
          else if not (prev == 0) && (x == prev + 8)
          then next
          else m.word x)
  removed = Remove.list_remove-word h next prev m (f.next k lt) (f.prev k lt) na32 pa32

  here : (list_remove h m).word h ≡ b.size k
  here = removed h ∙ ground (arith, na32, pa32, f.sized k lt)

  abbrev done : Heap
  done = Remove.end_block h (list_remove h m)

  written : (x : ℕ) → (x < h) ⊎ (h + b.size k ≤ x) → done.word x ≡ (list_remove h m).word x
  written x side =
      Remove.end_block-word h (b.size k) (list_remove h m) here (f.big k lt) x (ground arith)

  others :
      (x : ℕ)
      → (x < h) ⊎ (h + b.size k ≤ x)
      → (prev ≡ 0) ⊎ (x ≢ prev + 8)
      → (next ≡ 0) ⊎ (x ≢ next + 12)
      → done.word x ≡ m.word x
  others x side p n = written x side ∙ removed x ∙ ground arith

  back : prev ≢ 0 → done.word (prev + 8) ≡ next
  back ne =
      written (prev + 8) (ground (arith, pa, f.big k lt))
      ∙ removed (prev + 8)
      ∙ ground (arith, links_apart)

  forth : next ≢ 0 → done.word (next + 12) ≡ prev
  forth ne =
      written (next + 12) (ground (arith, na, f.big k lt)) ∙ removed (next + 12) ∙ ground arith

  first_block : (if nth b 0 == h then next else nth b 0) ≡ nth (without k b) 0
  first_block = elim (Bool-cases (k == 0)) [
    | inl e ↦
        let same : k ≡ 0 = ground arith in
        let at_first : nth b 0 ≡ h = ground (arith, ap b.at same) in
        rw at_first (ground (arith, ap b.at same))
    | inr e ↦
        let ne : k ≢ 0 = λ q. ground arith in
        ground (
          arith,
          Links.apart_fields b m f 0 k 0 0 (omega arith) lt (omega arith) (omega arith)
              (inl (λ q. ne (sym q))),
        )
  ]

  head : done.free_list ≡ nth (without k b) 0
  head =
      Remove.end_block-list h (b.size k) (list_remove h m) here (f.big k lt)
      ∙ Remove.list_remove-list h next prev m (f.next k lt) (f.prev k lt) na32 pa32
      ∙ rw f.head first_block

  sized : (i : ℕ) → i < b.count - 1 → done.word ((without k b).at i) ≡ (without k b).size i
  sized i li = elim (Bool-cases (ltb i k)) [
    | inl e ↦ rw e (
        Links.size_kept b m f k lt done.word next prev others back forth i (omega arith)
          (λ q. ground arith))
    | inr e ↦ rw e (
        Links.size_kept b m f k lt done.word next prev others back forth (i + 1) (omega arith)
          (λ q. ground arith))
  ]

  next_of :
      (i : ℕ) → i < b.count - 1 → done.word ((without k b).at i + 8) ≡ nth (without k b) (i + 1)
  next_of i li = elim (Bool-cases (ltb i k)) [
    | inr e ↦ rw e (
        Links.next_kept b m f k lt done.word next prev others back forth (i + 1) (omega arith)
          (λ q. ground arith) (λ q. ground arith)
        ∙ ground arith)
    | inl e ↦ elim (Bool-cases (i + 1 == k)) [
      | inl q ↦ rw e (
          Links.next_new b m f k lt done.word next prev others back forth i (ground arith)
          ∙ ground arith)
      | inr q ↦ rw e (
          Links.next_kept b m f k lt done.word next prev others back forth i (omega arith)
            (λ r. ground arith) (λ r. ground arith)
          ∙ ground arith)
    ]
  ]

  prev_of : (i : ℕ) → i < b.count - 1 → done.word ((without k b).at i + 12) ≡ before (without k b) i
  prev_of i li = elim (Bool-cases (ltb i k)) [
    | inl e ↦ rw e (
        Links.prev_kept b m f k lt done.word next prev others back forth i (omega arith)
          (λ r. ground arith) (λ r. ground arith)
        ∙ ground arith)
    | inr e ↦ elim (Bool-cases (i == k)) [
      | inl q ↦ rw e (
          Links.prev_new b m f k lt done.word next prev others back forth (i + 1) (ground arith)
            (omega arith)
          ∙ ground arith)
      | inr q ↦ rw e (
          Links.prev_kept b m f k lt done.word next prev others back forth (i + 1) (omega arith)
            (λ r. ground arith) (λ r. ground arith)
          ∙ ground arith)
    ]
  ]

  -- Memory outside block `k` and outside the links of the free blocks is as before.
  pub frame :
      (x : ℕ)
      → (x < h) ⊎ (h + b.size k ≤ x)
      → ((i : ℕ) → i < b.count → (x ≢ b.at i + 8) × (x ≢ b.at i + 12))
      → done.word x ≡ m.word x
  frame x side links = others x side no_back no_forth
    where
      no_back : (prev ≡ 0) ⊎ (x ≢ prev + 8)
      no_back = elim (Bool-cases (k == 0)) [
        | inl e ↦ inl (rw e)
        | inr e ↦ rw e (inr (links (k - 1) (omega arith)).0)
      ]

      no_forth : (next ≡ 0) ⊎ (x ≢ next + 12)
      no_forth = elim (Bool-cases (ltb (k + 1) b.count)) [
        | inr past ↦ inl (rw past)
        | inl more ↦ rw more (inr (links (k + 1) (ground arith)).1)
      ]

  pub taken-size : done.word h ≡ b.size k
  taken-size =
      Remove.end_block-word h (b.size k) (list_remove h m) here (f.big k lt) h (inl (omega arith))
      ∙ here

  pub taken-zeroed : (j : ℕ) → j < (b.size k - 20) / 4 → done.word (h + 16 + 4 * j) ≡ 0
  taken-zeroed = Remove.end_block-zeroed h (b.size k) (list_remove h m) here (f.big k lt)

  pub without-IsFree : IsFree (without k b) done
  without-IsFree = record {
    head = head;
    nonzero = λ i li. ground (arith, f.nonzero i, f.nonzero (i + 1));
    sized = sized;
    next = next_of;
    prev = prev_of;
    big = λ i li. ground (arith, f.big i, f.big (i + 1));
    apart = λ i j li lj ne.
        ground (arith, f.apart i j, f.apart (i + 1) j, f.apart i (j + 1), f.apart (i + 1) (j + 1));
  }
