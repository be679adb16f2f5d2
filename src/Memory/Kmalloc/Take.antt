-- ===== src/Memory/Kmalloc/Take.antt =====
-- src/memory/kmalloc.cpp: the free list when `kmalloc` splits block `k`.
use nemo_os.Base.{
  ℕ, ◌+◌, ◌-◌, ◌*◌, ◌/◌, ◌≤◌, ◌<◌, ◌≡◌, ◌≢◌, ◌⊎◌, refl, ◌∙◌, inl, inr, true, false, ◌&&◌, not,
  arith, ltb, ◌==◌, if◌then◌else◌, Bool-cases,
}
use nemo_os.Memory.Kmalloc.{Heap, split_block}
use nemo_os.Memory.Kmalloc.FreeList.{Blocks, nth, before, IsFree}
use nemo_os.Memory.Kmalloc.Links
use nemo_os.Memory.Kmalloc.Split
use nemo_os.Memory.Kmalloc.Remove

-- The blocks when block `k` gives its first `needed` bytes.
abbrev pub shortened : ℕ → ℕ → Blocks → Blocks
shortened k needed b = record {
  count = b.count;
  at = λ i. if i == k then b.at k + needed else b.at i;
  size = λ i. if i == k then b.size k - needed else b.size i;
}

module _ (b : Blocks) (m : Heap) (f : IsFree b m) (k : ℕ) (lt : k < b.count) where
  abbrev h : ℕ
  h = b.at k

  abbrev next : ℕ
  next = nth b (k + 1)

  abbrev prev : ℕ
  prev = before b k

  first : (prev == 0) ≡ (k == 0)
  first = elim (Bool-cases (k == 0)) [
    | inl e ↦ rw e refl
    | inr e ↦ rw e (ground (arith, f.nonzero (k - 1) (omega arith)))
  ]

  module _ (needed : ℕ) (least : 32 ≤ needed) (room : needed + 32 ≤ b.size k) where
    abbrev split : ℕ
    split = h + needed

    na : (next ≡ 0) ⊎ ((next + 32 ≤ h) ⊎ (h + b.size k ≤ next))
    na = Links.next_apart b m f k lt

    pa : (prev ≡ 0) ⊎ ((prev + 32 ≤ h) ⊎ (h + b.size k ≤ prev))
    pa = Links.prev_apart b m f k lt

    here : (split_block needed h m).word h ≡ needed
    here =
        Split.split_block-here needed h (b.size k) next prev m (f.sized k lt) (f.next k lt)
          (f.prev k lt) least room na pa

    abbrev done : Heap
    done = Remove.end_block h (split_block needed h m)

    -- Behind the new header `kmalloc` no longer writes.
    beyond :
        (x : ℕ) → (x < h + 16) ⊎ (h + needed ≤ x) → done.word x ≡ (split_block needed h m).word x
    beyond = Remove.end_block-word h needed (split_block needed h m) here least

    written :
        (x : ℕ)
        → (x < h) ⊎ (h + b.size k ≤ x)
        → done.word x ≡ (
            if not (prev == 0) && (x == prev + 8)
            then split
            else if not (next == 0) && (x == next + 12)
            then split
            else m.word x)
    written x side =
        beyond x (ground arith)
        ∙ Split.split_block-word needed h (b.size k) next prev m (f.sized k lt) (f.next k lt)
            (f.prev k lt) least room na pa x side

    others :
        (x : ℕ)
        → (x < h) ⊎ (h + b.size k ≤ x)
        → (prev ≡ 0) ⊎ (x ≢ prev + 8)
        → (next ≡ 0) ⊎ (x ≢ next + 12)
        → done.word x ≡ m.word x
    others x side p n = written x side ∙ ground arith

    back : prev ≢ 0 → done.word (prev + 8) ≡ split
    back ne = written (prev + 8) (ground (arith, pa)) ∙ ground arith

    forth : next ≢ 0 → done.word (next + 12) ≡ split
    forth ne = written (next + 12) (ground (arith, na)) ∙ ground arith

    nth-shortened : (j : ℕ) → nth (shortened k needed b) j ≡ (if j == k then split else nth b j)
    nth-shortened j = ground arith

    left-size : done.word split ≡ b.size k - needed
    left-size =
        beyond split (inr (omega arith))
        ∙ Split.split_block-size needed h (b.size k) next prev m (f.sized k lt) (f.next k lt)
            (f.prev k lt) least room na pa

    left-next : done.word (split + 8) ≡ next
    left-next =
        beyond (split + 8) (inr (omega arith))
        ∙ Split.split_block-next needed h (b.size k) next prev m (f.sized k lt) (f.next k lt)
            (f.prev k lt) least room na pa

    left-prev : done.word (split + 12) ≡ prev
    left-prev =
        beyond (split + 12) (inr (omega arith))
        ∙ Split.split_block-prev needed h (b.size k) next prev m (f.sized k lt) (f.next k lt)
            (f.prev k lt) least room na pa

    head : done.free_list ≡ nth (shortened k needed b) 0
    head =
        Remove.end_block-list h needed (split_block needed h m) here least
        ∙ Split.split_block-list needed h (b.size k) next prev m (f.sized k lt) (f.next k lt)
            (f.prev k lt) least room na pa
        ∙ rw (first, f.head) (ground arith)

    sized :
        (i : ℕ)
        → i < b.count
        → done.word ((shortened k needed b).at i) ≡ (shortened k needed b).size i
    sized i li = elim (Bool-cases (i == k)) [
      | inl e ↦ rw e left-size
      | inr e ↦ rw e (
          Links.size_kept b m f k lt done.word split split others back forth i li
            (λ q. ground arith))
    ]

    next_of :
        (i : ℕ)
        → i < b.count
        → done.word ((shortened k needed b).at i + 8) ≡ nth (shortened k needed b) (i + 1)
    next_of i li = elim (Bool-cases (i == k)) [
      | inl e ↦
          let same : i ≡ k = ground arith in
          let other : (i + 1 == k) ≡ false = ground arith in rw (e, other, same) left-next
      | inr e ↦ elim (Bool-cases (i + 1 == k)) [
        | inl q ↦
            rw (nth-shortened (i + 1), e, q)
              (Links.next_new b m f k lt done.word split split others back forth i (ground arith))
        | inr q ↦
            rw (nth-shortened (i + 1), e, q)
              (Links.next_kept b m f k lt done.word split split others back forth i li
                (λ r. ground arith) (λ r. ground arith))
      ]
    ]

    prev_of :
        (i : ℕ)
        → i < b.count
        → done.word ((shortened k needed b).at i + 12) ≡ before (shortened k needed b) i
    prev_of i li = elim (Bool-cases (i == k)) [
      | inl e ↦
          let same : i ≡ k = ground arith in
          let other : (k - 1 == k) ≡ (k == 0) = ground arith in
          rw (e, same, other) (left-prev ∙ ground arith)
      | inr e ↦ elim (Bool-cases (i == k + 1)) [
        | inl q ↦
            let index : i - 1 ≡ k = ground arith in
            let later : (i == 0) ≡ false = ground arith in
            let here : (k == k) ≡ true = ground arith in
            rw (e, later, index, here)
              (Links.prev_new b m f k lt done.word split split others back forth i (ground arith)
                li)
        | inr q ↦ rw e (
            Links.prev_kept b m f k lt done.word split split others back forth i li
              (λ r. ground arith) (λ r. ground arith)
            ∙ ground arith)
      ]
    ]

    -- Memory outside block `k` and outside the links of the free blocks is as before.
    pub frame :
        (x : ℕ)
        → (x < h) ⊎ (h + b.size k ≤ x)
        → ((i : ℕ) → i < b.count → (x ≢ b.at i + 8) × (x ≢ b.at i + 12))
        → done.word x ≡ m.word x
    frame x side links = others x side no_back no_forth
      where
        no_back : (prev ≡ 0) ⊎ (x ≢ prev + 8)
        no_back = elim (Bool-cases (k == 0)) [
          | inl e ↦ inl (rw e)
          | inr e ↦ rw e (inr (links (k - 1) (omega arith)).0)
        ]

        no_forth : (next ≡ 0) ⊎ (x ≢ next + 12)
        no_forth = elim (Bool-cases (ltb (k + 1) b.count)) [
          | inr past ↦ inl (rw past)
          | inl more ↦ rw more (inr (links (k + 1) (ground arith)).1)
        ]

    pub taken-size : done.word h ≡ needed
    taken-size = beyond h (inl (omega arith)) ∙ here

    pub taken-zeroed : (j : ℕ) → j < (needed - 20) / 4 → done.word (h + 16 + 4 * j) ≡ 0
    taken-zeroed = Remove.end_block-zeroed h needed (split_block needed h m) here least

    pub shortened-IsFree : IsFree (shortened k needed b) done
    shortened-IsFree = record {
      head = head;
      nonzero = λ i li. ground (arith, f.nonzero i li);
      sized = sized;
      next = next_of;
      prev = prev_of;
      big = λ i li. ground (arith, f.big i li, room);
      apart = λ i j li lj ne. ground (arith, f.apart i j li lj ne);
    }
