-- ===== src/Memory/Kmalloc/Links.antt =====
-- src/memory/kmalloc.cpp: the headers of the other free blocks, when one leaves the free list or
-- another takes its place.
use nemo_os.Base.{
  ℕ, ◌+◌, ◌-◌, ◌≤◌, ◌<◌, ◌≡◌, ◌≢◌, ◌⊎◌, sym, ap, ◌∙◌, inl, inr, true, false, arith, ltb, ◌==◌,
  Bool-cases,
}
use nemo_os.Memory.Kmalloc.{Heap}
use nemo_os.Memory.Kmalloc.FreeList.{Blocks, nth, before, IsFree}

-- Two fields of two headers.
pub apart_fields :
    (b : Blocks) (m : Heap)
    → IsFree b m
    → (i j c d : ℕ) → i < b.count
    → j < b.count
    → c < 32
    → d < 32
    → (i ≢ j) ⊎ (c ≢ d)
    → b.at i + c ≢ b.at j + d
apart_fields b m f i j c d li lj lc ld h e = elim (Bool-cases (i == j)) [
  | inl q ↦ let same : i ≡ j = ground arith in ground (arith, ap b.at same)
  | inr q ↦
      let ne : i ≢ j = λ r. ground arith in
      ground (arith, f.apart i j li lj ne, f.big i li, f.big j lj)
]

-- The block before `k` and the one after it do not overlap it.
module _ (b : Blocks) (m : Heap) (f : IsFree b m) (k : ℕ) (lt : k < b.count) where
  pub next_apart :
      (nth b (k + 1) ≡ 0) ⊎ ((nth b (k + 1) + 32 ≤ b.at k) ⊎ (b.at k + b.size k ≤ nth b (k + 1)))
  next_apart = elim (Bool-cases (ltb (k + 1) b.count)) [
    | inr past ↦ inl (rw past)
    | inl more ↦
        let inside : k + 1 < b.count = ground arith in
        rw more (
          inr
            (ground (arith, f.apart k (k + 1) lt inside (λ e. omega arith), f.big (k + 1) inside)))
  ]

  pub prev_apart :
      (before b k ≡ 0) ⊎ ((before b k + 32 ≤ b.at k) ⊎ (b.at k + b.size k ≤ before b k))
  prev_apart = elim (Bool-cases (k == 0)) [
    | inl first ↦ inl (rw first)
    | inr later ↦
        let ne : k ≢ 0 = λ e. ground arith in
        rw later (
          inr (
            ground (
              arith,
              f.apart k (k - 1) lt (omega arith) (λ e. omega arith),
              f.big (k - 1) (omega arith),
            )))
  ]

  -- Memory `word` in which only the two links to block `k` have changed, outside that block.
  module _ (word : ℕ → ℕ) (tp tn : ℕ)
      (others : (x : ℕ)
        → (x < b.at k) ⊎ (b.at k + b.size k ≤ x)
        → (before b k ≡ 0) ⊎ (x ≢ before b k + 8)
        → (nth b (k + 1) ≡ 0) ⊎ (x ≢ nth b (k + 1) + 12)
        → word x ≡ m.word x)
      (back : before b k ≢ 0 → word (before b k + 8) ≡ tp)
      (forth : nth b (k + 1) ≢ 0 → word (nth b (k + 1) + 12) ≡ tn) where
    outside :
        (i c : ℕ)
        → i < b.count
        → i ≢ k
        → c < 32
        → (b.at i + c < b.at k) ⊎ (b.at k + b.size k ≤ b.at i + c)
    outside i c li ne lc = ground (arith, f.apart i k li lt ne, f.big i li)

    not_back :
        (i c : ℕ)
        → i < b.count
        → c < 32
        → (i + 1 ≢ k) ⊎ (c ≢ 8)
        → (before b k ≡ 0) ⊎ (b.at i + c ≢ before b k + 8)
    not_back i c li lc h = elim (Bool-cases (k == 0)) [
      | inl first ↦ inl (rw first)
      | inr later ↦
          let ne : k ≢ 0 = λ e. ground arith in
          rw later (
            inr (
              apart_fields b m f i (k - 1) c 8 li (omega arith) lc (omega arith)
                (elim h [ inl a ↦ inl (λ e. a (omega arith)) | inr d ↦ inr d ])))
    ]

    not_forth :
        (i c : ℕ)
        → i < b.count
        → c < 32
        → (i ≢ k + 1) ⊎ (c ≢ 12)
        → (nth b (k + 1) ≡ 0) ⊎ (b.at i + c ≢ nth b (k + 1) + 12)
    not_forth i c li lc h = elim (Bool-cases (ltb (k + 1) b.count)) [
      | inr past ↦ inl (rw past)
      | inl more ↦
          rw more (inr (apart_fields b m f i (k + 1) c 12 li (ground arith) lc (omega arith) h))
    ]

    pub size_kept : (i : ℕ) → i < b.count → i ≢ k → word (b.at i) ≡ b.size i
    size_kept i li ne =
        ap word (omega arith)
        ∙ others (b.at i + 0) (outside i 0 li ne (omega arith))
            (not_back i 0 li (omega arith) (inr (λ e. omega arith)))
            (not_forth i 0 li (omega arith) (inr (λ e. omega arith)))
        ∙ ap m.word (omega arith)
        ∙ f.sized i li

    pub next_kept : (i : ℕ) → i < b.count → i ≢ k → i + 1 ≢ k → word (b.at i + 8) ≡ nth b (i + 1)
    next_kept i li ne far =
        others (b.at i + 8) (outside i 8 li ne (omega arith))
          (not_back i 8 li (omega arith) (inl far))
          (not_forth i 8 li (omega arith) (inr (λ e. omega arith)))
        ∙ f.next i li

    pub prev_kept : (i : ℕ) → i < b.count → i ≢ k → i ≢ k + 1 → word (b.at i + 12) ≡ before b i
    prev_kept i li ne far =
        others (b.at i + 12) (outside i 12 li ne (omega arith))
          (not_back i 12 li (omega arith) (inr (λ e. omega arith)))
          (not_forth i 12 li (omega arith) (inl far))
        ∙ f.prev i li

    pub next_new : (i : ℕ) → i + 1 ≡ k → word (b.at i + 8) ≡ tp
    next_new i e =
        let index : k - 1 ≡ i = omega arith in
        let later : (k == 0) ≡ false = ground arith in
        let same : before b k ≡ b.at i = rw later (ap b.at index) in
        ap (λ x. word (x + 8)) (sym same) ∙ back (λ q. f.nonzero i (omega arith) (sym same ∙ q))

    pub prev_new : (i : ℕ) → i ≡ k + 1 → i < b.count → word (b.at i + 12) ≡ tn
    prev_new i e li =
        let more : ltb (k + 1) b.count ≡ true = ground arith in
        let same : nth b (k + 1) ≡ b.at i = rw more (ap b.at (sym e)) in
        ap (λ x. word (x + 12)) (sym same) ∙ forth (λ q. f.nonzero i li (sym same ∙ q))
