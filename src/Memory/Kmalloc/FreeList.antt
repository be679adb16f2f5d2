-- ===== src/Memory/Kmalloc/FreeList.antt =====
-- src/memory/kmalloc.cpp: the free list as a sequence of blocks, and the search in it.
use nemo_os.Base.{
  ℕ, zero, suc, ◌+◌, ◌-◌, ◌≤◌, ◌<◌, ◌≡◌, ◌≢◌, ◌⊎◌, refl, ap, inl, inr, false, some, arith, ltb, leb,
  ◌==◌, if◌then◌else◌, Bool-cases,
}
use nemo_os.Memory.Kmalloc.{Heap, find_fit}

-- The blocks of the free list in order: block `i` starts at `at i` and has `size i` bytes.
pub record Blocks : Type 0 where
  pub count : ℕ
  pub at : ℕ → ℕ
  pub size : ℕ → ℕ

-- Block `i`, 0 past the end, and the block before it, 0 for the first.
abbrev pub nth : Blocks → ℕ → ℕ
nth b i = if ltb i b.count then b.at i else 0

abbrev pub before : Blocks → ℕ → ℕ
before b i = if i == 0 then 0 else b.at (i - 1)

-- The free list in memory holds the blocks `b`: each has its size and its two links, is large
-- enough, and overlaps no other.
pub record IsFree (b : Blocks) (m : Heap) : Type 0 where
  pub head : m.free_list ≡ nth b 0
  pub nonzero : (i : ℕ) → i < b.count → b.at i ≢ 0
  pub sized : (i : ℕ) → i < b.count → m.word (b.at i) ≡ b.size i
  pub next : (i : ℕ) → i < b.count → m.word (b.at i + 8) ≡ nth b (i + 1)
  pub prev : (i : ℕ) → i < b.count → m.word (b.at i + 12) ≡ before b i
  pub big : (i : ℕ) → i < b.count → 32 ≤ b.size i
  pub apart :
      (i j : ℕ)
      → i < b.count
      → j < b.count
      → i ≢ j
      → (b.at i + b.size i ≤ b.at j) ⊎ (b.at j + b.size j ≤ b.at i)

-- The result of a search from block `i`: the first block that is large enough, or 0.
pub data Found (b : Blocks) (needed i : ℕ) : ℕ → Type 0 where
  hit :
      (k : ℕ)
      → i ≤ k
      → k < b.count
      → needed ≤ b.size k
      → ((j : ℕ) → i ≤ j → j < k → b.size j < needed)
      → Found b needed i (b.at k)
  miss : ((j : ℕ) → i ≤ j → j < b.count → b.size j < needed) → Found b needed i 0

Found-next :
    (b : Blocks) (needed i : ℕ) {h : ℕ}
    → b.size i < needed
    → Found b needed (i + 1) h
    → Found b needed i h
Found-next b needed i small (hit k le lt fits rest) = hit k (omega arith) lt fits (λ j a c.
    elim (Bool-cases (i == j)) [
      | inl e ↦ let same : i ≡ j = ground arith in omega (arith, ap b.size same, small)
      | inr e ↦ rest j (ground arith) c
    ])
Found-next b needed i small (miss rest) = miss (λ j a c. elim (Bool-cases (i == j)) [
  | inl e ↦ let same : i ≡ j = ground arith in omega (arith, ap b.size same, small)
  | inr e ↦ rest j (ground arith) c
])

-- The search ends in as many rounds as there are blocks left, and one more.
pub find_fit-Found :
    (b : Blocks) (m : Heap) (needed fuel i : ℕ)
    → IsFree b m
    → i ≤ b.count
    → b.count < i + fuel
    → (h : ℕ) × (find_fit fuel needed (nth b i) m.word ≡ some h) × Found b needed i h
unfolding find_fit
find_fit-Found b m needed zero i f le enough = absurd (omega arith)
find_fit-Found b m needed (suc fuel) i f le enough = elim (Bool-cases (ltb i b.count)) [
  | inr past ↦
      let last : i ≡ b.count = ground arith in
      (0, rw past refl, miss (λ j a c. absurd (omega arith)))
  | inl more ↦
      let inside : i < b.count = ground arith in
      let ne : (b.at i == 0) ≡ false = ground (arith, f.nonzero i inside) in
      elim (Bool-cases (leb needed (b.size i))) [
        | inl fits ↦ (
          b.at i,
          rw (more, ne, f.sized i inside, fits),
          hit i (omega arith) inside (ground arith) (λ j a c. absurd (omega arith)),
        )
        | inr small ↦
            let (h, e, r) = find_fit-Found b m needed fuel (i + 1) f (omega arith) (omega arith) in
            (
              h,
              rw (more, ne, f.sized i inside, small, f.next i inside) e,
              Found-next b needed i (ground arith) r,
            )
      ]
]
