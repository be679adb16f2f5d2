-- ===== src/Memory/Kmalloc/Fit.antt =====
-- src/memory/kmalloc.cpp: `kmalloc` when a free block is large enough.
use nemo_os.Base.{
  ℕ, ◌+◌, ◌-◌, ◌*◌, ◌/◌, ◌^◌, ◌≤◌, ◌<◌, ◌≡◌, ◌≢◌, ◌⊎◌, refl, inl, inr, false, some, arith, ltb, leb,
  ◌==◌, Bool-cases,
}
use nemo_os.Memory.Kmalloc.{Heap, needed_of, find_fit, kmalloc, take_block}
use nemo_os.Memory.Kmalloc.FreeList.{Blocks, nth, IsFree, Found, hit, miss, find_fit-Found}
use nemo_os.Memory.Kmalloc.Take.{shortened}
use nemo_os.Memory.Kmalloc.Leave.{without}
use nemo_os.Memory.Kmalloc.Take
use nemo_os.Memory.Kmalloc.Leave

-- Block `k` of `b`, taken with `len` bytes: its header holds the length, its bytes are cleared,
-- it overlaps none of the blocks `rest` that are
-- free now, and nothing changed outside it but links of free blocks.
pub record Taken (b : Blocks) (k len : ℕ) (rest : Blocks) (m m1 : Heap) : Type 0 where
  pub free : IsFree rest m1
  pub length_kept : m1.word (b.at k) ≡ len
  pub zeroed : (j : ℕ) → j < (len - 20) / 4 → m1.word (b.at k + 16 + 4 * j) ≡ 0
  pub apart :
      (i : ℕ) → i < rest.count → (b.at k + len ≤ rest.at i) ⊎ (rest.at i + rest.size i ≤ b.at k)
  pub frame :
      (x : ℕ)
      → (x < b.at k) ⊎ (b.at k + b.size k ≤ x)
      → ((i : ℕ) → i < b.count → (x ≢ b.at i + 8) × (x ≢ b.at i + 12))
      → m1.word x ≡ m.word x

-- What `kmalloc` returns when block `k` is the first that is large enough.
pub data Served (b : Blocks) (needed : ℕ) (m : Heap) : Heap × ℕ → Type 0 where
  split :
      (k : ℕ)
      → k < b.count
      → ((j : ℕ) → j < k → b.size j < needed)
      → needed + 32 ≤ b.size k
      → (m1 : Heap) → Taken b k needed (shortened k needed b) m m1
      → Served b needed m (m1, b.at k + 16)
  whole :
      (k : ℕ)
      → k < b.count
      → ((j : ℕ) → j < k → b.size j < needed)
      → needed ≤ b.size k
      → b.size k < needed + 32
      → (m1 : Heap) → Taken b k (b.size k) (without k b) m m1
      → Served b needed m (m1, b.at k + 16)

module _ (b : Blocks) (m : Heap) (f : IsFree b m) (needed : ℕ) (least : 32 ≤ needed) where
  apart_shortened :
      (k i : ℕ)
      → k < b.count
      → i < b.count
      → needed ≤ b.size k
      → (b.at k + needed ≤ (shortened k needed b).at i)
        ⊎ ((shortened k needed b).at i + (shortened k needed b).size i ≤ b.at k)
  apart_shortened k i lt li fits = elim (Bool-cases (i == k)) [
    | inl e ↦ rw e (inl (omega arith))
    | inr e ↦ rw e (ground (arith, f.apart k i lt li (λ q. ground arith)))
  ]

  apart_without :
      (k i : ℕ)
      → k < b.count
      → i < b.count - 1
      → (b.at k + b.size k ≤ (without k b).at i)
        ⊎ ((without k b).at i + (without k b).size i ≤ b.at k)
  apart_without k i lt li = elim (Bool-cases (ltb i k)) [
    | inl e ↦ rw e (f.apart k i lt (omega arith) (λ q. ground arith))
    | inr e ↦ rw e (f.apart k (i + 1) lt (omega arith) (λ q. ground arith))
  ]

  take_block-Served :
      (k : ℕ)
      → k < b.count
      → needed ≤ b.size k
      → ((j : ℕ) → j < k → b.size j < needed)
      → Served b needed m (take_block needed (b.at k) m)
  unfolding take_block
  take_block-Served k lt fits smaller = elim (Bool-cases (leb 32 (b.size k - needed))) [
    | inl long ↦
        let room : needed + 32 ≤ b.size k = ground arith in
        rw (f.sized k lt, long)
          (split k lt smaller room _ (record {
            free = Take.shortened-IsFree b m f k lt needed least room;
            length_kept = Take.taken-size b m f k lt needed least room;
            zeroed = Take.taken-zeroed b m f k lt needed least room;
            apart = λ i li. apart_shortened k i lt li fits;
            frame = Take.frame b m f k lt needed least room;
          }))
    | inr short ↦
        rw (f.sized k lt, short)
          (whole k lt smaller fits (ground arith) _ (record {
            free = Leave.without-IsFree b m f k lt;
            length_kept = Leave.taken-size b m f k lt;
            zeroed = Leave.taken-zeroed b m f k lt;
            apart = λ i li. apart_without k i lt li;
            frame = Leave.frame b m f k lt;
          }))
  ]

needed_of-room :
    (size : ℕ) → size + 27 < 2 ^ 32 → (32 ≤ needed_of size) × (size + 20 ≤ needed_of size)
unfolding needed_of
needed_of-room size small = (ground arith, ground arith)

-- `kmalloc` of a size that is not 0 and whose rounding stays below 2 ^ 32, on a well-formed free
-- list, with more rounds than there are free blocks: unless every free block is too small, it
-- returns the bytes behind the header of the first block that is large enough, which is split if
-- at least 32 bytes are left and taken whole otherwise. The block holds at least the bytes asked
-- for, which are cleared, the free list is well formed again and overlaps it nowhere, and memory
-- outside the block is unchanged but for links of free blocks.
pub kmalloc-Served :
    (b : Blocks) (m : Heap) (fuel size : ℕ)
    → IsFree b m
    → size ≢ 0
    → size + 27 < 2 ^ 32
    → b.count < fuel
    → (size + 20 ≤ needed_of size)
      × (((r : Heap × ℕ) × (kmalloc fuel size m ≡ some r) × Served b (needed_of size) m r)
          ⊎ ((j : ℕ) → j < b.count → b.size j < needed_of size))
unfolding kmalloc
kmalloc-Served b m fuel size f ne small enough = (
  (needed_of-room size small).1,
  serve (find_fit-Found b m (needed_of size) fuel 0 f (omega arith) (omega arith)),
)
  where
    serve :
        (h : ℕ) × (find_fit fuel (needed_of size) (nth b 0) m.word ≡ some h)
          × Found b (needed_of size) 0 h
        → ((r : Heap × ℕ) × (kmalloc fuel size m ≡ some r) × Served b (needed_of size) m r)
          ⊎ ((j : ℕ) → j < b.count → b.size j < needed_of size)
    serve (h, e, miss all) = inr (λ j lt. all j (omega arith) lt)
    serve (h, e, hit k le lt fits smaller) =
        let nonzero : (size == 0) ≡ false = ground (arith, ne) in
        let there : (b.at k == 0) ≡ false = ground (arith, f.nonzero k lt) in
        inl (
          take_block (needed_of size) (b.at k) m,
          rw (nonzero, f.head, e, there) refl,
          take_block-Served b m f (needed_of size) (needed_of-room size small).0 k lt fits
              (λ j less. smaller j (omega arith) less),
        )
