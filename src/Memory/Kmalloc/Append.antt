-- ===== src/Memory/Kmalloc/Append.antt =====
-- src/memory/kmalloc.cpp: `list_append`, at the end of `kfree`.
use nemo_os.Base.{
  ℕ, zero, suc, ◌+◌, ◌-◌, ◌%◌, ◌^◌, ◌≤◌, ◌<◌, ◌≡◌, ◌≢◌, ◌⊎◌, refl, ap, ◌∙◌, inl, inr, true, false,
  ◌&&◌, not, some, arith, ltb, ◌==◌, if◌then◌else◌, Bool-cases,
}
use nemo_os.Memory.Words.{put}
use mathlib.Core.Option
use nemo_os.Memory.Kmalloc.{Heap, heap_magic, last_from, list_append, set_footer, link_last, store}
use nemo_os.Memory.Kmalloc.Kfree.{
  merge_none, kfree, has_prev, has_next, is_valid, prev_block, next_block,
}
use nemo_os.Memory.Kmalloc.Links.{apart_fields}
use nemo_os.Memory.Kmalloc.FreeList.{Blocks, nth, before, IsFree}

-- The blocks with one more at the end.
abbrev pub appended : ℕ → ℕ → Blocks → Blocks
appended h s b = record {
  count = b.count + 1;
  at = λ i. if i == b.count then h else b.at i;
  size = λ i. if i == b.count then s else b.size i;
}

-- The walk to the last block ends.
last_from-last :
    (b : Blocks) (m : Heap) (word : ℕ → ℕ) (fuel i : ℕ)
    → IsFree b m
    → ((j : ℕ) → j < b.count → word (b.at j + 8) ≡ nth b (j + 1))
    → i < b.count
    → b.count ≤ i + fuel
    → last_from fuel (b.at i) word ≡ some (b.at (b.count - 1))
unfolding last_from
last_from-last b m word zero i f links lt enough = absurd (omega arith)
last_from-last b m word (suc fuel) i f links lt enough = elim (Bool-cases (ltb (i + 1) b.count)) [
  | inr past ↦ let index : b.count - 1 ≡ i = ground arith in rw (links i lt, past, index) refl
  | inl more ↦
      let inside : i + 1 < b.count = ground arith in
      let there : (b.at (i + 1) == 0) ≡ false = ground (arith, f.nonzero (i + 1) inside) in
      rw (links i lt, more, there)
        (last_from-last b m word fuel (i + 1) f links inside (omega arith))
]

module _ (b : Blocks) (m : Heap) (f : IsFree b m) (h s : ℕ) (size_h : m.word h ≡ s) (ne : h ≢ 0)
    (least : 32 ≤ s)
    (clear : (i : ℕ) → i < b.count → (h + s ≤ b.at i) ⊎ (b.at i + b.size i ≤ h)) where
  -- The state before the list is walked.
  m1 : Heap
  m1 = let m0 = set_footer h (store (h + 4) heap_magic m) in store (h + 12) 0 (store (h + 8) 0 m0)

  word1 : (x : ℕ) → (x < h) ⊎ (h + s ≤ x) → m1.word x ≡ m.word x
  unfolding m1 set_footer put
  word1 x side = ground (arith, size_h)

  size1 : m1.word h ≡ s
  unfolding m1 set_footer put
  size1 = ground (arith, size_h)

  next1 : m1.word (h + 8) ≡ 0
  unfolding m1 set_footer put
  next1 = ground arith

  prev1 : m1.word (h + 12) ≡ 0
  unfolding m1 set_footer put
  prev1 = ground arith

  list1 : m1.free_list ≡ m.free_list
  unfolding m1 set_footer
  list1 = refl

  outside : (i c : ℕ) → i < b.count → c < 32 → (b.at i + c < h) ⊎ (h + s ≤ b.at i + c)
  outside i c li lc = ground (arith, clear i li, f.big i li)

  abbrev last : ℕ
  last = b.at (b.count - 1)

  done : Heap
  done = if b.count == 0 then record m1 { free_list = h } else link_last h m1 last

  done_word :
      (x : ℕ)
      → x ≢ h + 12
      → done.word x ≡ (if not (b.count == 0) && (x == last + 8) then h else m1.word x)
  unfolding done link_last put
  done_word x ne = ground arith

  done_prev : done.word (h + 12) ≡ (if b.count == 0 then 0 else last)
  unfolding done link_last put
  done_prev = ground (arith, prev1)

  done_list : done.free_list ≡ (if b.count == 0 then h else m.free_list)
  unfolding done link_last
  done_list = ground (arith, list1)

  -- A field of another block.
  field :
      (i c : ℕ)
      → i < b.count
      → c < 32
      → (i + 1 ≢ b.count) ⊎ (c ≢ 8)
      → done.word (b.at i + c) ≡ m.word (b.at i + c)
  field i c li lc far =
      done_word (b.at i + c) (λ e. ground (arith, outside i c li lc))
      ∙ ground (
        arith,
        apart_fields b m f i (b.count - 1) c 8 li (omega arith) lc (omega arith)
            (elim far [ inl a ↦ inl (λ e. a (omega arith)) | inr d ↦ inr d ]),
      )
      ∙ word1 (b.at i + c) (outside i c li lc)

  last_link : (i : ℕ) → i < b.count → i + 1 ≡ b.count → done.word (b.at i + 8) ≡ h
  last_link i li e =
      let index : b.count - 1 ≡ i = omega arith in
      done_word (b.at i + 8) (λ q. ground (arith, outside i 8 li (omega arith)))
      ∙ ground (arith, ap b.at index)

  apart_last : (c : ℕ) → c < 32 → (b.count == 0) ≡ false → h + c ≢ last + 8
  apart_last c lc some_block e =
      ground (arith, outside (b.count - 1) 8 (ground arith) (omega arith))

  sized : (i : ℕ) → i < b.count + 1 → done.word ((appended h s b).at i) ≡ (appended h s b).size i
  sized i li = elim (Bool-cases (i == b.count)) [
    | inl e ↦
        rw e (done_word h (λ q. omega arith) ∙ ground (arith, apart_last 0 (omega arith), size1))
    | inr e ↦ rw e (
        ap done.word {x = b.at i} {y = b.at i + 0} (omega arith)
        ∙ field i 0 (ground arith) (omega arith) (inr (λ q. omega arith))
        ∙ ap m.word (omega arith)
        ∙ f.sized i (ground arith))
  ]

  next_of :
      (i : ℕ)
      → i < b.count + 1
      → done.word ((appended h s b).at i + 8) ≡ nth (appended h s b) (i + 1)
  next_of i li = elim (Bool-cases (i == b.count)) [
    | inl e ↦
        let past : ltb (i + 1) (b.count + 1) ≡ false = ground arith in
        rw (e, past)
          (done_word (h + 8) (λ q. omega arith) ∙ ground (arith, apart_last 8 (omega arith), next1))
    | inr e ↦ elim (Bool-cases (i + 1 == b.count)) [
      | inl q ↦
          let more : ltb (i + 1) (b.count + 1) ≡ true = ground arith in
          rw (e, more, q) (last_link i (ground arith) (ground arith))
      | inr q ↦
          let more : ltb (i + 1) (b.count + 1) ≡ true = ground arith in
          rw (e, more, q)
            (field i 8 (ground arith) (omega arith) (inl (λ r. ground arith))
              ∙ f.next i (ground arith)
              ∙ ground arith)
    ]
  ]

  prev_of :
      (i : ℕ) → i < b.count + 1 → done.word ((appended h s b).at i + 12) ≡ before (appended h s b) i
  prev_of i li = elim (Bool-cases (i == b.count)) [
    | inl e ↦ let same : i ≡ b.count = ground arith in rw (e, same) (done_prev ∙ ground arith)
    | inr e ↦ rw e (
        field i 12 (ground arith) (omega arith) (inr (λ q. omega arith))
        ∙ f.prev i (ground arith)
        ∙ ground arith)
  ]

  appended-IsFree : IsFree (appended h s b) done
  appended-IsFree = record {
    head = done_list ∙ ground (arith, f.head);
    nonzero = λ i li. ground (arith, f.nonzero i, ne);
    sized = sized;
    next = next_of;
    prev = prev_of;
    big = λ i li. ground (arith, f.big i);
    apart = λ i j li lj differ. ground (arith, f.apart i j, clear i, clear j);
  }

  linked :
      (fuel : ℕ)
      → b.count ≤ fuel
      → (if m1.free_list == 0
          then some (record m1 { free_list = h })
          else Option.map (link_last h m1) (last_from fuel m1.free_list m1.word))
        ≡ some done
  unfolding done
  linked fuel enough = elim (Bool-cases (b.count == 0)) [
    | inl e ↦ let head : m1.free_list ≡ 0 = list1 ∙ f.head ∙ ground arith in rw (head, e) refl
    | inr e ↦
        let some_block : 0 < b.count = ground arith in
        let head : m1.free_list ≡ b.at 0 = list1 ∙ f.head ∙ ground arith in
        let there : (b.at 0 == 0) ≡ false = ground (arith, f.nonzero 0 some_block) in
        rw
          (
            head,
            there,
            e,
            last_from-last b m m1.word fuel 0 f
                (λ j lj. word1 (b.at j + 8) (outside j 8 lj (omega arith)) ∙ f.next j lj) some_block
                (omega arith),
          )
          refl
  ]

  pub merge_none-IsFree :
      (fuel : ℕ)
      → b.count ≤ fuel
      → (m2 : Heap) × (merge_none fuel h m ≡ some m2) × IsFree (appended h s b) m2
  unfolding merge_none list_append m1
  merge_none-IsFree fuel enough = (done, linked fuel enough, appended-IsFree)

-- `kfree` of a block that is in no free block, when neither of its neighbours in memory has the
-- magic number, puts the block at the end of the free list, which stays well formed; more rounds
-- than free blocks are enough.
pub kfree-IsFree :
    (b : Blocks) (m : Heap) (fuel h : ℕ)
    → IsFree b m
    → b.count ≤ fuel
    → h ≢ 0
    → h + 16 < 2 ^ 32
    → 32 ≤ m.word h
    → ((i : ℕ) → i < b.count → (h + m.word h ≤ b.at i) ⊎ (b.at i + b.size i ≤ h))
    → is_valid h m ≡ true
    → has_prev h m && is_valid (prev_block h m) m ≡ false
    → has_next h m && is_valid (next_block h m) m ≡ false
    → (m2 : Heap) × (kfree fuel (h + 16) m ≡ some m2) × IsFree (appended h (m.word h) b) m2
unfolding kfree
kfree-IsFree b m fuel h f enough ne small least clear valid no_prev no_next =
    let index : (2 ^ 32 + (h + 16) - 16) % 2 ^ 32 ≡ h = omega arith in
    let there : (h + 16 == 0) ≡ false = ground arith in
    rw (index, there, valid, no_prev, no_next)
      (merge_none-IsFree b m f h (m.word h) refl ne least clear fuel enough)
