-- ===== src/Memory/Kmalloc/Tests.antt =====
-- Runs of kmalloc.cpp, and its theorems at concrete heaps.
use nemo_os.Base.{
  ℕ, ◌≤◌, ◌<◌, ◌≡◌, ◌⊎◌, refl, ◌||◌, Option, some, List, [], ◌∷◌, arith, ◌==◌, if◌then◌else◌, ◌>>=◌,
}
use nemo_os.Memory.Pmm.Tests.{dozen}
use nemo_os.Memory.Kmalloc.{
  Heap, needed_of, kmalloc, find_fit, take_block, set_footer, split_block, list_remove, list_append,
}
use nemo_os.Memory.Kmalloc.Kfree.{kfree, merge_next, merge_prev}
use nemo_os.Memory.Kmalloc.FreeList.{Blocks, IsFree}
use nemo_os.Memory.Words.{put, clear_words}
use mathlib.Core.Option
use nemo_os.Memory.Kmalloc.Fit.{Served, kmalloc-Served}
use nemo_os.Memory.Kmalloc.Append.{appended, kfree-IsFree}
use nemo_os.Memory.Kmalloc.Start.{one_page}

-- Nothing but the pages.
abbrev no_heap : Heap
no_heap = record { pmm = dozen; word = λ _. 0; free_list = 0; heap_end = 0 }

-- One free page, at the address 0x3000.
abbrev page_word : ℕ → ℕ
page_word a = if a == 0x3000 then 4096 else if a == 0x3004 then 0xDEAD else 0

abbrev page_heap : Heap
page_heap = record { pmm = dozen; word = page_word; free_list = 0x3000; heap_end = 0x4000 }

page_heap-IsFree : IsFree (one_page 0x3000) page_heap
page_heap-IsFree = record {
  head = refl;
  nonzero = λ i li e. omega arith;
  sized = λ i li. refl;
  next = λ i li. ground arith;
  prev = λ i li. ground arith;
  big = λ i li. omega arith;
  apart = λ i j li lj ne. absurd (ne (omega arith));
}

kmalloc-Served_example :
    (30 ≤ needed_of 10)
    × (((r : Heap × ℕ) × (kmalloc 2 10 page_heap ≡ some r)
          × Served (one_page 0x3000) (needed_of 10) page_heap r)
        ⊎ ((j : ℕ) → j < 1 → 4096 < needed_of 10))
kmalloc-Served_example =
    kmalloc-Served (one_page 0x3000) page_heap 2 10 page_heap-IsFree (λ e. omega arith)
      (omega arith) (omega arith)

-- A heap with no free block and a block of 64 bytes that is in use.
abbrev used_word : ℕ → ℕ
used_word a = if a == 0x3000 then 64 else if a == 0x3004 then 0xDEAD else 0

abbrev used_heap : Heap
used_heap = record { pmm = dozen; word = used_word; free_list = 0; heap_end = 0x3040 }

abbrev no_blocks : Blocks
no_blocks = record { count = 0; at = λ _. 0; size = λ _. 0 }

no_blocks-IsFree : IsFree no_blocks used_heap
no_blocks-IsFree = record {
  head = refl;
  nonzero = λ i li. absurd (omega arith);
  sized = λ i li. absurd (omega arith);
  next = λ i li. absurd (omega arith);
  prev = λ i li. absurd (omega arith);
  big = λ i li. absurd (omega arith);
  apart = λ i j li. absurd (omega arith);
}

kfree-IsFree_example :
    (m2 : Heap) × (kfree 0 0x3010 used_heap ≡ some m2) × IsFree (appended 0x3000 64 no_blocks) m2
kfree-IsFree_example =
    kfree-IsFree no_blocks used_heap 0 0x3000 no_blocks-IsFree (omega arith) (λ e. omega arith)
      (omega arith) (omega arith) (λ i li. absurd (omega arith)) refl refl refl

-- A heap of 96 bytes gives three blocks of 32. After `kfree` of the first, 44 bytes at its address
-- cover the second, which is still in use: its magic number was never cleared.
abbrev row_word : ℕ → ℕ
row_word a = if a == 0x3000 then 96 else if a == 0x3004 then 0xDEAD else 0

abbrev row_heap : Heap
row_heap = record { pmm = dozen; word = row_word; free_list = 0x3000; heap_end = 0x3060 }

abbrev overlap : Option (List ℕ)
overlap = do
  r1 ← kmalloc 4 8 row_heap
  r2 ← kmalloc 4 8 r1.0
  r3 ← kmalloc 4 8 r2.0
  m4 ← kfree 4 r1.1 r3.0
  r5 ← kmalloc 4 40 m4
  some (r1.1 ∷ r2.1 ∷ r3.1 ∷ r5.1 ∷ r5.0.word 0x3000 ∷ [])

live_block_given_twice : overlap ≡ some (0x3010 ∷ 0x3030 ∷ 0x3050 ∷ 0x3010 ∷ 64 ∷ [])
unfolding kmalloc kfree find_fit needed_of take_block set_footer split_block put clear_words
    list_remove merge_next list_append
live_block_given_twice = refl

-- A size whose rounding wraps gets a block of 32 bytes.
wrapped : needed_of 0xFFFFFFFC ≡ 32
unfolding needed_of
wrapped = refl

-- Block 0x10040 is freed behind the free block 0x10020: the two are joined, and the free list is
-- empty.
abbrev pair_word : ℕ → ℕ
pair_word a =
    if (a == 0x10020) || ((a == 0x1003C) || (a == 0x10040))
    then 32
    else if (a == 0x10024) || (a == 0x10044)
    then 0xDEAD
    else 0

abbrev pair_heap : Heap
pair_heap = record { pmm = dozen; word = pair_word; free_list = 0x10020; heap_end = 0x10060 }

joined_block_lost :
    Option.map (λ (m : Heap). m.word 0x10020 ∷ m.free_list ∷ []) (kfree 4 0x10050 pair_heap)
    ≡ some (64 ∷ 0 ∷ [])
unfolding kfree merge_prev list_remove set_footer put
joined_block_lost = refl
