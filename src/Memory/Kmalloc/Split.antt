-- ===== src/Memory/Kmalloc/Split.antt =====
-- src/memory/kmalloc.cpp: what the split of a block in `kmalloc` writes.
use nemo_os.Base.{
  ℕ, ◌+◌, ◌-◌, ◌≤◌, ◌<◌, ◌≡◌, ◌⊎◌, refl, inl, false, ◌&&◌, not, arith, ◌==◌, if◌then◌else◌,
}
use nemo_os.Memory.Words.{put, put_self}
use nemo_os.Memory.Kmalloc.{
  Heap, new_block, set_footer, store, store_if, prev_of, split_block, next_of,
}

-- One write after another, each read of the header `h` being of the words that `m` has.
module _ (needed h s next prev : ℕ) (m : Heap) (size_h : m.word h ≡ s)
    (next_h : m.word (h + 8) ≡ next) (prev_h : m.word (h + 12) ≡ prev) (least : 32 ≤ needed)
    (room : needed + 32 ≤ s) (next_apart : (next ≡ 0) ⊎ ((next + 32 ≤ h) ⊎ (h + s ≤ next)))
    (prev_apart : (prev ≡ 0) ⊎ ((prev + 32 ≤ h) ⊎ (h + s ≤ prev))) where
  abbrev split : ℕ
  split = h + needed

  m1 : Heap
  m1 = set_footer split (new_block split (m.word h - needed) m)

  word1 : (x : ℕ) → (x < split) ⊎ (h + s ≤ x) → m1.word x ≡ m.word x
  unfolding m1 set_footer put
  word1 x side = ground (arith, size_h)

  size1 : m1.word split ≡ s - needed
  unfolding m1 set_footer put
  size1 = ground (arith, size_h)

  m2 : Heap
  m2 = store (next_of split) (m1.word (next_of h)) m1

  word2 : (x : ℕ) → m2.word x ≡ (if x == split + 8 then next else m1.word x)
  unfolding m2 put
  word2 x = rw (word1 (h + 8) (inl (omega arith)), next_h) (ground arith)

  m3 : Heap
  m3 = store (prev_of split) (m2.word (prev_of h)) m2

  word3 : (x : ℕ) → m3.word x ≡ (if x == split + 12 then prev else m2.word x)
  unfolding m3 put
  word3 x =
      let other : (h + 12 == split + 8) ≡ false = ground arith in
      rw (word2 (h + 12), other, word1 (h + 12) (inl (omega arith)), prev_h) (ground arith)

  same3 : (x : ℕ) → (x < split) ⊎ (h + s ≤ x) → m3.word x ≡ m.word x
  same3 x side = ground (arith, word3 x, word2 x, word1 x side)

  m4 : Heap
  unfolding m3
  m4 = store_if (m3.word (next_of h)) 12 split m3

  word4 : (x : ℕ) → m4.word x ≡ (if not (next == 0) && (x == next + 12) then split else m3.word x)
  unfolding m4 put
  word4 x = rw (same3 (h + 8) (inl (omega arith)), next_h) (ground arith)

  prev4 : m4.word (h + 12) ≡ prev
  prev4 = ground (arith, word4 (h + 12), same3 (h + 12) (inl (omega arith)), prev_h)

  m5 : Heap
  m5 =
      if m4.word (prev_of h) == 0
      then record m4 { free_list = split }
      else store (next_of (m4.word (prev_of h))) split m4

  word5 : (x : ℕ) → m5.word x ≡ (if not (prev == 0) && (x == prev + 8) then split else m4.word x)
  unfolding m5 put
  word5 x = rw prev4 (ground arith)

  list5 : m5.free_list ≡ (if prev == 0 then split else m.free_list)
  unfolding m5 m4 m3 m2 m1 set_footer
  list5 = rw prev4 (ground arith)

  final : split_block needed h m ≡ store h needed m5
  unfolding split_block m1 m2 m3 m4 m5
  final = refl

  -- Every word after the split.
  pub split_block-word :
      (x : ℕ)
      → (x < h) ⊎ (h + s ≤ x)
      → (split_block needed h m).word x ≡ (
          if not (prev == 0) && (x == prev + 8)
          then split
          else if not (next == 0) && (x == next + 12)
          then split
          else m.word x)
  unfolding put
  split_block-word x side = rw final (ground (arith, word5 x, word4 x, same3 x (ground arith)))

  pub split_block-list :
      (split_block needed h m).free_list ≡ (if prev == 0 then split else m.free_list)
  split_block-list = rw final list5

  -- The header of what is left, and that of the block.
  pub split_block-size : (split_block needed h m).word split ≡ s - needed
  unfolding put
  split_block-size =
      rw final (ground (arith, word5 split, word4 split, word3 split, word2 split, size1))

  pub split_block-next : (split_block needed h m).word (split + 8) ≡ next
  unfolding put
  split_block-next =
      rw final
        (ground (arith, word5 (split + 8), word4 (split + 8), word3 (split + 8), word2 (split + 8)))

  pub split_block-prev : (split_block needed h m).word (split + 12) ≡ prev
  unfolding put
  split_block-prev =
      rw final (ground (arith, word5 (split + 12), word4 (split + 12), word3 (split + 12)))

  pub split_block-here : (split_block needed h m).word h ≡ needed
  split_block-here = rw final (put_self h needed m5.word)
