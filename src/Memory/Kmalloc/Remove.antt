-- ===== src/Memory/Kmalloc/Remove.antt =====
-- src/memory/kmalloc.cpp: what `list_remove` writes, and the end of `kmalloc`.
use nemo_os.Base.{
  ℕ, ◌+◌, ◌-◌, ◌*◌, ◌/◌, ◌≤◌, ◌<◌, ◌≡◌, ◌⊎◌, refl, ◌∙◌, inl, ◌&&◌, not, arith, ◌==◌, if◌then◌else◌,
}
use nemo_os.Memory.Words.{put, clear_words, clear_words-outside, clear_words-inside}
use nemo_os.Memory.Kmalloc.{Heap, store_if, list_remove, set_footer, next_of, prev_of}

module _ (h next prev : ℕ) (m : Heap) (next_h : m.word (h + 8) ≡ next)
    (prev_h : m.word (h + 12) ≡ prev)
    (next_apart : (next ≡ 0) ⊎ ((next + 32 ≤ h) ⊎ (h + 32 ≤ next)))
    (prev_apart : (prev ≡ 0) ⊎ ((prev + 32 ≤ h) ⊎ (h + 32 ≤ prev))) where
  m1 : Heap
  m1 = store_if (m.word (prev_of h)) 8 (m.word (next_of h)) m

  word1 : (x : ℕ) → m1.word x ≡ (if not (prev == 0) && (x == prev + 8) then next else m.word x)
  unfolding m1 put
  word1 x = rw (prev_h, next_h) (ground arith)

  next1 : m1.word (h + 8) ≡ next
  next1 = ground (arith, word1 (h + 8), next_h)

  prev1 : m1.word (h + 12) ≡ prev
  prev1 = ground (arith, word1 (h + 12), prev_h)

  m2 : Heap
  m2 = store_if (m1.word (next_of h)) 12 (m1.word (prev_of h)) m1

  word2 : (x : ℕ) → m2.word x ≡ (if not (next == 0) && (x == next + 12) then prev else m1.word x)
  unfolding m2 put
  word2 x = rw (next1, prev1) (ground arith)

  list2 : m2.free_list ≡ m.free_list
  unfolding m2 m1
  list2 = rw (next1, prev1, prev_h, next_h) (ground arith)

  next2 : m2.word (h + 8) ≡ next
  next2 = ground (arith, word2 (h + 8), next1)

  final :
      list_remove h m
      ≡ (if m2.free_list == h then record m2 { free_list = m2.word (next_of h) } else m2)
  unfolding list_remove m1 m2
  final = refl

  pub list_remove-word :
      (x : ℕ)
      → (list_remove h m).word x ≡ (
          if not (next == 0) && (x == next + 12)
          then prev
          else if not (prev == 0) && (x == prev + 8)
          then next
          else m.word x)
  list_remove-word x = rw final (ground (arith, word2 x, word1 x))

  pub list_remove-list :
      (list_remove h m).free_list ≡ (if m.free_list == h then next else m.free_list)
  list_remove-list = rw final (ground (arith, list2, next2))

-- The end of `kmalloc`.
abbrev pub end_block : ℕ → Heap → Heap
end_block h m =
    let m2 = set_footer h m in
    record m2 { word = clear_words ((m2.word h - 16 - 4) / 4) (h + 16) m2.word }

-- The footer and the cleared bytes stay inside the block.
module _ (h len : ℕ) (m : Heap) (size_h : m.word h ≡ len) (least : 32 ≤ len) where
  footer : (x : ℕ) → (x < h + 16) ⊎ (h + len ≤ x) → (set_footer h m).word x ≡ m.word x
  unfolding set_footer put
  footer x side = ground (arith, size_h)

  pub end_block-word : (x : ℕ) → (x < h + 16) ⊎ (h + len ≤ x) → (end_block h m).word x ≡ m.word x
  end_block-word x side =
      clear_words-outside (((set_footer h m).word h - 16 - 4) / 4) (h + 16) x (set_footer h m).word
        (ground (arith, footer h (inl (omega arith)), size_h))
      ∙ footer x side

  pub end_block-list : (end_block h m).free_list ≡ m.free_list
  unfolding set_footer
  end_block-list = refl

  -- The bytes for the caller are cleared.
  pub end_block-zeroed : (j : ℕ) → j < (len - 20) / 4 → (end_block h m).word (h + 16 + 4 * j) ≡ 0
  end_block-zeroed j lt =
      clear_words-inside (((set_footer h m).word h - 16 - 4) / 4) (h + 16) j (set_footer h m).word
        (ground (arith, footer h (inl (omega arith)), size_h))
