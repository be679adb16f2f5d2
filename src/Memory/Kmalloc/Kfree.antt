-- ===== src/Memory/Kmalloc/Kfree.antt =====
-- src/memory/kmalloc.cpp: `kfree`.
use nemo_os.Base.{ℕ, ◌+◌, ◌-◌, ◌%◌, ◌^◌, Bool, ◌&&◌, not, Option, some, ltb, ◌==◌, if◌then◌else◌}
use nemo_os.Memory.Kmalloc.{
  Heap, heap_magic, heap_grow_bytes, header_size, magic_of, store, set_footer, list_remove,
  list_append,
}

-- `prev_block`, `next_block`, `has_prev` and `has_next`.
abbrev pub prev_block : ℕ → Heap → ℕ
prev_block h m = (2 ^ 32 + h - m.word (h - 4)) % 2 ^ 32

abbrev pub next_block : ℕ → Heap → ℕ
next_block h m = (h + m.word h) % 2 ^ 32

abbrev pub has_prev : ℕ → Heap → Bool
has_prev h m = ltb ((2 ^ 32 + m.heap_end - heap_grow_bytes) % 2 ^ 32) h

abbrev pub has_next : ℕ → Heap → Bool
has_next h m = ltb (next_block h m) m.heap_end

abbrev pub is_valid : ℕ → Heap → Bool
is_valid h m = m.word (magic_of h) == heap_magic

-- The four ends of `kfree`.
unfoldable pub merge_both : ℕ → ℕ → Heap → Option Heap
merge_both fuel h m =
    let p = prev_block h m in
    let n = next_block h m in
    let m1 = list_remove n (list_remove p m) in
    list_append fuel p (set_footer p (store p (m1.word p + (m1.word h + m1.word n)) m1))

unfoldable pub merge_prev : ℕ → Heap → Heap
merge_prev h m =
    let p = prev_block h m in
    let m1 = list_remove p m in set_footer p (store p (m1.word p + m1.word h) m1)

unfoldable pub merge_next : ℕ → ℕ → Heap → Option Heap
merge_next fuel h m =
    let n = next_block h m in
    let m1 = list_remove n m in
    list_append fuel h (set_footer h (store h (m1.word h + m1.word n) m1))

unfoldable pub merge_none : ℕ → ℕ → Heap → Option Heap
merge_none fuel h m = list_append fuel h (set_footer h (store (magic_of h) heap_magic m))

unfoldable pub kfree : ℕ → ℕ → Heap → Option Heap
kfree fuel ptr m =
    let h = (2 ^ 32 + ptr - header_size) % 2 ^ 32 in
    let with_prev = has_prev h m && is_valid (prev_block h m) m in
    let with_next = has_next h m && is_valid (next_block h m) m in
    if ptr == 0
    then some m
    else if not (is_valid h m)
    then some m
    else if with_prev && with_next
    then merge_both fuel h m
    else if with_prev
    then some (merge_prev h m)
    else if with_next
    then merge_next fuel h m
    else merge_none fuel h m
