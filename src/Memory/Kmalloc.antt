-- ===== src/Memory/Kmalloc.antt =====
-- src/memory/kmalloc.cpp: the kernel heap. A block is named by the address of its header, whose
-- four words are `size`, `magic`, `next` and `prev`; the last word of a block repeats its size.
pub mod Kfree
pub mod Split
pub mod Remove
pub mod FreeList
pub mod Links
pub mod Take
pub mod Leave
pub mod Fit
pub mod Append
pub mod Start
pub mod Tests
use nemo_os.Base.{
  ℕ, zero, suc, ◌+◌, ◌-◌, ◌*◌, ◌/◌, ◌%◌, ◌^◌, Bool, true, false, Option, none, some, map, ltb, leb,
  ◌==◌, if◌then◌else◌, ◌>>=◌,
}
use nemo_os.Memory.Pmm.{Pmm, alloc_page, free_page}
use mathlib.Core.Option
use nemo_os.Memory.Words.{put, clear_words}

-- The pages, memory by words, and the static variables.
pub record Heap : Type 0 where
  pub pmm : Pmm
  pub word : ℕ → ℕ
  pub free_list : ℕ
  pub heap_end : ℕ

abbrev pub heap_magic : ℕ
heap_magic = 0xDEAD

abbrev pub min_block : ℕ
min_block = 32

abbrev pub heap_grow_bytes : ℕ
heap_grow_bytes = 64 * 1024

abbrev pub header_size : ℕ
header_size = 16

-- The addresses of a header's words, and `*a = v`.
abbrev pub magic_of : ℕ → ℕ
magic_of h = h + 4

abbrev pub next_of : ℕ → ℕ
next_of h = h + 8

abbrev pub prev_of : ℕ → ℕ
prev_of h = h + 12

abbrev pub store : ℕ → ℕ → Heap → Heap
store a v m = record m { word = put a v m.word }

unfoldable pub set_footer : ℕ → Heap → Heap
set_footer h m = store (h + m.word h - 4) (m.word h) m

-- `if(p) *(p + k) = v;`
abbrev pub store_if : ℕ → ℕ → ℕ → Heap → Heap
store_if p k v m = if p == 0 then m else store (p + k) v m

unfoldable pub list_remove : ℕ → Heap → Heap
list_remove h m =
    let m1 = store_if (m.word (prev_of h)) 8 (m.word (next_of h)) m in
    let m2 = store_if (m1.word (next_of h)) 12 (m1.word (prev_of h)) m1 in
    if m2.free_list == h then record m2 { free_list = m2.word (next_of h) } else m2

-- The loop of `list_append`; `none` is a loop that has not ended in the given number of rounds.
unfoldable pub last_from : ℕ → ℕ → (ℕ → ℕ) → Option ℕ
last_from zero last word = none
last_from (suc fuel) last word =
    let rest = last_from fuel (word (next_of last)) word in
    if word (next_of last) == 0 then some last else rest

-- The end of `list_append`, once the last block is found.
unfoldable pub link_last : ℕ → Heap → ℕ → Heap
link_last h m last = store (prev_of h) last (store (next_of last) h m)

unfoldable pub list_append : ℕ → ℕ → Heap → Option Heap
list_append fuel h m =
    let m1 = store (prev_of h) 0 (store (next_of h) 0 m) in
    if m1.free_list == 0
    then some (record m1 { free_list = h })
    else Option.map (link_last h m1) (last_from fuel m1.free_list m1.word)

-- A new block of `size` bytes, before it is linked.
abbrev pub new_block : ℕ → ℕ → Heap → Heap
new_block h size m = store (magic_of h) heap_magic (store h size m)

-- `false` is the PANIC.
unfoldable pub kmalloc_init : Heap → Heap × Bool
kmalloc_init m =
    let (q, initial) = alloc_page m.pmm in
    let m1 = record m { pmm = q; heap_end = initial + 4096 } in
    let m2 = set_footer initial (new_block initial 4096 m1) in
    let m3 = record m2 { free_list = initial } in
    if initial == 0
    then (record m { pmm = q }, false)
    else (store (prev_of initial) 0 (store (next_of initial) 0 m3), true)

-- The first loop of `heap_grow`, with `k` rounds left: are the pages contiguous?
unfoldable pub take_pages : ℕ → ℕ → ℕ → Pmm → Pmm × Bool
take_pages zero i first p = (p, true)
take_pages (suc k) i first p =
    let (q, page) = alloc_page p in
    let rest = take_pages k (i + 1) first q in
    if page == 0
    then (q, false)
    else if page == (first + i * 4096) % 2 ^ 32
    then rest
    else (free_page page q, false)

-- Its second loop, which makes a block of each page.
unfoldable pub add_pages : ℕ → ℕ → Heap → Option Heap
add_pages zero fuel m = some m
add_pages (suc k) fuel m =
    let (q, page) = alloc_page m.pmm in
    let m1 = record m { pmm = q; heap_end = page + 4096 } in
    let rest = (do
      m2 ← list_append fuel page (set_footer page (new_block page 4096 m1))
      add_pages k fuel m2) in
    if page == 0 then some (record m { pmm = q }) else rest

unfoldable pub heap_grow : ℕ → Heap → Option Heap
heap_grow fuel m =
    let (p1, first) = alloc_page m.pmm in
    let (p2, contiguous) = take_pages 15 1 first p1 in
    let m1 = record m { pmm = p2; heap_end = first + heap_grow_bytes } in
    if first == 0
    then some (record m { pmm = p1 })
    else if contiguous
    then list_append fuel first (set_footer first (new_block first heap_grow_bytes m1))
    else add_pages 16 fuel (record m { pmm = p2 })

-- `size` rounded up, with the header and the footer.
unfoldable pub needed_of : ℕ → ℕ
needed_of size =
    let needed = ((size + 7) % 2 ^ 32 / 8 * 8 + header_size + 4) % 2 ^ 32 in
    if ltb needed min_block then min_block else needed

-- The search of `kmalloc` from block `h`: the first that is large enough, 0 if there is none.
unfoldable pub find_fit : ℕ → ℕ → ℕ → (ℕ → ℕ) → Option ℕ
find_fit zero needed h word = none
find_fit (suc fuel) needed h word =
    let rest = find_fit fuel needed (word (next_of h)) word in
    if h == 0 then some 0 else if leb needed (word h) then some h else rest

-- Block `h` shrinks to `needed` bytes, and what is left takes its place in the list.
unfoldable pub split_block : ℕ → ℕ → Heap → Heap
split_block needed h m =
    let split = h + needed in
    let m1 = set_footer split (new_block split (m.word h - needed) m) in
    let m2 = store (next_of split) (m1.word (next_of h)) m1 in
    let m3 = store (prev_of split) (m2.word (prev_of h)) m2 in
    let m4 = store_if (m3.word (next_of h)) 12 split m3 in
    let m5 =
      if m4.word (prev_of h) == 0
      then record m4 { free_list = split }
      else store (next_of (m4.word (prev_of h))) split m4 in
    store h needed m5

-- What `kmalloc` does with the block that it has found.
unfoldable pub take_block : ℕ → ℕ → Heap → Heap × ℕ
take_block needed h m =
    let m1 =
      if leb min_block (m.word h - needed) then split_block needed h m else list_remove h m in
    let m2 = set_footer h m1 in
    let n = (m2.word h - header_size - 4) / 4 in
    (record m2 { word = clear_words n (h + header_size) m2.word }, h + header_size)

-- Without a large enough block the heap grows, once. `none` is a list whose end is not found in the
-- given number of rounds.
unfoldable pub kmalloc : ℕ → ℕ → Heap → Option (Heap × ℕ)
kmalloc fuel size m =
    let needed = needed_of size in
    let grown = (do
      m1 ← heap_grow fuel m
      h ← find_fit fuel needed m1.free_list m1.word
      some (if h == 0 then (m1, 0) else take_block needed h m1)) in
    if size == 0 then some (m, 0) else do
      h ← find_fit fuel needed m.free_list m.word
      if h == 0 then grown else some (take_block needed h m)
