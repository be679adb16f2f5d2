-- ===== src/Memory/Paging.antt =====
-- src/memory/paging.cpp: the kernel's own page directory. The addresses of the static arrays
-- `page_directory` and `boot_page_table` are arguments.
pub mod Page
pub mod Identity
pub mod Boot
pub mod Tests
use nemo_os.Base.{
  ℕ, zero, suc, ◌+◌, ◌*◌, ◌/◌, ◌%◌, ◌^◌, Bool, true, false, Option, none, some, ◌∷◌, map, ltb, ◌==◌,
  if◌then◌else◌,
}
use mathlib.Core.Option
use nemo_os.Memory.Words.{put, clear_words}
use nemo_os.Memory.Vmm.{Mmu, frame_of, pd_index, pt_index, ensure_table}

-- `pt[pt_idx] = v`
unfoldable pub put_leaf : ℕ → ℕ → ℕ → Mmu → Mmu
put_leaf dir virt v m =
    let pt = frame_of (m.word (dir + 4 * pd_index virt)) in
    record m { word = put (pt + 4 * pt_index virt) v m.word }

unfoldable pub paging_map_page : ℕ → ℕ → ℕ → ℕ → Mmu → Mmu
paging_map_page dir virt phys flags m =
    let (m1, ok) = ensure_table dir (pd_index virt) (flags % 4096 / 2 * 2 + 1) m in
    let m2 = put_leaf dir virt (frame_of phys + flags % 4096) m1 in
    if ok then record m2 { invalidated = virt ∷ m2.invalidated } else m1

-- The loop of `paging_map_identity` from `addr`; `none` is a loop that has not ended in the given
-- number of rounds.
unfoldable pub map_from : ℕ → ℕ → ℕ → ℕ → ℕ → Mmu → Option Mmu
map_from zero dir addr phys_end flags m = if ltb addr phys_end then none else some m
map_from (suc fuel) dir addr phys_end flags m =
    let m1 = paging_map_page dir addr addr flags m in
    let rest = map_from fuel dir ((addr + 0x1000) % 2 ^ 32) phys_end flags m1 in
    if ltb addr phys_end then rest else some m

unfoldable pub paging_map_identity : ℕ → ℕ → ℕ → ℕ → ℕ → Mmu → Option Mmu
paging_map_identity fuel dir phys_start phys_end flags m =
    map_from fuel dir (frame_of phys_start) (frame_of ((phys_end + 0xFFF) % 2 ^ 32)) flags m

-- One round of the last loop of `paging_init`; `false` is its PANIC. `addr` is a page's address, so
-- that `|` of flags is `+`.
unfoldable pub init_page : ℕ → ℕ → Mmu → Mmu × Bool
init_page dir addr m =
    let (m1, ok) = ensure_table dir (pd_index addr) 3 m in
    if ok then (put_leaf dir addr (addr + 3) m1, true) else (m1, false)

unfoldable pub init_from : ℕ → ℕ → ℕ → ℕ → Mmu → Option (Mmu × Bool)
init_from zero dir addr end_addr m = if ltb addr end_addr then none else some (m, true)
init_from (suc fuel) dir addr end_addr m =
    let (m1, ok) = init_page dir addr m in
    let rest = init_from fuel dir ((addr + 0x1000) % 2 ^ 32) end_addr m1 in
    if ltb addr end_addr then if ok then rest else some (m1, false) else some (m, true)

-- The loop that fills `boot_page_table`, from entry `i`, with `k` rounds left.
unfoldable pub fill_boot : ℕ → ℕ → ℕ → (ℕ → ℕ) → ℕ → ℕ
fill_boot zero i boot word = word
fill_boot (suc k) i boot word = fill_boot k (i + 1) boot (put (boot + 4 * i) (i * 0x1000 + 3) word)

abbrev pub end_of : ℕ → ℕ
end_of total_memory_mb =
    let total_mb = if total_memory_mb == 0 then 32 else total_memory_mb in
    total_mb * 1024 * 1024 % 2 ^ 32

-- The directory before the last loop.
unfoldable pub first_tables : ℕ → ℕ → (ℕ → ℕ) → ℕ → ℕ
first_tables dir boot word = put dir (boot + 3) (clear_words 1024 dir (fill_boot 1024 0 boot word))

-- `mov cr3` and `cr0 |= 0x80000000`, which a PANIC does not reach.
unfoldable pub enable : ℕ → Mmu × Bool → Mmu × Bool
enable dir (m, ok) =
    if ok
    then (
      record m { cr3 = dir; cr0 = if m.cr0 / 2 ^ 31 % 2 == 1 then m.cr0 else m.cr0 + 2 ^ 31 },
      true,
    )
    else (m, false)

unfoldable pub paging_init : ℕ → ℕ → ℕ → ℕ → Mmu → Option (Mmu × Bool)
paging_init fuel dir boot total_memory_mb m =
    let m1 = record m { word = first_tables dir boot m.word } in
    Option.map (enable dir) (init_from fuel dir 0x400000 (end_of total_memory_mb) m1)
