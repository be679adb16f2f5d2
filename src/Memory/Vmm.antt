-- ===== src/Memory/Vmm.antt =====
-- src/memory/vmm.cpp: address spaces. A space is the physical address of its page directory. The
-- kernel reaches a table by its physical address, since it maps that memory to itself.
pub mod Inv
pub mod Leaf
pub mod Table
pub mod Map
pub mod Entries
pub mod Rounds
pub mod Freed
pub mod Create
pub mod Spaces
pub mod Tests
use nemo_os.Base.{
  ℕ, zero, suc, ◌+◌, ◌*◌, ◌/◌, ◌%◌, ◌^◌, Bool, true, false, ◌&&◌, not, List, ◌∷◌, ◌==◌,
  if◌then◌else◌,
}
use nemo_os.Base.Int.{ℤ, pos, negsuc}
use nemo_os.Memory.Pmm.{Pmm, alloc_page, free_page}
use nemo_os.Memory.Words.{put, clear_words, copy_words}

-- The pages, memory, the registers CR3 and CR0, the static variable, and the addresses that `invlpg` has
-- dropped from the processor's buffer, the last first.
pub record Mmu : Type 0 where
  pub pmm : Pmm
  pub word : ℕ → ℕ
  pub cr3 : ℕ
  pub cr0 : ℕ
  pub kernel_space : ℕ
  pub invalidated : List ℕ

-- `entry & VMM_PRESENT`, `entry & VMM_USER` and `entry & 0xFFFFF000`.
abbrev pub is_present : ℕ → Bool
is_present e = e % 2 == 1

abbrev pub is_user_entry : ℕ → Bool
is_user_entry e = e / 4 % 2 == 1

abbrev pub frame_of : ℕ → ℕ
frame_of e = e / 4096 * 4096

abbrev pub pd_index : ℕ → ℕ
pd_index virt = virt / 2 ^ 22

abbrev pub pt_index : ℕ → ℕ
pt_index virt = virt / 4096 % 1024

-- `VMM_PRESENT | VMM_WRITABLE | VMM_USER`
abbrev pub table_flags : ℕ
table_flags = 7

pub vmm_init : Mmu → Mmu
vmm_init m = record m { kernel_space = m.cr3 }

pub vmm_get_kernel_space : Mmu → ℕ
vmm_get_kernel_space m = m.kernel_space

pub vmm_switch : ℕ → Mmu → Mmu
vmm_switch space m = record m { cr3 = space }

-- The first `if` of `vmm_map`: whether there is a table for the directory's entry `i`; a new one has
-- the flags `f`. A page's address has twelve zero bits, so that `|` of flags is `+`.
unfoldable pub ensure_table : ℕ → ℕ → ℕ → Mmu → Mmu × Bool
ensure_table space i f m =
    let (q, pt) = alloc_page m.pmm in
    let cleared = clear_words 1024 pt m.word in
    if is_present (m.word (space + 4 * i))
    then (m, true)
    else if pt == 0
    then (record m { pmm = q }, false)
    else (record m { pmm = q; word = put (space + 4 * i) (pt + f) cleared }, true)

-- `pt[pt_idx] = v`, and `invlpg` if the space is the current one.
unfoldable pub set_leaf : ℕ → ℕ → ℕ → Mmu → Mmu
set_leaf space virt v m =
    let pt = frame_of (m.word (space + 4 * pd_index virt)) in
    record m {
      word = put (pt + 4 * pt_index virt) v m.word;
      invalidated = if m.cr3 == space then virt ∷ m.invalidated else m.invalidated;
    }

unfoldable pub vmm_map : ℕ → ℕ → ℕ → ℕ → Mmu → Mmu × ℤ
vmm_map space virt phys flags m =
    let (m1, ok) = ensure_table space (pd_index virt) table_flags m in
    if ok then (set_leaf space virt (frame_of phys + flags % 4096) m1, pos 0) else (m1, negsuc 0)

unfoldable pub vmm_unmap : ℕ → ℕ → Mmu → Mmu × ℤ
vmm_unmap space virt m =
    if is_present (m.word (space + 4 * pd_index virt))
    then (set_leaf space virt 0 m, pos 0)
    else (m, pos 0)

-- One round of the loop of `vmm_create_space`; `false` if there is no page for a table.
unfoldable pub copy_entry : ℕ → ℕ → ℕ → Mmu → Mmu × Bool
copy_entry new current i m =
    let e = m.word (current + 4 * i) in
    let (q, pt) = alloc_page m.pmm in
    let copied = copy_words 1024 pt (frame_of e) m.word in
    if not (is_present e)
    then (record m { word = put (new + 4 * i) 0 m.word }, true)
    else if not (is_user_entry e)
    then (record m { word = put (new + 4 * i) e m.word }, true)
    else if pt == 0
    then (record m { pmm = q }, false)
    else (record m { pmm = q; word = put (new + 4 * i) (pt + e % 4096) copied }, true)

-- The loop that gives back the tables of a space that could not be completed, over its entries
-- from `j`, with `k` rounds left.
unfoldable pub free_copied : ℕ → ℕ → ℕ → (ℕ → ℕ) → Pmm → Pmm
free_copied zero j pd word p = p
free_copied (suc k) j pd word p =
    let e = word (pd + 4 * j) in
    free_copied k (j + 1) pd word (if is_user_entry e then free_page (frame_of e) p else p)

-- The loop of `vmm_create_space` from entry `i`, with `k` rounds left, and its two ends.
unfoldable pub copy_entries : ℕ → ℕ → ℕ → ℕ → Mmu → Mmu × ℕ
copy_entries zero i new current m = (m, new)
copy_entries (suc k) i new current m =
    let (m1, ok) = copy_entry new current i m in
    let rest = copy_entries k (i + 1) new current m1 in
    if ok then rest else (record m1 { pmm = free_page new (free_copied i 0 new m1.word m1.pmm) }, 0)

unfoldable pub vmm_create_space : Mmu → Mmu × ℕ
vmm_create_space m =
    let (q, new) = alloc_page m.pmm in
    let m1 = record m { pmm = q } in
    if new == 0 then (m1, 0) else copy_entries 1024 0 new m.kernel_space m1

-- The loop of `vmm_destroy_space`.
unfoldable pub free_tables : ℕ → ℕ → ℕ → (ℕ → ℕ) → Pmm → Pmm
free_tables zero i pd word p = p
free_tables (suc k) i pd word p =
    let e = word (pd + 4 * i) in
    free_tables k (i + 1) pd word
      (if is_present e && is_user_entry e then free_page (frame_of e) p else p)

unfoldable pub vmm_destroy_space : ℕ → Mmu → Mmu
vmm_destroy_space space m =
    if space == 0
    then m
    else record m { pmm = free_page space (free_tables 1024 0 space m.word m.pmm) }
