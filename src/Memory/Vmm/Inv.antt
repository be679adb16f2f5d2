-- ===== src/Memory/Vmm/Inv.antt =====
-- src/memory/vmm.cpp: what the processor reads in a space, and when a space is well formed.
use nemo_os.Base.{ℕ, ◌+◌, ◌*◌, ◌/◌, ◌%◌, ◌<◌, ◌≡◌, ◌≢◌, true, Option, none, some, if◌then◌else◌}
use nemo_os.Memory.Pmm.{Pmm}
use nemo_os.Memory.Pmm.Inv.{is_used, IsValid}
use nemo_os.Memory.Vmm.{is_present, frame_of, pd_index, pt_index}

-- The entry of the last table on the processor's walk for an address, 0 where there is no table.
unfoldable pub leaf : (ℕ → ℕ) → ℕ → ℕ → ℕ
leaf word space virt =
    let e = word (space + 4 * pd_index virt) in
    if is_present e then word (frame_of e + 4 * pt_index virt) else 0

-- Address translation: `none` is a page fault.
unfoldable pub translate : (ℕ → ℕ) → ℕ → ℕ → Option ℕ
translate word space virt =
    let e = leaf word space virt in if is_present e then some (frame_of e + virt % 4096) else none

-- The directory and the tables are pages in use, all different.
pub record IsSpace (p : Pmm) (word : ℕ → ℕ) (space : ℕ) : Type 0 where
  pub aligned : space % 4096 ≡ 0
  pub live : is_used p (space / 4096) ≡ true
  pub table_live :
      (i : ℕ)
      → i < 1024
      → is_present (word (space + 4 * i)) ≡ true
      → is_used p (word (space + 4 * i) / 4096) ≡ true
  pub apart :
      (i : ℕ)
      → i < 1024
      → is_present (word (space + 4 * i)) ≡ true
      → frame_of (word (space + 4 * i)) ≢ space
  pub distinct :
      (i j : ℕ)
      → i < 1024
      → j < 1024
      → i ≢ j
      → is_present (word (space + 4 * i)) ≡ true
      → is_present (word (space + 4 * j)) ≡ true
      → frame_of (word (space + 4 * i)) ≢ frame_of (word (space + 4 * j))

-- The page at address 0, which `nullptr` names, is in use, as `pmm_init` leaves it.
pub record IsReady (p : Pmm) : Type 0 where
  pub valid : IsValid p
  pub null_used : is_used p 0 ≡ true

-- The pages in use in `p` are so in `q`.
abbrev pub Grows : Pmm → Pmm → Type 0
Grows p q = ((j : ℕ) → is_used p j ≡ true → is_used q j ≡ true) × (q.total_pages ≡ p.total_pages)
