-- ===== src/Memory/Pmm.antt =====
-- src/memory/pmm_bitmap.cpp: physical pages, one bit each. A page is named by its address, and 0
-- is `nullptr`. The children prove what the operations do.
pub mod Bitmap
pub mod Count
pub mod Inv
pub mod Alloc
pub mod Free
pub mod Init
pub mod Tests
use nemo_os.Base.{
  ℕ, zero, suc, ◌+◌, ◌-◌, ◌*◌, ◌/◌, ◌%◌, ◌^◌, Bool, List, map, ltb, if◌then◌else◌, get_or, set,
}
use nemo_os.Base.Bits.{test_in, set_in, clear_in}

abbrev pub page_size : ℕ
page_size = 4096

-- MAX_RAM_MB * 1024 * 1024 / PAGE_SIZE
abbrev pub max_pages : ℕ
max_pages = 262144

abbrev pub reserved_pages : ℕ
reserved_pages = 1024

-- The static variables. A byte out of bounds reads as 0 and a write there is lost; `IsValid`
-- rules both out.
pub record Pmm : Type 0 where
  pub bitmap : List ℕ
  pub total_pages : ℕ
  pub used_pages : ℕ

unfoldable pub set_bit : ℕ → List ℕ → List ℕ
set_bit bit bitmap = set bitmap (bit / 8) (set_in (get_or bitmap (bit / 8) 0) (bit % 8))

pub clear_bit : ℕ → List ℕ → List ℕ
clear_bit bit bitmap = set bitmap (bit / 8) (clear_in (get_or bitmap (bit / 8) 0) (bit % 8))

unfoldable pub test_bit : ℕ → List ℕ → Bool
test_bit bit bitmap = test_in (get_or bitmap (bit / 8) 0) (bit % 8)

-- The second loop of `pmm_init`, with `k` rounds left.
pub set_bits_from : ℕ → ℕ → List ℕ → List ℕ
set_bits_from zero i bitmap = bitmap
set_bits_from (suc k) i bitmap = set_bits_from k (i + 1) (set_bit i bitmap)

-- `memory_mb * 1024 * 1024` is a product of 32 bits.
pub total_of : ℕ → ℕ
total_of memory_mb = memory_mb * 1024 * 1024 % 2 ^ 32 / page_size

pub init : ℕ → Pmm → Pmm
unfolding total_of set_bits_from
init memory_mb p =
    let total = total_of memory_mb in
    let used = if ltb total reserved_pages then total else reserved_pages in
    record {
      bitmap = set_bits_from used 0 (map (λ _. 0) p.bitmap);
      total_pages = total;
      used_pages = used;
    }

-- The state when the loop of `pmm_alloc_page` takes page `i`.
unfoldable pub take_page : ℕ → Pmm → Pmm
take_page i p = record p { bitmap = set_bit i p.bitmap; used_pages = (p.used_pages + 1) % 2 ^ 32 }

-- The loop of `pmm_alloc_page` from page `i`, with `k` rounds left.
unfoldable pub alloc_from : ℕ → ℕ → Pmm → Pmm × ℕ
unfolding take_page
alloc_from zero i p = (p, 0)
alloc_from (suc k) i p =
    let rest = alloc_from k (i + 1) p in
    if test_bit i p.bitmap then rest else (take_page i p, i * page_size % 2 ^ 32)

unfoldable pub alloc_page : Pmm → Pmm × ℕ
unfolding alloc_from
alloc_page p = alloc_from p.total_pages 0 p

pub free_page : ℕ → Pmm → Pmm
free_page page p =
    let index = page / page_size in
    if ltb index p.total_pages
    then if test_bit index p.bitmap
      then record p {
        bitmap = clear_bit index p.bitmap;
        used_pages = (2 ^ 32 + p.used_pages - 1) % 2 ^ 32;
      }
      else p
    else p

pub free_pages : Pmm → ℕ
free_pages p = (2 ^ 32 + p.total_pages - p.used_pages) % 2 ^ 32
