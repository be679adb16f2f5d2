-- ===== src/Memory/Pmm/Tests.antt =====
-- Runs of pmm_bitmap.cpp, and its theorems at concrete states.
use nemo_os.Base.{
  ℕ, zero, suc, ◌+◌, ◌*◌, ◌≡◌, refl, ◌&&◌, not, [], ◌∷◌, arith, ◌==◌, if◌then◌else◌, length,
  replicate,
}
use nemo_os.Memory.Pmm.{Pmm, alloc_page, free_page}
use nemo_os.Memory.Pmm.{set_bit, test_bit}
use nemo_os.Base.Bits.{test_in, set_in}
use nemo_os.Memory.Pmm.Count.{count_below}
use nemo_os.Memory.Pmm.Bitmap.{AreBytes}
use nemo_os.Memory.Pmm.Inv.{IsValid, is_used}
use nemo_os.Memory.Pmm.Alloc.{Allocated, alloc_page-Allocated}
use nemo_os.Memory.Pmm.Free.{is_live, free_page_lem}

-- Twelve pages, of which 0, 1, 2, 4 and 8 are used.
abbrev pub dozen : Pmm
dozen = record { bitmap = 23 ∷ 1 ∷ []; total_pages = 12; used_pages = 5 }

dozen-AreBytes : AreBytes dozen.bitmap
dozen-AreBytes zero = omega arith
dozen-AreBytes (suc zero) = omega arith
dozen-AreBytes (suc (suc i)) = omega arith

pub dozen-IsValid : IsValid dozen
unfolding test_bit test_in count_below
dozen-IsValid = record {
  bytes = dozen-AreBytes;
  fits = omega arith;
  small = omega arith;
  counted = refl;
}

third_is_free : alloc_page dozen ≡ (record dozen { bitmap = 31 ∷ 1 ∷ []; used_pages = 6 }, 3 * 4096)
unfolding alloc_page set_bit test_bit test_in set_in
third_is_free = refl

alloc_page-Allocated_example : Allocated dozen (alloc_page dozen)
alloc_page-Allocated_example = alloc_page-Allocated dozen-IsValid

-- Page 4 is freed through an address inside it.
free_page_lem_example :
    let q = free_page 0x4010 dozen in
    IsValid q
    × (q.total_pages ≡ 12)
    × (q.used_pages + (if is_live dozen 0x4010 then 1 else 0) ≡ 5)
    × ((j : ℕ) → is_used q j ≡ (not (is_live dozen 0x4010 && (4 == j)) && is_used dozen j))
free_page_lem_example = free_page_lem dozen dozen-IsValid 0x4010

-- The static bitmap, before `pmm_init`.
abbrev blank : Pmm
blank = record { bitmap = replicate 32768 0; total_pages = 0; used_pages = 0 }

blank_size : length blank.bitmap ≡ 32768
blank_size = refl
