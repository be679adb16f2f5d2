-- ===== src/Memory/Pmm/Inv.antt =====
-- The invariant of pmm_bitmap.cpp, and what it says of the three queries.
use nemo_os.Base.{ℕ, ◌+◌, ◌*◌, ◌≤◌, ◌≡◌, Bool, arith, length}
use nemo_os.Memory.Pmm.{Pmm, max_pages, test_bit, free_pages}
use nemo_os.Memory.Pmm.Bitmap.{AreBytes}
use nemo_os.Memory.Pmm.Count.{count_below, count_below-le}

-- Is page `i` marked as used?
abbrev pub is_used : Pmm → ℕ → Bool
is_used p i = test_bit i p.bitmap

pub record IsValid (p : Pmm) : Type 0 where
  pub bytes : AreBytes p.bitmap
  pub fits : p.total_pages ≤ 8 * length p.bitmap
  pub small : p.total_pages ≤ max_pages
  pub counted : p.used_pages ≡ count_below (is_used p) p.total_pages

pub used-le-total : (p : Pmm) → IsValid p → p.used_pages ≤ p.total_pages
used-le-total p v = omega (arith, v.counted, count_below-le (is_used p) p.total_pages)

-- In a valid state `pmm_free_pages` does not wrap: the free and the used pages make up the total.
pub free_pages-add-used : {p : Pmm} → IsValid p → free_pages p + p.used_pages ≡ p.total_pages
unfolding free_pages
free_pages-add-used {p} v = omega (arith, v.small, used-le-total p v)
