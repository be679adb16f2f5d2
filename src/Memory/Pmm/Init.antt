-- ===== src/Memory/Pmm/Init.antt =====
-- `pmm_init`: the state that it leaves, and the memory sizes for which that state is sound.
use nemo_os.Base.{
  ℕ, zero, suc, ◌+◌, ◌*◌, ◌/◌, ◌≤◌, ◌<◌, ◌≡◌, refl, ap, ◌∙◌, Bool, ◌&&◌, ◌||◌, List, [], ◌∷◌, map,
  arith, ltb, leb, if◌then◌else◌, length,
}
use nemo_os.Memory.Pmm.{
  Pmm, max_pages, reserved_pages, total_of, set_bit, test_bit, set_bits_from, init,
}
use nemo_os.Memory.Pmm.Bitmap.{AreBytes, test-set_bit, set_bit-AreBytes, length-set_bit}
use nemo_os.Memory.Pmm.Bitmap.{get_or-cleared, test-cleared}
use nemo_os.Memory.Pmm.Count.{count_below}
use nemo_os.Memory.Pmm.Inv.{is_used, IsValid}

-- What a loop that sets the bits from `i` up to `i + k` makes of a bitmap.
record Filled (i k : ℕ) (bitmap result : List ℕ) : Type 0 where
  bytes : AreBytes result
  same_length : length result ≡ length bitmap
  bits : (j : ℕ) → test_bit j result ≡ ((leb i j && ltb j (i + k)) || test_bit j bitmap)

set_bits_from-Filled :
    (k i : ℕ) (bitmap : List ℕ)
    → AreBytes bitmap
    → i + k ≤ 8 * length bitmap
    → Filled i k bitmap (set_bits_from k i bitmap)
unfolding set_bits_from
set_bits_from-Filled zero i bitmap bytes h = record {
  bytes = bytes;
  same_length = refl;
  bits = λ j. ground arith;
}
set_bits_from-Filled (suc k) i bitmap bytes h =
    let rest =
      set_bits_from-Filled k (i + 1) (set_bit i bitmap)
        (set_bit-AreBytes bitmap bytes i (omega arith)) (omega (arith, length-set_bit i bitmap)) in
    record {
      bytes = rest.bytes;
      same_length = rest.same_length ∙ length-set_bit i bitmap;
      bits = λ j. ground (arith, rest.bits j, test-set_bit bitmap bytes i (omega arith) j);
    }

length-cleared : (xs : List ℕ) → length (map {B = ℕ} (λ _. 0) xs) ≡ length xs
length-cleared [] = refl
length-cleared (x ∷ xs) = ap suc (length-cleared xs)

-- The count of the numbers below `k`, below a bound that is not less.
count_below-ltb :
    (f : ℕ → Bool) (k n : ℕ)
    → ((j : ℕ) → f j ≡ ltb j k)
    → count_below f n ≡ (if ltb n k then n else k)
unfolding count_below
count_below-ltb f k zero h = ground arith
count_below-ltb f k (suc n) h = ground (arith, h n, count_below-ltb f k n h)

-- The state that `pmm_init` builds from a page total and a number of reserved pages.
abbrev started : ℕ → ℕ → Pmm → Pmm
started total used p = record {
  bitmap = set_bits_from used 0 (map (λ _. 0) p.bitmap);
  total_pages = total;
  used_pages = used;
}

module _ (total used : ℕ) (p : Pmm) (room : total ≤ 8 * length p.bitmap) (part : used ≤ total) where
  filled : Filled 0 used (map (λ _. 0) p.bitmap) (set_bits_from used 0 (map (λ _. 0) p.bitmap))
  filled =
      set_bits_from-Filled used 0 (map (λ _. 0) p.bitmap)
        (λ i. rw (get_or-cleared p.bitmap i) (omega arith)) (omega (arith, length-cleared p.bitmap))

  is_used-started : (i : ℕ) → is_used (started total used p) i ≡ ltb i used
  is_used-started i = ground (arith, filled.bits i, test-cleared p.bitmap i)

  started-IsValid : total ≤ max_pages → IsValid (started total used p)
  started-IsValid small = record {
    bytes = filled.bytes;
    fits = omega (arith, filled.same_length, length-cleared p.bitmap);
    small = small;
    counted =
        ground (arith, count_below-ltb (is_used (started total used p)) used total is_used-started);
  }

-- The state after `pmm_init`.
pub record Ready (memory_mb : ℕ) (p : Pmm) : Type 0 where
  pub valid : IsValid p
  pub total : p.total_pages ≡ memory_mb * 256
  pub used :
      p.used_pages
      ≡ (if ltb (memory_mb * 256) reserved_pages then memory_mb * 256 else reserved_pages)
  pub bits : (i : ℕ) → is_used p i ≡ ltb i p.used_pages

module _ (memory_mb : ℕ) (p : Pmm) (room : max_pages ≤ 8 * length p.bitmap)
    (h : memory_mb ≤ 1024) where
  total-mb : total_of memory_mb ≡ memory_mb * 256
  unfolding total_of
  total-mb = omega arith

  reserved : ℕ
  reserved = if ltb (memory_mb * 256) reserved_pages then memory_mb * 256 else reserved_pages

  reserved-le : reserved ≤ memory_mb * 256
  unfolding reserved
  reserved-le = ground arith

  init-started : init memory_mb p ≡ started (memory_mb * 256) reserved p
  unfolding init reserved
  init-started = rw total-mb

  -- For up to 1024 MB, and a bitmap of the declared size, `pmm_init` leaves a valid state of 256
  -- pages per MB in which exactly the first 1024 pages (all, if there are fewer) are in use.
  pub init-Ready : Ready memory_mb (init memory_mb p)
  init-Ready = rw init-started (record {
    valid = started-IsValid (memory_mb * 256) reserved p (omega arith) reserved-le (omega arith);
    total = refl;
    used = unfold reserved in refl;
    bits = is_used-started (memory_mb * 256) reserved p (omega arith) reserved-le;
  })

length-set_bits_from :
    (k i : ℕ) (bitmap : List ℕ) → length (set_bits_from k i bitmap) ≡ length bitmap
unfolding set_bits_from
length-set_bits_from zero i bitmap = refl
length-set_bits_from (suc k) i bitmap =
    length-set_bits_from k (i + 1) (set_bit i bitmap) ∙ length-set_bit i bitmap

-- Above 1024 MB and below 4 GB the page total exceeds the bits of a bitmap of the declared size,
-- so `pmm_alloc_page` and `pmm_free_page` may reach past the end of the array.
pub init-overrun :
    (memory_mb : ℕ) (p : Pmm)
    → 1024 < memory_mb
    → memory_mb < 4096
    → length p.bitmap ≡ max_pages / 8
    → 8 * length (init memory_mb p).bitmap < (init memory_mb p).total_pages
unfolding init total_of
init-overrun memory_mb p lo hi e =
    rw (length-set_bits_from _ 0 (map (λ _. 0) p.bitmap), length-cleared p.bitmap) (omega arith)
