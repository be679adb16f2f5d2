-- ===== src/Memory/Pmm/Free.antt =====
-- `pmm_free_page`, alone and after `pmm_alloc_page`.
use nemo_os.Base.{
  ℕ, ◌+◌, ◌*◌, ◌/◌, ◌<◌, ◌≡◌, ◌≢◌, refl, Bool, true, false, ◌||◌, ◌&&◌, not, arith, Bool-cases, inl,
  inr, ◌==◌, ltb, if◌then◌else◌,
}
use nemo_os.Memory.Pmm.{Pmm, page_size, clear_bit, alloc_page, free_page}
use nemo_os.Memory.Pmm.Bitmap.{test-clear_bit, clear_bit-AreBytes, length-clear_bit}
use nemo_os.Memory.Pmm.Count.{count_below, count_below-remove}
use nemo_os.Memory.Pmm.Inv.{is_used, IsValid, used-le-total}
use nemo_os.Memory.Pmm.Alloc.{Allocated, full, page, alloc_page-Allocated}

-- Does the address name a page that is in use?
abbrev pub is_live : Pmm → ℕ → Bool
is_live p a = ltb (a / page_size) p.total_pages && is_used p (a / page_size)

module _ (p : Pmm) (v : IsValid p) (a : ℕ) where
  pub free_page-dead : is_live p a ≡ false → free_page a p ≡ p
  unfolding free_page
  free_page-dead e = ground arith

  module _ (live : is_live p a ≡ true) where
    inside : (a / page_size < p.total_pages) × (is_used p (a / page_size) ≡ true)
    inside = ground arith

    pub is_used-free_page :
        (j : ℕ) → is_used (free_page a p) j ≡ (not (a / page_size == j) && is_used p j)
    unfolding free_page
    is_used-free_page j =
        rw (inside.1, ltb_true)
          (test-clear_bit p.bitmap v.bytes (a / page_size) (omega (arith, inside.0, v.fits)) j)
      where
        ltb_true : ltb (a / page_size) p.total_pages ≡ true
        ltb_true = ground arith

    pub total-free_page : (free_page a p).total_pages ≡ p.total_pages
    unfolding free_page
    total-free_page = ground arith

    removed :
        (n : ℕ)
        → count_below (is_used (free_page a p)) n + (if ltb (a / page_size) n then 1 else 0)
          ≡ count_below (is_used p) n
    removed n =
        count_below-remove (is_used p) (is_used (free_page a p)) (a / page_size) is_used-free_page
          inside.1 n

    pub used-free_page : (free_page a p).used_pages + 1 ≡ p.used_pages
    unfolding free_page
    used-free_page =
        ground (arith, inside, v.counted, v.small, used-le-total p v, removed p.total_pages)

    counted : (free_page a p).used_pages ≡ count_below (is_used (free_page a p)) p.total_pages
    counted = ground (arith, inside, v.counted, used-free_page, removed p.total_pages)

    freed : (free_page a p).bitmap ≡ clear_bit (a / page_size) p.bitmap
    unfolding free_page
    freed = ground (arith, inside)

    live-IsValid : IsValid (free_page a p)
    live-IsValid = record {
      bytes =
          rw freed
            (clear_bit-AreBytes p.bitmap v.bytes (a / page_size) (omega (arith, inside.0, v.fits)));
      fits =
          rw (freed, total-free_page)
            (omega (arith, length-clear_bit (a / page_size) p.bitmap, v.fits));
      small = rw total-free_page v.small;
      counted = rw total-free_page counted;
    }

  pub free_page-IsValid : IsValid (free_page a p)
  free_page-IsValid = elim (Bool-cases (is_live p a)) [
    | inl live ↦ live-IsValid live
    | inr dead ↦ rw (free_page-dead dead) v
  ]

  -- `pmm_free_page` in a valid state unmarks the page that holds the address and takes one from
  -- the count if that page is in range and in use, changes nothing otherwise (a second free of the
  -- same page included), and keeps the state valid.
  pub free_page_lem :
      IsValid (free_page a p)
      × ((free_page a p).total_pages ≡ p.total_pages)
      × ((free_page a p).used_pages + (if is_live p a then 1 else 0) ≡ p.used_pages)
      × ((j : ℕ)
          → is_used (free_page a p) j ≡ (not (is_live p a && (a / page_size == j)) && is_used p j))
  free_page_lem = elim (Bool-cases (is_live p a)) [
    | inl live ↦ (
      free_page-IsValid,
      total-free_page live,
      rw live (used-free_page live),
      λ j. rw live (is_used-free_page live j),
    )
    | inr dead ↦ (
      free_page-IsValid,
      rw (free_page-dead dead),
      rw (dead, free_page-dead dead) (omega arith),
      λ j. rw (dead, free_page-dead dead),
    )
  ]

-- The state that a free after an allocation leaves.
abbrev after : Pmm × ℕ → Pmm
after (q, a) = free_page a q

undo :
    (p : Pmm) {r : Pmm × ℕ}
    → IsValid p
    → r.1 ≢ 0
    → Allocated p r
    → IsValid (after r)
      × ((after r).used_pages ≡ p.used_pages)
      × ((j : ℕ) → is_used (after r) j ≡ is_used p j)
undo p v ne (full all) = absurd (ne refl)
undo p v ne (page i h e below q w bits used total) =
    let live : is_live q (i * page_size) ≡ true = rw index (ground (arith, bits i)) in
    (
      free_page-IsValid q w (i * page_size),
      omega (arith, used-free_page q w (i * page_size) live, used),
      λ j. rw (is_used-free_page q w (i * page_size) live j, index, bits j) (restored j),
    )
  where
    index : i * page_size / page_size ≡ i
    index = omega arith

    restored : (j : ℕ) → (not (i == j) && ((i == j) || is_used p j)) ≡ is_used p j
    restored j = ground (arith, e)

-- Giving back the page that `pmm_alloc_page` has just returned restores the count and the mark of
-- every page.
pub free-alloc :
    (p : Pmm)
    → IsValid p
    → (alloc_page p).1 ≢ 0
    → let q = free_page (alloc_page p).1 (alloc_page p).0 in
      IsValid q × (q.used_pages ≡ p.used_pages) × ((j : ℕ) → is_used q j ≡ is_used p j)
free-alloc p v ne = undo p v ne (alloc_page-Allocated v)
