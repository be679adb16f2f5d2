-- ===== src/Memory/Pmm/Alloc.antt =====
-- `pmm_alloc_page`: it takes the lowest free page, and fails only when there is none.
use nemo_os.Base.{
  ℕ, zero, suc, ◌+◌, ◌*◌, ◌%◌, ◌^◌, ◌<◌, ◌≡◌, refl, inl, inr, true, false, ◌||◌, arith, ◌==◌,
  Bool-cases,
}
use nemo_os.Memory.Pmm.{Pmm, page_size, take_page, alloc_from, alloc_page}
use nemo_os.Memory.Pmm.Bitmap.{test-set_bit, set_bit-AreBytes, length-set_bit}
use nemo_os.Memory.Pmm.Count.{count_below-insert, count_below}
use nemo_os.Memory.Pmm.Inv.{is_used, IsValid, used-le-total}

-- What a call may return in state `p`: `nullptr` and the same state if every page is used, or else
-- the address of the lowest free page, now marked and counted.
pub data Allocated (p : Pmm) : Pmm × ℕ → Type 0 where
  full : ((j : ℕ) → j < p.total_pages → is_used p j ≡ true) → Allocated p (p, 0)
  page :
      (i : ℕ)
      → i < p.total_pages
      → is_used p i ≡ false
      → ((j : ℕ) → j < i → is_used p j ≡ true)
      → (q : Pmm) → IsValid q
      → ((j : ℕ) → is_used q j ≡ ((i == j) || is_used p j))
      → q.used_pages ≡ p.used_pages + 1
      → q.total_pages ≡ p.total_pages
      → Allocated p (q, i * page_size)

module _ (p : Pmm) (v : IsValid p) (i : ℕ) (h : i < p.total_pages) (e : is_used p i ≡ false) where
  pub used-take_page : (take_page i p).used_pages ≡ p.used_pages + 1
  unfolding take_page
  used-take_page = omega (arith, v.small, used-le-total p v)

  pub is_used-take_page : (j : ℕ) → is_used (take_page i p) j ≡ ((i == j) || is_used p j)
  unfolding take_page
  is_used-take_page j = test-set_bit p.bitmap v.bytes i (omega (arith, v.fits)) j

  counted-take_page :
      (take_page i p).used_pages ≡ count_below (is_used (take_page i p)) p.total_pages
  counted-take_page = ground (
    arith,
    v.counted,
    used-take_page,
    count_below-insert (is_used p) (is_used (take_page i p)) i is_used-take_page e p.total_pages,
  )

  pub take_page-IsValid : IsValid (take_page i p)
  unfolding take_page
  take_page-IsValid = record {
    bytes = set_bit-AreBytes p.bitmap v.bytes i (omega (arith, v.fits));
    fits = omega (arith, length-set_bit i p.bitmap, v.fits);
    small = v.small;
    counted = counted-take_page;
  }

  pub total-take_page : (take_page i p).total_pages ≡ p.total_pages
  unfolding take_page
  total-take_page = refl

alloc_from-Allocated :
    (p : Pmm)
    → IsValid p
    → (k i : ℕ) → i + k ≡ p.total_pages
    → ((j : ℕ) → j < i → is_used p j ≡ true)
    → Allocated p (alloc_from k i p)
unfolding alloc_from
alloc_from-Allocated p v zero i h below = full (λ j lt. below j (omega arith))
alloc_from-Allocated p v (suc k) i h below = elim (Bool-cases (is_used p i)) [
  | inl used ↦
      rw used (alloc_from-Allocated p v k (i + 1) (omega arith) (λ j lt. ground (arith, below j)))
  | inr free ↦
      let inside : i < p.total_pages = omega arith in
      rw (free, no_wrap inside)
        (page i inside free below (take_page i p) (take_page-IsValid p v i inside free)
          (is_used-take_page p v i inside free) (used-take_page p v i inside free)
          (total-take_page p v i inside free))
]
  where
    no_wrap : i < p.total_pages → i * page_size % 2 ^ 32 ≡ i * page_size
    no_wrap lt = omega (arith, v.small)

-- `pmm_alloc_page` in a valid state either takes the lowest free page, marking exactly that page,
-- adding one to the count, keeping the state valid and returning the page's address; or, when
-- every page is in use, returns `nullptr` and changes nothing.
pub alloc_page-Allocated : {p : Pmm} → IsValid p → Allocated p (alloc_page p)
unfolding alloc_page
alloc_page-Allocated {p} v =
    alloc_from-Allocated p v p.total_pages 0 (omega arith) (λ j lt. absurd (omega arith))

Allocated-IsValid : {p : Pmm} {r : Pmm × ℕ} → IsValid p → Allocated p r → IsValid r.0
Allocated-IsValid v (full all) = v
Allocated-IsValid v (page i h e below q w bits used total) = w

pub alloc_page-IsValid : {p : Pmm} → IsValid p → IsValid (alloc_page p).0
alloc_page-IsValid v = Allocated-IsValid v (alloc_page-Allocated v)
