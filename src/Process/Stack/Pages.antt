-- ===== src/Process/Stack/Pages.antt =====
-- src/process/process.cpp: the two pages of a kernel stack.
use nemo_os.Base.{
  ℕ, zero, suc, ◌+◌, ◌*◌, ◌/◌, ◌%◌, ◌^◌, ◌<◌, ◌≡◌, ◌≢◌, refl, sym, ap, ◌∙◌, true, false, ◌&&◌, ◌||◌,
  not, none, some, arith, ◌==◌,
}
use nemo_os.Memory.Pmm.{Pmm, page_size, alloc_page, free_page}
use nemo_os.Memory.Pmm.Inv.{is_used, IsValid}
use nemo_os.Memory.Pmm.Alloc.{Allocated, page, full, alloc_page-Allocated, alloc_page-IsValid}
use nemo_os.Memory.Pmm.Free.{is_live, free_page-IsValid, free_page_lem}
use nemo_os.Process.Stack.{alloc_kernel_stack}

-- The same pages are in use.
record Same (p q : Pmm) : Type 0 where
  total : q.total_pages ≡ p.total_pages
  marks : (j : ℕ) → is_used q j ≡ is_used p j

abbrev SameResult : Pmm × ℕ → Pmm × ℕ → Type 0
SameResult r s = (s.1 ≡ r.1) × Same r.0 s.0

agree : (p q : Pmm) {r s : Pmm × ℕ} → Same p q → Allocated p r → Allocated q s → SameResult r s
agree p q same (full all) (full all') = (refl, same)
agree p q same (full all) (page i h e below t w bits used total) =
    absurd (ground (arith, all i, same.marks i, same.total))
agree p q same (page i h e below t w bits used total) (full all) =
    absurd (ground (arith, all i, same.marks i, same.total))
agree p q same (page i h e below t w bits used total) (page j k f below' u x bits' used' total') =
    let here : j ≡ i = ground (arith, below j, below' i, same.marks i, same.marks j) in
    (
      ap (λ n. n * page_size) here,
      record {
        total = total' ∙ same.total ∙ sym total;
        marks = λ n. ground (arith, bits n, bits' n, same.marks n);
      },
    )

alloc_page-Same :
    (p q : Pmm) → IsValid p → IsValid q → Same p q → SameResult (alloc_page p) (alloc_page q)
alloc_page-Same p q v w same = agree p q same (alloc_page-Allocated v) (alloc_page-Allocated w)

-- Giving back a page that is in use.
freed :
    (u : Pmm) (i : ℕ)
    → IsValid u
    → i < u.total_pages
    → is_used u i ≡ true
    → IsValid (free_page (i * page_size) u)
      × ((free_page (i * page_size) u).total_pages ≡ u.total_pages)
      × ((j : ℕ) → is_used (free_page (i * page_size) u) j ≡ (not (i == j) && is_used u j))
freed u i v h e =
    let lem = free_page_lem u v (i * page_size) in
    let index : i * page_size / page_size ≡ i = omega arith in
    let live : is_live u (i * page_size) ≡ true = rw index (ground (arith, e)) in
    (lem.0, lem.1, λ j. lem.3 j ∙ rw (live, index))

-- What two allocations in a row return, and what is left when both pages are given back.
abbrev given_back : Pmm × ℕ → Pmm × ℕ → Pmm
given_back r s = free_page s.1 (free_page r.1 s.0)

restored :
    (p : Pmm) {r s : Pmm × ℕ}
    → r.1 ≢ 0
    → s.1 ≢ 0
    → Allocated p r
    → Allocated r.0 s
    → Same p (given_back r s)
restored p n m (full all) b = absurd (n refl)
restored p n m (page i h e below t w bits used total) (full all) = absurd (m refl)
restored p n m (page i h e below t w bits used total) (page j k f below' u x bits' used' total') =
    let first = freed u i x (omega arith) (ground (arith, bits i, bits' i)) in
    let v = free_page (i * page_size) u in
    let apart : (i == j) ≡ false = ground (arith, bits j) in
    let still : is_used v j ≡ true = ground (arith, first.2 j, bits' j) in
    let second = freed v j first.0 (omega (arith, first.1)) still in
    record {
      total = second.1 ∙ first.1 ∙ total' ∙ total;
      marks = λ n. ground (arith, second.2 n, first.2 n, bits' n, bits n, bits j, e);
    }

-- A depth of recursion leads to the next if the two pages are not neighbours.
again :
    (depth : ℕ) (p : Pmm)
    → (alloc_page p).1 ≢ 0
    → (alloc_page (alloc_page p).0).1 ≢ 0
    → (alloc_page (alloc_page p).0).1 ≢ ((alloc_page p).1 + 4096) % 2 ^ 32
    → alloc_kernel_stack (suc depth) p
      ≡ alloc_kernel_stack depth (given_back (alloc_page p) (alloc_page (alloc_page p).0))
unfolding alloc_kernel_stack
again depth p l h apart =
    let low : ((alloc_page p).1 == 0) ≡ false = ground arith in
    let high : ((alloc_page (alloc_page p).0).1 == 0) ≡ false = ground arith in
    let gap : ((alloc_page (alloc_page p).0).1 == ((alloc_page p).1 + 4096) % 2 ^ 32) ≡ false =
      ground arith in
    rw (low, high, gap)

-- If the two lowest free pages are not neighbours, `alloc_kernel_stack` never returns: it gives
-- both back, and its recursive call takes the same two pages again.
pub alloc_kernel_stack-diverges :
    (depth : ℕ) (p : Pmm)
    → IsValid p
    → (alloc_page p).1 ≢ 0
    → (alloc_page (alloc_page p).0).1 ≢ 0
    → (alloc_page (alloc_page p).0).1 ≢ ((alloc_page p).1 + 4096) % 2 ^ 32
    → alloc_kernel_stack depth p ≡ none
unfolding alloc_kernel_stack
alloc_kernel_stack-diverges zero p v l h apart = refl
alloc_kernel_stack-diverges (suc depth) p v l h apart =
    let low = alloc_page p in
    let high = alloc_page low.0 in
    let v1 = alloc_page-IsValid v in
    let q = given_back low high in
    let w =
      free_page-IsValid (free_page low.1 high.0)
        (free_page-IsValid high.0 (alloc_page-IsValid v1) low.1) high.1 in
    let same = restored p l h (alloc_page-Allocated v) (alloc_page-Allocated v1) in
    let first = alloc_page-Same p q v w same in
    let second = alloc_page-Same low.0 (alloc_page q).0 v1 (alloc_page-IsValid w) first.1 in
    again depth p l h apart
    ∙ alloc_kernel_stack-diverges depth q w (rw first.0 l) (rw second.0 h)
        (rw (first.0, second.0) apart)

both_marked :
    (p : Pmm) {r s : Pmm × ℕ}
    → r.1 ≢ 0
    → s.1 ≢ 0
    → s.1 ≡ r.1 + 4096
    → Allocated p r
    → Allocated r.0 s
    → (j : ℕ)
    → is_used s.0 j ≡ ((r.1 / page_size == j) || (r.1 / page_size + 1 == j) || is_used p j)
both_marked p n m next (full all) b j = absurd (n refl)
both_marked p n m next (page i h e below t w bits used total) (full all) j = absurd (m refl)
both_marked p n m next (page i h e below t w bits used total)
      (page k l f below' u x bits' used' total') j =
    let index : i * page_size / page_size ≡ i = omega arith in
    let up : k ≡ i + 1 = omega arith in ground (arith, bits' j, bits j, index, up)

-- With two neighbours below 4 GiB as the lowest free pages the stack is these two pages: they are
-- marked and nothing else is.
pub alloc_kernel_stack-taken :
    (depth : ℕ) (p : Pmm)
    → IsValid p
    → (alloc_page p).1 ≢ 0
    → (alloc_page (alloc_page p).0).1 ≢ 0
    → (alloc_page (alloc_page p).0).1 ≡ (alloc_page p).1 + 4096
    → (alloc_page p).1 + 4096 < 2 ^ 32
    → (q : Pmm) × (alloc_kernel_stack (suc depth) p ≡ some ((alloc_page p).1, q))
      × IsValid q
      × ((j : ℕ)
          → is_used q j ≡ (
              ((alloc_page p).1 / page_size == j)
              || ((alloc_page p).1 / page_size + 1 == j)
              || is_used p j))
unfolding alloc_kernel_stack
alloc_kernel_stack-taken depth p v l h next small =
    let low : ((alloc_page p).1 == 0) ≡ false = ground arith in
    let high : ((alloc_page (alloc_page p).0).1 == 0) ≡ false = ground arith in
    let no_gap : ((alloc_page (alloc_page p).0).1 == ((alloc_page p).1 + 4096) % 2 ^ 32) ≡ true =
      ground arith in
    let v1 = alloc_page-IsValid v in
    (
      (alloc_page (alloc_page p).0).0,
      rw (low, high, no_gap),
      alloc_page-IsValid v1,
      both_marked p l h next (alloc_page-Allocated v) (alloc_page-Allocated v1),
    )
