-- ===== src/Memory/Vmm/Freed.antt =====
-- src/memory/vmm.cpp: which pages the loops of `vmm_destroy_space` and of a failed
-- `vmm_create_space` give back.
use nemo_os.Base.{
  ℕ, zero, suc, ◌+◌, ◌*◌, ◌/◌, ◌≤◌, ◌<◌, ◌≡◌, ◌≢◌, refl, sym, ap, ◌∙◌, subst, inl, inr, true, false,
  ◌&&◌, arith, ◌==◌, if◌then◌else◌, Bool-cases,
}
use nemo_os.Memory.Pmm.{Pmm, free_page}
use nemo_os.Memory.Pmm.Inv.{is_used, IsValid}
use nemo_os.Memory.Pmm.Free.{free_page_lem}
use nemo_os.Memory.Vmm.{is_present, is_user_entry, frame_of, free_tables, free_copied}
use nemo_os.Memory.Vmm.Entries.{HasTable}

abbrev step : ℕ → Pmm → Pmm
step e p = if is_present e && is_user_entry e then free_page (frame_of e) p else p

-- A state that has fewer pages in use.
pub record Frees (p q : Pmm) : Type 0 where
  pub valid : IsValid q
  pub total : q.total_pages ≡ p.total_pages
  pub fewer : (x : ℕ) → is_used p x ≡ false → is_used q x ≡ false

pub free_page-Frees : (a : ℕ) (p : Pmm) → IsValid p → Frees p (free_page a p)
free_page-Frees a p v =
    let f = free_page_lem p v a in
    record { valid = f.0; total = f.1; fewer = λ x h. f.3 x ∙ ground (arith, h) }

-- A page other than the one given back keeps its mark; that one loses it.
pub free_page-other :
    (a x : ℕ) (p : Pmm) → IsValid p → a / 4096 ≢ x → is_used (free_page a p) x ≡ is_used p x
free_page-other a x p v ne = (free_page_lem p v a).3 x ∙ ground (arith, ne)

pub free_page-gone :
    (a x : ℕ) (p : Pmm)
    → IsValid p
    → a / 4096 ≡ x
    → x < p.total_pages
    → is_used (free_page a p) x ≡ false
free_page-gone a x p v e lt = (free_page_lem p v a).3 x ∙ ground (arith, e, ap (is_used p) e)

step-Frees : (e : ℕ) (p : Pmm) → IsValid p → Frees p (step e p)
step-Frees e p v = elim (Bool-cases (is_present e && is_user_entry e)) [
  | inl h ↦ rw h (free_page-Frees (frame_of e) p v)
  | inr h ↦ rw h (record { valid = v; total = refl; fewer = λ x u. u })
]

step-other : (e x : ℕ) (p : Pmm) → IsValid p → ¬ (HasTable e x) → is_used (step e p) x ≡ is_used p x
step-other e x p v no_table = elim (Bool-cases (is_present e && is_user_entry e)) [
  | inl h ↦
      rw h (
        free_page-other (frame_of e) x p v
          (λ q. no_table (ground arith, ground arith, omega arith)))
  | inr h ↦ rw h
]

step-gone :
    (e x : ℕ) (p : Pmm)
    → IsValid p
    → HasTable e x
    → x < p.total_pages
    → is_used (step e p) x ≡ false
step-gone e x p v (on, user, here) lt =
    rw (on, user) (free_page-gone (frame_of e) x p v (omega arith) lt)

pub free_tables-Frees :
    (k i pd : ℕ) (word : ℕ → ℕ) (p : Pmm) → IsValid p → Frees p (free_tables k i pd word p)
unfolding free_tables
free_tables-Frees zero i pd word p v = record { valid = v; total = refl; fewer = λ x u. u }
free_tables-Frees (suc k) i pd word p v =
    let a = step-Frees (word (pd + 4 * i)) p v in
    let b = free_tables-Frees k (i + 1) pd word (step (word (pd + 4 * i)) p) a.valid in
    record { valid = b.valid; total = b.total ∙ a.total; fewer = λ x u. b.fewer x (a.fewer x u) }

pub free_tables-other :
    (k i pd : ℕ) (word : ℕ → ℕ) (p : Pmm) (x : ℕ)
    → IsValid p
    → ((j : ℕ) → j < i + k → ¬ (HasTable (word (pd + 4 * j)) x))
    → is_used (free_tables k i pd word p) x ≡ is_used p x
unfolding free_tables
free_tables-other zero i pd word p x v none_here = refl
free_tables-other (suc k) i pd word p x v none_here =
    free_tables-other k (i + 1) pd word (step (word (pd + 4 * i)) p) x
      (step-Frees (word (pd + 4 * i)) p v).valid (λ j lt. none_here j (omega arith))
    ∙ step-other (word (pd + 4 * i)) x p v (none_here i (omega arith))

pub free_tables-gone :
    (k i pd : ℕ) (word : ℕ → ℕ) (p : Pmm) (x j : ℕ)
    → IsValid p
    → i ≤ j
    → j < i + k
    → HasTable (word (pd + 4 * j)) x
    → x < p.total_pages
    → is_used (free_tables k i pd word p) x ≡ false
unfolding free_tables
free_tables-gone zero i pd word p x j v le lt t small = absurd (omega arith)
free_tables-gone (suc k) i pd word p x j v le lt t small =
    let a = step-Frees (word (pd + 4 * i)) p v in
    let rest = free_tables-Frees k (i + 1) pd word (step (word (pd + 4 * i)) p) a.valid in
    elim (Bool-cases (i == j)) [
      | inl e ↦
          let same : i ≡ j = ground arith in
          rest.fewer x (
            step-gone (word (pd + 4 * i)) x p v
              (subst (λ y. HasTable (word (pd + 4 * y)) x) (sym same) t) small)
      | inr e ↦
          free_tables-gone k (i + 1) pd word (step (word (pd + 4 * i)) p) x j a.valid (ground arith)
            (omega arith) t (omega (arith, a.total, small))
    ]

-- Where every entry with the user bit is present, the two loops are the same.
pub free_copied-free_tables :
    (k i pd : ℕ) (word : ℕ → ℕ) (p : Pmm)
    → ((j : ℕ)
        → j < i + k
        → is_user_entry (word (pd + 4 * j)) ≡ true
        → is_present (word (pd + 4 * j)) ≡ true)
    → free_copied k i pd word p ≡ free_tables k i pd word p
unfolding free_copied free_tables
free_copied-free_tables zero i pd word p h = refl
free_copied-free_tables (suc k) i pd word p h =
    ap (free_copied k (i + 1) pd word) same
    ∙ free_copied-free_tables k (i + 1) pd word (step (word (pd + 4 * i)) p)
        (λ j lt. h j (omega arith))
  where
    same :
        (if is_user_entry (word (pd + 4 * i))
          then free_page (frame_of (word (pd + 4 * i))) p
          else p)
        ≡ step (word (pd + 4 * i)) p
    same = ground (arith, h i (omega arith))
