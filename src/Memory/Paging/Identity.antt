-- ===== src/Memory/Paging/Identity.antt =====
-- src/memory/paging.cpp: `paging_map_identity`.
use nemo_os.Base.{
  ℕ, zero, suc, ◌+◌, ◌*◌, ◌/◌, ◌%◌, ◌^◌, ◌≤◌, ◌<◌, ◌≡◌, ◌⊎◌, refl, ◌∙◌, inl, inr, Bool, Option,
  some, arith, ltb, ltb→lt, Bool-cases, ltb→lt,
}
use nemo_os.Memory.Vmm.{Mmu, frame_of}
use nemo_os.Memory.Paging.{paging_map_page, map_from, paging_map_identity}
use nemo_os.Memory.Vmm.Inv.{leaf, IsSpace, IsReady, Grows}
use nemo_os.Memory.Paging.Page.{
  IsFull, Paged, Attempt, out_of_pages, written, paging_map_page-Attempt,
}

-- The pages from `addr` up to `last` lead to themselves with the flags, unless the pages ran out
-- and they lead to what they did; all others lead to what they did.
pub record Mapped (dir addr last flags : ℕ) (m m1 : Mmu) : Type 0 where
  pub ready : IsReady m1.pmm
  pub space : IsSpace m1.pmm m1.word dir
  pub grows : Grows m.pmm m1.pmm
  pub inside :
      (w : ℕ)
      → w < 2 ^ 32
      → addr ≤ w
      → w < last
      → (leaf m1.word dir w ≡ frame_of w + flags % 4096)
        ⊎ (IsFull m1 × (leaf m1.word dir w ≡ leaf m.word dir w))
  pub outside :
      (w : ℕ) → w < 2 ^ 32 → (w < addr) ⊎ (last ≤ w) → leaf m1.word dir w ≡ leaf m.word dir w

IsFull-Grows : (m m1 : Mmu) → Grows m.pmm m1.pmm → IsFull m → IsFull m1
IsFull-Grows m m1 g all j lt = g.0 j (all j (omega (arith, g.1)))

module _ (dir last flags : ℕ) where
  nothing :
      (addr : ℕ) (m : Mmu)
      → IsReady m.pmm
      → IsSpace m.pmm m.word dir
      → last ≤ addr
      → Mapped dir addr last flags m m
  nothing addr m v s h = record {
    ready = v;
    space = s;
    grows = (λ j u. u, refl);
    inside = λ w lt a b. absurd (omega arith);
    outside = λ w lt side. refl;
  }

  -- One page, then the rest.
  module _ (addr : ℕ) (m m1 m2 : Mmu) (aligned : addr % 4096 ≡ 0) (less : addr < last)
      (aligned' : last % 4096 ≡ 0) where
    failed_first :
        IsFull m → Mapped dir (addr + 4096) last flags m m2 → Mapped dir addr last flags m m2
    failed_first all r = record {
      ready = r.ready;
      space = r.space;
      grows = r.grows;
      inside = λ w lt a b. elim (Bool-cases (ltb w (addr + 4096))) [
        | inl h ↦ inr (IsFull-Grows m m2 r.grows all, r.outside w lt (inl (ground arith)))
        | inr h ↦ r.inside w lt (ground arith) b
      ];
      outside = λ w lt side. r.outside w lt (ground arith);
    }

    paged_first :
        Paged dir addr (frame_of addr + flags % 4096) m m1
        → Mapped dir (addr + 4096) last flags m1 m2
        → Mapped dir addr last flags m m2
    paged_first p r = record {
      ready = r.ready;
      space = r.space;
      grows = (λ j u. r.grows.0 j (p.grows.0 j u), r.grows.1 ∙ p.grows.1);
      inside = inside;
      outside = λ w lt side. r.outside w lt (ground arith) ∙ p.elsewhere w lt (λ e. ground arith);
    }
      where
        inside :
            (w : ℕ)
            → w < 2 ^ 32
            → addr ≤ w
            → w < last
            → (leaf m2.word dir w ≡ frame_of w + flags % 4096)
              ⊎ (IsFull m2 × (leaf m2.word dir w ≡ leaf m.word dir w))
        inside w lt a b = elim (Bool-cases (ltb w (addr + 4096))) [
          | inl h ↦
              let same : w / 4096 ≡ addr / 4096 = ground arith in
              inl (r.outside w lt (inl (ground arith)) ∙ p.here w same ∙ omega arith)
          | inr h ↦ elim (r.inside w lt (ground arith) b) [
            | inl e ↦ inl e
            | inr (all, e) ↦ inr (all, e ∙ p.elsewhere w lt (λ q. ground arith))
          ]
        ]

  round :
      (addr : ℕ) (m : Mmu) {m1 : Mmu} {ok : Bool} {rest : Option Mmu}
      → IsReady m.pmm
      → IsSpace m.pmm m.word dir
      → addr % 4096 ≡ 0
      → last % 4096 ≡ 0
      → addr < last
      → Attempt dir addr (frame_of addr + flags % 4096) m m1 ok
      → (IsReady m1.pmm
          → IsSpace m1.pmm m1.word dir
          → (m2 : Mmu) × (rest ≡ some m2) × Mapped dir (addr + 4096) last flags m1 m2)
      → (m2 : Mmu) × (rest ≡ some m2) × Mapped dir addr last flags m m2
  round addr m v s a b less (out_of_pages all) f =
      let (m2, e, r) = f v s in (m2, e, failed_first addr m m m2 a less b all r)
  round addr m v s a b less (written m1 p) f =
      let (m2, e, r) = f p.ready p.space in (m2, e, paged_first addr m m1 m2 a less b p r)

  map_from-Mapped :
      (fuel addr : ℕ) (m : Mmu)
      → IsReady m.pmm
      → IsSpace m.pmm m.word dir
      → addr % 4096 ≡ 0
      → last % 4096 ≡ 0
      → last < 2 ^ 32
      → last ≤ addr + 4096 * fuel
      → (m1 : Mmu) × (map_from fuel dir addr last flags m ≡ some m1)
        × Mapped dir addr last flags m m1
  unfolding map_from
  map_from-Mapped zero addr m v s a b small enough = elim (Bool-cases (ltb addr last)) [
    | inl h ↦ absurd (omega (arith, ltb→lt addr last h))
    | inr h ↦ (m, rw h, nothing addr m v s (ground arith))
  ]
  map_from-Mapped (suc fuel) addr m v s a b small enough = elim (Bool-cases (ltb addr last)) [
    | inl h ↦
        let less : addr < last = ground arith in
        let next : (addr + 0x1000) % 2 ^ 32 ≡ addr + 4096 = omega (arith, a, b, small) in
        let (ok, t) = paging_map_page-Attempt dir addr addr flags m v s (omega arith) in
        rw (h, next)
          (round addr m v s a b less t (λ v' s'.
            map_from-Mapped fuel (addr + 4096) (paging_map_page dir addr addr flags m) v' s'
              (omega arith) b small (omega arith)))
    | inr h ↦ (m, rw h, nothing addr m v s (ground arith))
  ]

-- In the kernel's well-formed directory `paging_map_identity` ends, in at most 2 ^ 20 rounds of its loop,
-- and then every address from the page of `phys_start` to the page of `phys_end`, rounded up in 32
-- bits, leads to itself with the given flags, unless every page is in use and it leads to what it
-- did before; every other address leads to what it did before.
pub paging_map_identity-Mapped :
    (dir phys_start phys_end flags : ℕ) (m : Mmu)
    → IsReady m.pmm
    → IsSpace m.pmm m.word dir
    → let last = frame_of ((phys_end + 0xFFF) % 2 ^ 32) in
      (m1 : Mmu) × (paging_map_identity 1048576 dir phys_start phys_end flags m ≡ some m1)
      × Mapped dir (frame_of phys_start) last flags m m1
unfolding paging_map_identity
paging_map_identity-Mapped dir phys_start phys_end flags m v s =
    map_from-Mapped dir (frame_of ((phys_end + 0xFFF) % 2 ^ 32)) flags 1048576 (frame_of phys_start)
      m v s (omega arith) (omega arith) (omega arith) (omega arith)
