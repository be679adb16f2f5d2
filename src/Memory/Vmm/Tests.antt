-- ===== src/Memory/Vmm/Tests.antt =====
-- Runs of vmm.cpp, and its theorems at a concrete state.
use nemo_os.Base.{
  ℕ, ◌+◌, ◌*◌, ◌/◌, ◌%◌, ◌^◌, ◌<◌, ◌≡◌, ◌⊎◌, refl, sym, ap, ◌∙◌, inl, inr, true, some, [], arith,
  ◌==◌, if◌then◌else◌,
}
use nemo_os.Base.Int.{pos}
use nemo_os.Memory.Pmm.Inv.{is_used}
use nemo_os.Memory.Pmm.{test_bit}
use nemo_os.Base.Bits.{test_in}
use nemo_os.Memory.Pmm.Tests.{dozen, dozen-IsValid}
use nemo_os.Memory.Vmm.{
  ensure_table, Mmu, is_present, frame_of, vmm_map, vmm_unmap, vmm_create_space,
}
use nemo_os.Memory.Vmm.Inv.{leaf, translate, IsSpace, IsReady}
use nemo_os.Memory.Vmm.Map.{Mapped, vmm_map-Mapped, unmap-map}
use nemo_os.Memory.Vmm.Spaces.{Created, vmm_create_space-Created}

-- A kernel directory in page 1 with a kernel table in page 4 and, for the addresses from 1 GB on, a
-- user table in page 2, which are empty.
abbrev directory : ℕ → ℕ
directory a = if a == 4096 then 0x4003 else if a == 5120 then 0x2007 else 0

abbrev pub small_machine : Mmu
small_machine = record {
  pmm = dozen;
  word = directory;
  cr3 = 4096;
  cr0 = 0;
  kernel_space = 4096;
  invalidated = [];
}

pub dozen-IsReady : IsReady dozen
unfolding test_bit test_in
dozen-IsReady = record { valid = dozen-IsValid; null_used = refl }

which :
    (i : ℕ)
    → is_present (directory (4096 + 4 * i)) ≡ true
    → ((i ≡ 0) × (directory (4096 + 4 * i) ≡ 0x4003))
      ⊎ ((i ≡ 256) × (directory (4096 + 4 * i) ≡ 0x2007))
which i h = ground arith

pub live_pages : (is_used dozen 1 ≡ true) × (is_used dozen 2 ≡ true) × (is_used dozen 4 ≡ true)
unfolding test_bit test_in
live_pages = (refl, refl, refl)

pub small-IsSpace : IsSpace dozen directory 4096
small-IsSpace = record {
  aligned = refl;
  live = live_pages.0;
  table_live = λ i lt h. elim (which i h) [
    | inl (_, e) ↦ ap (λ x. is_used dozen (x / 4096)) e ∙ live_pages.2
    | inr (_, e) ↦ ap (λ x. is_used dozen (x / 4096)) e ∙ live_pages.1
  ];
  apart = λ i lt h e. elim (which i h) [
    | inl (_, q) ↦ omega (arith, ap frame_of (sym q) ∙ e)
    | inr (_, q) ↦ omega (arith, ap frame_of (sym q) ∙ e)
  ];
  distinct = λ i j li lj ne hi hj e. elim (which i hi) [
    | inl (ei, qi) ↦ elim (which j hj) [
      | inl (ej, qj) ↦ ne (ei ∙ sym ej)
      | inr (ej, qj) ↦ omega (arith, ap frame_of (sym qi) ∙ e ∙ ap frame_of qj)
    ]
    | inr (ei, qi) ↦ elim (which j hj) [
      | inl (ej, qj) ↦ omega (arith, ap frame_of (sym qi) ∙ e ∙ ap frame_of qj)
      | inr (ej, qj) ↦ ne (ei ∙ sym ej)
    ]
  ];
}

vmm_map-Mapped_example :
    Mapped small_machine 4096 0x40000000 0x5678 5 (vmm_map 4096 0x40000000 0x5678 5 small_machine)
vmm_map-Mapped_example =
    vmm_map-Mapped {m = small_machine} {space = 4096} 0x40000000 0x5678 5 dozen-IsReady
      small-IsSpace (omega arith)

unmap-map_example :
    let m1 = (vmm_map 4096 0x40000000 0x5678 5 small_machine).0 in
    ((w : ℕ) → w / 4096 ≡ 0x40000000 / 4096 → translate m1.word 4096 w ≡ some (0x5000 + w % 4096))
    × ((w : ℕ)
        → w < 2 ^ 32
        → leaf (vmm_unmap 4096 0x40000000 m1).0.word 4096 w ≡ leaf directory 4096 w)
unfolding leaf vmm_map ensure_table
unmap-map_example =
    unmap-map small_machine 4096 0x40000000 0x5678 5 dozen-IsReady small-IsSpace (omega arith) empty
      refl mapped
  where
    empty : leaf directory 4096 0x40000000 ≡ 0
    empty = refl

    mapped : (vmm_map 4096 0x40000000 0x5678 5 small_machine).1 ≡ pos 0
    mapped = refl

vmm_create_space-Created_example : Created small_machine (vmm_create_space small_machine)
vmm_create_space-Created_example =
    vmm_create_space-Created small_machine dozen-IsReady small-IsSpace
