-- ===== src/Memory/Vmm/Map.antt =====
-- src/memory/vmm.cpp: `vmm_map` and `vmm_unmap`.
use nemo_os.Base.{
  ℕ, ◌+◌, ◌*◌, ◌/◌, ◌%◌, ◌^◌, ◌<◌, ◌≡◌, ◌≢◌, refl, sym, ap, ◌∙◌, inl, inr, Bool, true, false, some,
  ◌∷◌, arith, ◌==◌, if◌then◌else◌, Bool-cases,
}
use nemo_os.Memory.Pmm.{Pmm, page_size}
use nemo_os.Memory.Pmm.Inv.{is_used}
use nemo_os.Memory.Pmm.Alloc.{Allocated, full, page, alloc_page-Allocated}
use nemo_os.Memory.Vmm.{
  table_flags, Mmu, is_present, frame_of, pd_index, pt_index, ensure_table, set_leaf, vmm_map,
  vmm_unmap, put, clear_words,
}
use nemo_os.Base.Int.{ℤ, pos, negsuc, neg_part}
use nemo_os.Memory.Vmm.Leaf.{directory-kept, leaf-here, leaf-elsewhere, after-IsSpace}
use nemo_os.Memory.Vmm.Inv.{Grows, leaf, translate, IsSpace, IsReady}
use nemo_os.Memory.Vmm.Table

-- A directory entry before and after a table is ensured: a present one stays, and a new one has
-- the flags `f`.
abbrev pub Directory : ℕ → ℕ → ℕ → Type 0
Directory f before after =
    (is_present before ≡ true → after ≡ before) × (is_present before ≡ false → after % 4096 ≡ f)

-- What the first `if` of `vmm_map` leaves: no page, and nothing changed; or a table, and the same
-- entries.
pub data Ensured (space i f : ℕ) (m : Mmu) : Mmu × Bool → Type 0 where
  no_page :
      ((j : ℕ) → j < m.pmm.total_pages → is_used m.pmm j ≡ true)
      → is_present (m.word (space + 4 * i)) ≡ false
      → Ensured space i f m (m, false)
  ready :
      (m1 : Mmu)
      → IsReady m1.pmm
      → IsSpace m1.pmm m1.word space
      → is_present (m1.word (space + 4 * i)) ≡ true
      → ((virt : ℕ) → virt < 2 ^ 32 → leaf m1.word space virt ≡ leaf m.word space virt)
      → (m1.cr3 ≡ m.cr3) × (m1.invalidated ≡ m.invalidated)
      → Grows m.pmm m1.pmm
      → Directory f (m.word (space + 4 * i)) (m1.word (space + 4 * i))
      → Ensured space i f m (m1, true)

-- The state of `ensure_table`, from what `pmm_alloc_page` returned.
abbrev ensured_by : ℕ → ℕ → ℕ → Mmu → Pmm × ℕ → Mmu × Bool
ensured_by space i f m (q, pt) = if pt == 0 then (record m { pmm = q }, false) else (
  record m { pmm = q; word = put (space + 4 * i) (pt + f) (clear_words 1024 pt m.word) },
  true,
)

module _ (m : Mmu) (v : IsReady m.pmm) (space : ℕ) (s : IsSpace m.pmm m.word space) where
  added :
      (i f : ℕ) {r : Pmm × ℕ}
      → i < 1024
      → f < 4096
      → f % 2 ≡ 1
      → is_present (m.word (space + 4 * i)) ≡ false
      → Allocated m.pmm r
      → Ensured space i f m (ensured_by space i f m r)
  added i f lt f_small f_odd absent (full all) = no_page all absent
  added i f lt f_small f_odd absent (page n h free below q w bits used total) = rw nonzero (
      ready (after_alloc n q)
        (record { valid = w; null_used = rw (bits 0) (ground (arith, v.null_used)) })
        (Table.after-IsSpace m.pmm q m.word space n i f f_small f_odd s lt absent free bits)
        (rw (Table.table-here m.pmm q m.word space n i f f_small f_odd s lt absent free bits)
          (ground arith))
        (Table.leaf-kept m.pmm q m.word space n i f f_small f_odd s lt absent free bits)
        (refl, refl) (λ j u. rw (bits j) (ground arith), total)
        (
          λ there. absurd (ground (arith, there, absent)),
          λ _.
              rw (Table.table-here m.pmm q m.word space n i f f_small f_odd s lt absent free bits)
                (omega arith),
        ))
    where
      nonzero : (n * page_size == 0) ≡ false
      nonzero = ground (arith, ap (is_used m.pmm) {x = n} {y = 0}, v.null_used)

      after_alloc : ℕ → Pmm → Mmu
      after_alloc k r = record m {
        pmm = r;
        word = put (space + 4 * i) (k * page_size + f) (clear_words 1024 (k * page_size) m.word);
      }

  pub ensure_table-Ensured :
      (i f : ℕ) → i < 1024 → f < 4096 → f % 2 ≡ 1 → Ensured space i f m (ensure_table space i f m)
  unfolding ensure_table
  ensure_table-Ensured i f lt f_small f_odd =
      elim (Bool-cases (is_present (m.word (space + 4 * i)))) [
        | inl there ↦ rw there (
            ready m v s there (λ virt _. refl) (refl, refl) (λ j u. u, refl)
              (λ _. refl, λ absent. absurd (ground (arith, there, absent))))
        | inr absent ↦ rw absent (added i f lt f_small f_odd absent (alloc_page-Allocated v.valid))
      ]

-- A page in two writes reads the same entry.
pub leaf-page :
    (word : ℕ → ℕ) (space v w : ℕ) → v / 4096 ≡ w / 4096 → leaf word space v ≡ leaf word space w
unfolding leaf
leaf-page word space v w h =
    let d : pd_index v ≡ pd_index w = omega arith in
    let t : pt_index v ≡ pt_index w = omega arith in rw (d, t)

-- What `virt` and the other addresses lead to in state `m1`, after `virt` has got the entry `e` in
-- state `m`; the processor has forgotten the old entry if the space is the current one.
pub record Changed (m : Mmu) (space virt e : ℕ) (m1 : Mmu) : Type 0 where
  pub ready : IsReady m1.pmm
  pub space_kept : IsSpace m1.pmm m1.word space
  pub here : (w : ℕ) → w / 4096 ≡ virt / 4096 → leaf m1.word space w ≡ e
  pub elsewhere :
      (w : ℕ) → w < 2 ^ 32 → w / 4096 ≢ virt / 4096 → leaf m1.word space w ≡ leaf m.word space w
  pub dropped : m1.invalidated ≡ (if m.cr3 == space then virt ∷ m.invalidated else m.invalidated)
  pub grown : Grows m.pmm m1.pmm
  pub directory :
      Directory table_flags
        (m.word (space + 4 * pd_index virt))
        (m1.word (space + 4 * pd_index virt))

module _ (m : Mmu) (v : IsReady m.pmm) (space : ℕ) (s : IsSpace m.pmm m.word space) where
  set_leaf-Changed :
      (virt e : ℕ)
      → virt < 2 ^ 32
      → is_present (m.word (space + 4 * pd_index virt)) ≡ true
      → Changed m space virt e (set_leaf space virt e m)
  unfolding set_leaf
  set_leaf-Changed virt e lt there = record {
    ready = v;
    space_kept = after-IsSpace m.pmm m.word space s e virt lt there;
    here = λ w h. leaf-page _ space w virt h ∙ leaf-here m.pmm m.word space s e virt lt there;
    elsewhere = leaf-elsewhere m.pmm m.word space s e virt lt there;
    dropped = refl;
    grown = (λ j u. u, refl);
    directory = (
      λ _. directory-kept m.pmm m.word space s e virt lt there (pd_index virt) (omega arith),
      λ absent. absurd (ground (arith, there, absent)),
    );
  }

-- What a call of `vmm_map` may return.
pub data Mapped (m : Mmu) (space virt phys flags : ℕ) : Mmu × ℤ → Type 0 where
  failed :
      ((j : ℕ) → j < m.pmm.total_pages → is_used m.pmm j ≡ true)
      → is_present (m.word (space + 4 * pd_index virt)) ≡ false
      → Mapped m space virt phys flags (m, negsuc 0)
  mapped :
      (m1 : Mmu)
      → Changed m space virt (frame_of phys + flags % 4096) m1
      → Mapped m space virt phys flags (m1, pos 0)

-- The rest of `vmm_map`.
abbrev map_rest : ℕ → ℕ → ℕ → ℕ → Mmu × Bool → Mmu × ℤ
map_rest space virt phys flags (m1, ok) =
    if ok then (set_leaf space virt (frame_of phys + flags % 4096) m1, pos 0) else (m1, negsuc 0)

map_rest-Mapped :
    {m : Mmu} {space virt : ℕ} (phys flags : ℕ) {r : Mmu × Bool}
    → virt < 2 ^ 32
    → Ensured space (pd_index virt) table_flags m r
    → Mapped m space virt phys flags (map_rest space virt phys flags r)
map_rest-Mapped phys flags lt (no_page all absent) = failed all absent
map_rest-Mapped {m} {space} {virt} phys flags lt (ready m1 v s there same others grows directory) =
    let c = set_leaf-Changed m1 v space s virt (frame_of phys + flags % 4096) lt there in
    mapped _ (record {
      ready = c.ready;
      space_kept = c.space_kept;
      here = c.here;
      elsewhere = λ w small ne. c.elsewhere w small ne ∙ same w small;
      dropped = c.dropped ∙ rw (others.0, others.1);
      grown = (λ j u. c.grown.0 j (grows.0 j u), c.grown.1 ∙ grows.1);
      directory = (
        λ p. c.directory.0 there ∙ directory.0 p,
        λ a. ap (λ x. x % 4096) (c.directory.0 there) ∙ directory.1 a,
      );
    })

-- In a well-formed space `vmm_map` either returns 0, and then every address of the page leads to
-- the given frame and flags, every address outside the page to what it led to before, the space
-- stays well formed, the directory's entry for the address is the one that was there or a new one
-- with the flags present, writable and user, and the processor drops what it holds for the address
-- if the space is the current one; or it returns -1 and changes nothing, when the address has no table and no page is
-- free.
pub vmm_map-Mapped :
    {m : Mmu} {space : ℕ} (virt phys flags : ℕ)
    → IsReady m.pmm
    → IsSpace m.pmm m.word space
    → virt < 2 ^ 32
    → Mapped m space virt phys flags (vmm_map space virt phys flags m)
unfolding vmm_map
vmm_map-Mapped {m} {space} virt phys flags v s lt = map_rest-Mapped phys flags lt (
    ensure_table-Ensured m v space s (pd_index virt) table_flags (omega arith) (omega arith)
      (omega arith))

none_here :
    (word : ℕ → ℕ) (space virt : ℕ)
    → is_present (word (space + 4 * pd_index virt)) ≡ false
    → (w : ℕ) → w / 4096 ≡ virt / 4096
    → leaf word space w ≡ 0
unfolding leaf
none_here word space virt absent w h =
    let d : pd_index w ≡ pd_index virt = omega arith in rw (d, absent)

-- In a well-formed space `vmm_unmap` returns 0, no address of the page is mapped any more, every
-- address outside the page leads to what it led to before, and the space stays well formed.
pub vmm_unmap-leaf :
    (m : Mmu) (space virt : ℕ)
    → IsReady m.pmm
    → IsSpace m.pmm m.word space
    → virt < 2 ^ 32
    → let (m1, code) = vmm_unmap space virt m in
      (code ≡ pos 0)
      × IsSpace m1.pmm m1.word space
      × ((w : ℕ) → w / 4096 ≡ virt / 4096 → leaf m1.word space w ≡ 0)
      × ((w : ℕ) → w < 2 ^ 32 → w / 4096 ≢ virt / 4096 → leaf m1.word space w ≡ leaf m.word space w)
unfolding vmm_unmap
vmm_unmap-leaf m space virt v s lt =
    elim (Bool-cases (is_present (m.word (space + 4 * pd_index virt)))) [
      | inl there ↦
          let c = set_leaf-Changed m v space s virt 0 lt there in
          rw there (refl, c.space_kept, c.here, c.elsewhere)
      | inr absent ↦ rw absent (refl, s, none_here m.word space virt absent, λ w _ _. refl)
    ]

present_frame : (phys flags : ℕ) → flags % 2 ≡ 1 → is_present (frame_of phys + flags % 4096) ≡ true
present_frame phys flags odd = ground arith

frame_frame : (phys flags : ℕ) → frame_of (frame_of phys + flags % 4096) ≡ frame_of phys
frame_frame phys flags = omega arith

undone :
    (m : Mmu) (space virt phys flags : ℕ) {r : Mmu × ℤ}
    → virt < 2 ^ 32
    → leaf m.word space virt ≡ 0
    → flags % 2 ≡ 1
    → Mapped m space virt phys flags r
    → r.1 ≡ pos 0
    → ((w : ℕ)
        → w / 4096 ≡ virt / 4096
        → translate r.0.word space w ≡ some (frame_of phys + w % 4096))
      × ((w : ℕ)
          → w < 2 ^ 32
          → leaf (vmm_unmap space virt r.0).0.word space w ≡ leaf m.word space w)
unfolding translate
undone m space virt phys flags lt unmapped odd (failed all absent) ok =
    absurd (omega (arith, ap neg_part ok))
undone m space virt phys flags lt unmapped odd (mapped m1 c) ok =
    let u = vmm_unmap-leaf m1 space virt c.ready c.space_kept lt in
    (
      λ w h. rw (c.here w h, present_frame phys flags odd, frame_frame phys flags),
      λ w small. elim (Bool-cases (w / 4096 == virt / 4096)) [
        | inl e ↦
            let h : w / 4096 ≡ virt / 4096 = ground arith in
            u.2 w h ∙ sym unmapped ∙ sym (leaf-page m.word space w virt h)
        | inr e ↦
            let ne : w / 4096 ≢ virt / 4096 = λ q. ground arith in
            u.3 w small ne ∙ c.elsewhere w small ne
      ],
    )

-- A page of a well-formed space that is mapped with the present flag where nothing was mapped
-- translates each of its addresses into the frame, and after `vmm_unmap` every address of the
-- space leads to what it led to before.
pub unmap-map :
    (m : Mmu) (space virt phys flags : ℕ)
    → IsReady m.pmm
    → IsSpace m.pmm m.word space
    → virt < 2 ^ 32
    → leaf m.word space virt ≡ 0
    → flags % 2 ≡ 1
    → (vmm_map space virt phys flags m).1 ≡ pos 0
    → let m1 = (vmm_map space virt phys flags m).0 in
      ((w : ℕ)
        → w / 4096 ≡ virt / 4096
        → translate m1.word space w ≡ some (frame_of phys + w % 4096))
      × ((w : ℕ) → w < 2 ^ 32 → leaf (vmm_unmap space virt m1).0.word space w ≡ leaf m.word space w)
unmap-map m space virt phys flags v s lt unmapped odd ok =
    undone m space virt phys flags lt unmapped odd (vmm_map-Mapped virt phys flags v s lt) ok
