-- ===== src/Memory/Paging/Page.antt =====
-- src/memory/paging.cpp: one page.
use nemo_os.Base.{
  ℕ, ◌+◌, ◌*◌, ◌/◌, ◌%◌, ◌^◌, ◌<◌, ◌≡◌, ◌≢◌, ◌∙◌, Bool, true, false, ◌∷◌, arith, if◌then◌else◌,
}
use nemo_os.Memory.Pmm.Inv.{is_used}
use nemo_os.Memory.Vmm.{Mmu, is_present, frame_of, pd_index}
use nemo_os.Memory.Vmm.Inv.{Grows, leaf, IsSpace, IsReady}
use nemo_os.Memory.Vmm.Leaf.{leaf-here, leaf-elsewhere, after-IsSpace}
use nemo_os.Memory.Vmm.Map.{Ensured, no_page, ready, ensure_table-Ensured, leaf-page}
use nemo_os.Memory.Paging.{put_leaf, paging_map_page, init_page}

-- Every page is in use.
abbrev pub IsFull : Mmu → Type 0
IsFull m = (j : ℕ) → j < m.pmm.total_pages → is_used m.pmm j ≡ true

-- The page of `virt` now leads to `e`, and the rest to what it did.
pub record Paged (dir virt e : ℕ) (m m1 : Mmu) : Type 0 where
  pub ready : IsReady m1.pmm
  pub space : IsSpace m1.pmm m1.word dir
  pub grows : Grows m.pmm m1.pmm
  pub here : (w : ℕ) → w / 4096 ≡ virt / 4096 → leaf m1.word dir w ≡ e
  pub elsewhere :
      (w : ℕ) → w < 2 ^ 32 → w / 4096 ≢ virt / 4096 → leaf m1.word dir w ≡ leaf m.word dir w

-- Either a page is written, or there is no table for it and no page to make one.
pub data Attempt (dir virt e : ℕ) (m : Mmu) : Mmu → Bool → Type 0 where
  out_of_pages : IsFull m → Attempt dir virt e m m false
  written : (m1 : Mmu) → Paged dir virt e m m1 → Attempt dir virt e m m1 true

module _ (dir virt e : ℕ) (small : virt < 2 ^ 32) (m : Mmu) where
  put_leaf-Paged :
      (m1 : Mmu)
      → Grows m.pmm m1.pmm
      → IsReady m1.pmm
      → IsSpace m1.pmm m1.word dir
      → is_present (m1.word (dir + 4 * pd_index virt)) ≡ true
      → ((w : ℕ) → w < 2 ^ 32 → leaf m1.word dir w ≡ leaf m.word dir w)
      → Paged dir virt e m (put_leaf dir virt e m1)
  unfolding put_leaf
  put_leaf-Paged m1 grows v s there same = record {
    ready = v;
    space = after-IsSpace m1.pmm m1.word dir s e virt small there;
    grows = grows;
    here = λ w h. leaf-page _ dir w virt h ∙ leaf-here m1.pmm m1.word dir s e virt small there;
    elsewhere =
        λ w lt ne. leaf-elsewhere m1.pmm m1.word dir s e virt small there w lt ne ∙ same w lt;
  }

  init_by : Mmu × Bool → Mmu × Bool
  init_by (m1, ok) = if ok then (put_leaf dir virt e m1, true) else (m1, false)

  init_by-Attempt :
      {r : Mmu × Bool}
      → Ensured dir (pd_index virt) 3 m r
      → Attempt dir virt e m (init_by r).0 (init_by r).1
  unfolding init_by
  init_by-Attempt (no_page all absent) = out_of_pages all
  init_by-Attempt (ready m1 v s there same others grows _) =
      written _ (put_leaf-Paged m1 grows v s there same)

pub init_page-Attempt :
    (dir addr : ℕ) (m : Mmu)
    → IsReady m.pmm
    → IsSpace m.pmm m.word dir
    → addr < 2 ^ 32
    → Attempt dir addr (addr + 3) m (init_page dir addr m).0 (init_page dir addr m).1
unfolding init_page init_by
init_page-Attempt dir addr m v s lt =
    init_by-Attempt dir addr (addr + 3) lt m
      (ensure_table-Ensured m v dir s (pd_index addr) 3 (omega arith) (omega arith) (omega arith))

module _ (dir virt phys flags : ℕ) (m : Mmu) where
  abbrev leaf_value : ℕ
  leaf_value = frame_of phys + flags % 4096

  map_by : Mmu × Bool → Mmu
  map_by (m1, ok) =
      let m2 = put_leaf dir virt leaf_value m1 in
      if ok then record m2 { invalidated = virt ∷ m2.invalidated } else m1

  map_by-Attempt :
      (small : virt < 2 ^ 32) {r : Mmu × Bool}
      → Ensured dir (pd_index virt) (flags % 4096 / 2 * 2 + 1) m r
      → Attempt dir virt leaf_value m (map_by r) r.1
  unfolding map_by
  map_by-Attempt small (no_page all absent) = out_of_pages all
  map_by-Attempt small (ready m1 v s there same others grows _) =
      let p = put_leaf-Paged dir virt leaf_value small m m1 grows v s there same in
      written _ (record {
        ready = p.ready;
        space = p.space;
        grows = p.grows;
        here = p.here;
        elsewhere = p.elsewhere;
      })

  pub paging_map_page-Attempt :
      IsReady m.pmm
      → IsSpace m.pmm m.word dir
      → virt < 2 ^ 32
      → (ok : Bool) × Attempt dir virt leaf_value m (paging_map_page dir virt phys flags m) ok
  unfolding paging_map_page map_by
  paging_map_page-Attempt v s lt = (
    _,
    map_by-Attempt lt (
        ensure_table-Ensured m v dir s (pd_index virt) (flags % 4096 / 2 * 2 + 1) (omega arith)
          (omega arith) (omega arith)),
  )
