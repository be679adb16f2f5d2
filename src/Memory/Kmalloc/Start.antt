-- ===== src/Memory/Kmalloc/Start.antt =====
-- src/memory/kmalloc.cpp: `kmalloc_init`.
use nemo_os.Base.{
  ℕ, ◌+◌, ◌*◌, ◌<◌, ◌≡◌, refl, ap, ◌∙◌, Bool, true, false, arith, ◌==◌, if◌then◌else◌,
}
use nemo_os.Memory.Pmm.{Pmm, page_size}
use nemo_os.Memory.Pmm.Inv.{is_used}
use nemo_os.Memory.Pmm.Alloc.{Allocated, full, page, alloc_page-Allocated}
use nemo_os.Memory.Vmm.Inv.{IsReady}
use nemo_os.Memory.Words.{put}
use nemo_os.Memory.Kmalloc.{Heap, kmalloc_init, set_footer, store, new_block}
use nemo_os.Memory.Kmalloc.FreeList.{Blocks, IsFree}

abbrev pub one_page : ℕ → Blocks
one_page a = record { count = 1; at = λ _. a; size = λ _. 4096 }

-- What a call may leave: PANIC when there is no page; or one free block, a page that was not in use.
pub data Begun (m : Heap) : Heap × Bool → Type 0 where
  panic : ((j : ℕ) → j < m.pmm.total_pages → is_used m.pmm j ≡ true) → Begun m (m, false)
  begun :
      (m1 : Heap) (n : ℕ)
      → is_used m.pmm n ≡ false
      → is_used m1.pmm n ≡ true
      → IsReady m1.pmm
      → IsFree (one_page (n * 4096)) m1
      → m1.heap_end ≡ n * 4096 + 4096
      → Begun m (m1, true)

abbrev init_by : Heap → Pmm × ℕ → Heap × Bool
init_by m (q, initial) =
    let m1 = record m { pmm = q; heap_end = initial + 4096 } in
    let m2 = set_footer initial (new_block initial 4096 m1) in
    let m3 = record m2 { free_list = initial } in
    if initial == 0
    then (record m { pmm = q }, false)
    else (store (initial + 12) 0 (store (initial + 8) 0 m3), true)

init_by-Begun :
    (m : Heap) → IsReady m.pmm → {r : Pmm × ℕ} → Allocated m.pmm r → Begun m (init_by m r)
unfolding set_footer put
init_by-Begun m v (full all) = panic all
init_by-Begun m v (page n inside free below q w bits used total) = rw nonzero (
    begun _ n free (bits n ∙ ground arith)
      (record { valid = w; null_used = bits 0 ∙ ground (arith, v.null_used) })
      (record {
        head = refl;
        nonzero = λ i li e. ground arith;
        sized = λ i li. ground arith;
        next = λ i li. ground arith;
        prev = λ i li. ground arith;
        big = λ i li. omega arith;
        apart = λ i j li lj ne. absurd (ne (omega arith));
      })
      refl)
  where
    nonzero : (n * page_size == 0) ≡ false
    nonzero = ground (arith, ap (is_used m.pmm) {x = n} {y = 0}, v.null_used)

-- `kmalloc_init` either panics, when every page is in use, or leaves a well-formed free list of
-- one block, a page that was not in use, which ends where the heap does.
pub kmalloc_init-Begun : (m : Heap) → IsReady m.pmm → Begun m (kmalloc_init m)
unfolding kmalloc_init
kmalloc_init-Begun m v = init_by-Begun m v (alloc_page-Allocated v.valid)
