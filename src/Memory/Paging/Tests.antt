-- ===== src/Memory/Paging/Tests.antt =====
-- The theorems on paging.cpp at a concrete state.
use nemo_os.Base.{◌≡◌, refl, Bool, some, arith}
use nemo_os.Memory.Vmm.{Mmu}
use nemo_os.Memory.Vmm.Tests.{live_pages, small_machine, dozen-IsReady, small-IsSpace}
use nemo_os.Memory.Paging.{paging_map_identity, paging_init}
use nemo_os.Memory.Paging.Identity.{Mapped, paging_map_identity-Mapped}
use nemo_os.Memory.Paging.Boot.{Started, mapped_end, paging_init-Started}

paging_map_identity-Mapped_example :
    (m1 : Mmu) × (paging_map_identity 1048576 4096 0x40000123 0x40002001 3 small_machine ≡ some m1)
    × Mapped 4096 0x40000000 0x40003000 3 small_machine m1
paging_map_identity-Mapped_example =
    paging_map_identity-Mapped 4096 0x40000123 0x40002001 3 small_machine dozen-IsReady
      small-IsSpace

paging_init-Started_example :
    (r : Mmu × Bool) × (paging_init 1048576 4096 8192 5 small_machine ≡ some r)
    × Started 4096 (mapped_end 5) r
paging_init-Started_example =
    paging_init-Started 4096 8192 5 small_machine dozen-IsReady refl refl (λ e. omega arith)
      live_pages.0 live_pages.1
