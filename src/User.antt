-- ===== src/User.antt =====
-- src/user/user_mode.cpp: the pages of a user program in the space of its process.
pub mod Install
pub mod Tests
use nemo_os.Base.{ℕ, ◌+◌, ◌||◌, ◌==◌, if◌then◌else◌}
use nemo_os.Memory.Pmm.{alloc_page}
use nemo_os.Memory.Vmm.{Mmu, vmm_map}

abbrev pub user_code_addr : ℕ
user_code_addr = 0x40000000

abbrev pub user_stack_addr : ℕ
user_stack_addr = 0x40001000

-- `VMM_PRESENT | VMM_USER`
abbrev pub code_flags : ℕ
code_flags = 5

-- `VMM_PRESENT | VMM_WRITABLE | VMM_USER`
abbrev pub stack_flags : ℕ
stack_flags = 7

pub user_code_entry : ℕ
user_code_entry = user_code_addr

pub user_stack_top_value : ℕ
user_stack_top_value = user_stack_addr + 4096

-- `user_code_phys` is the page that `user_map_pages` copied the program to, 0 for none. The results
-- of `vmm_map` are not looked at.
unfoldable pub user_install_into_space : ℕ → ℕ → Mmu → Mmu
user_install_into_space space user_code_phys m =
    let m1 = (vmm_map space user_code_addr user_code_phys code_flags m).0 in
    let (p, stack_phys) = alloc_page m1.pmm in
    let m2 = record m1 { pmm = p } in
    if (space == 0) || (user_code_phys == 0)
    then m
    else if stack_phys == 0
    then m2
    else (vmm_map space user_stack_addr stack_phys stack_flags m2).0
