-- ===== src/Process/Stack.antt =====
-- src/process/process.cpp: the kernel stack of a process, and the frame that its first switch
-- returns through. Memory is read and written by words, each at the address of its first byte.
pub mod Frame
pub mod Pages
use nemo_os.Base.{
  ℕ, zero, suc, ◌+◌, ◌-◌, ◌*◌, ◌%◌, ◌^◌, ◌||◌, Option, none, some, ◌==◌, if◌then◌else◌,
}
use nemo_os.Memory.Pmm.{Pmm, page_size, alloc_page, free_page}

-- `if(page) pmm_free_page(page);`
abbrev pub free_if : ℕ → Pmm → Pmm
free_if page p = if page == 0 then p else free_page page p

-- `alloc_kernel_stack`: the bottom of the stack, 0 for none. The first argument bounds the depth
-- of its recursion; `none` is a call that has not returned at that depth. Its `memset` of
-- the two pages is in `with_stack`, which has the memory.
unfoldable pub alloc_kernel_stack : ℕ → Pmm → Option (ℕ × Pmm)
alloc_kernel_stack zero p = none
alloc_kernel_stack (suc depth) p =
    let (p1, lo) = alloc_page p in
    let (p2, hi) = alloc_page p1 in
    let again = alloc_kernel_stack depth (free_page hi (free_page lo p2)) in
    if (lo == 0) || (hi == 0)
    then some (0, free_if hi (free_if lo p2))
    else if hi == (lo + 4096) % 2 ^ 32
    then some (lo, p2)
    else again

abbrev pub kernel_stack_bytes : ℕ
kernel_stack_bytes = 2 * page_size

-- `push`: the new stack pointer, and memory.
unfoldable pub push : ℕ → ℕ × (ℕ → ℕ) → ℕ × (ℕ → ℕ)
push v (sp, word) = (sp - 4, λ a. if a == sp - 4 then v else word a)

-- The eight pushes of a frame for `popa`.
unfoldable pub push_registers : ℕ × (ℕ → ℕ) → ℕ × (ℕ → ℕ)
push_registers s = push 0 (push 0 (push 0 (push 0 (push 0 (push 0 (push 0 (push 0 s)))))))

unfoldable pub build_user_frame : ℕ → ℕ → ℕ × (ℕ → ℕ) → ℕ × (ℕ → ℕ)
build_user_frame entry user_esp s =
    push_registers (push entry (push 0x1B (push 0x202 (push user_esp (push 0x23 s)))))

unfoldable pub build_kernel_frame : ℕ → ℕ × (ℕ → ℕ) → ℕ × (ℕ → ℕ)
build_kernel_frame entry s = push_registers (push entry (push 0x08 (push 0x202 s)))
