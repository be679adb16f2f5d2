-- ===== src/Process/Life/Tests.antt =====
-- Stacks, frames and processes at concrete states.
use nemo_os.Base.{
  ℕ, zero, suc, ◌<◌, ◌≡◌, refl, Option, none, some, [], ◌∷◌, arith, ◌==◌, if◌then◌else◌, get_or,
}
use nemo_os.Base.Bits.{test_in, set_in}
use nemo_os.Memory.Pmm.{Pmm, alloc_page, alloc_from, take_page, test_bit, set_bit}
use nemo_os.Memory.Pmm.Inv.{IsValid}
use nemo_os.Memory.Pmm.Count.{count_below}
use nemo_os.Memory.Pmm.Tests.{dozen, dozen-IsValid}
use nemo_os.Process.Tests.{two, two-IsTable}
use nemo_os.Process.Stack.{alloc_kernel_stack}
use nemo_os.Process.Stack.Pages.{alloc_kernel_stack-diverges}
use nemo_os.Memory.Kmalloc.{Heap}
use nemo_os.Process.Life.{System, process_destroy}
use nemo_os.Process.Life.Destroy.{Destroyed, process_destroy-Destroyed}

-- The free pages of `dozen` are 3, 5, 6, 7, 9, 10 and 11.
dozen_third : (alloc_page dozen).1 ≡ 0x3000
unfolding alloc_page alloc_from take_page test_bit set_bit test_in set_in
dozen_third = refl

dozen_fifth : (alloc_page (alloc_page dozen).0).1 ≡ 0x5000
unfolding alloc_page alloc_from take_page test_bit set_bit test_in set_in
dozen_fifth = refl

alloc_kernel_stack-diverges_example : alloc_kernel_stack 100 dozen ≡ none
alloc_kernel_stack-diverges_example =
    alloc_kernel_stack-diverges 100 dozen dozen-IsValid (rw dozen_third (omega arith))
      (rw dozen_fifth (omega arith)) (rw (dozen_third, dozen_fifth) (omega arith))

-- After the third page is taken, 5 and 6 are the lowest free pages.
abbrev eleven : Pmm
eleven = record dozen { bitmap = 31 ∷ 1 ∷ []; used_pages = 6 }

eleven-IsValid : IsValid eleven
unfolding test_bit test_in count_below
eleven-IsValid = record { bytes = bytes; fits = omega arith; small = omega arith; counted = refl }
  where
    bytes : (i : ℕ) → get_or eleven.bitmap i 0 < 256
    bytes zero = omega arith
    bytes (suc zero) = omega arith
    bytes (suc (suc i)) = omega arith

eleven_first : (alloc_page eleven).1 ≡ 0x5000
unfolding alloc_page alloc_from take_page test_bit set_bit test_in set_in
eleven_first = refl

eleven_second : (alloc_page (alloc_page eleven).0).1 ≡ 0x6000
unfolding alloc_page alloc_from take_page test_bit set_bit test_in set_in
eleven_second = refl

-- The heap has one free page, at the address 0x3000.
abbrev running_system : System
running_system = record {
  kernel = two;
  pmm = eleven;
  word = λ a. if a == 0x3000 then 4096 else if a == 0x3004 then 0xDEAD else 0;
  free_list = 0x3000;
  heap_end = 0x4000;
  next_pid = 3;
  released = [];
}

abbrev address : Option (Heap × ℕ) → ℕ
address none = 0
address (some (h, a)) = a

process_destroy-Destroyed_example :
    Destroyed 0x100 running_system (process_destroy 0x1000 0x100 running_system)
process_destroy-Destroyed_example =
    process_destroy-Destroyed 0x1000 0x100 running_system (λ e. omega arith) two-IsTable
      eleven-IsValid (λ b. omega arith)
