-- ===== src/Lib.antt =====
-- Nemo OS: the parts of the kernel that keep state or compute, as functions on that state.
--
-- Memory.Pmm is src/memory/pmm_bitmap.cpp: `init`, `alloc_page`, `free_page` and `free_pages` are
-- the functions `pmm_*`, on a bitmap of bytes. Process is src/process/process.hpp and the process
-- table of src/process/process.cpp, with the record `Kernel` that the scheduler, the queues and
-- the system calls share; Process.Stack has the kernel stacks, which take pages from Memory.Pmm,
-- and the frames in them; Process.Life has `process_create`, `process_create_kernel`,
-- `process_destroy`, `process_first_enter`, `process_exit_current` and `process_set_entry`.
-- Scheduler is src/scheduler/scheduler.cpp: `scheduler_tick` runs in the timer interrupt, picks
-- the next process of the table with `find_next` and returns its stack pointer. Scheduler.Task is
-- the table of kernel tasks of src/scheduler/task.cpp. User is src/user/user_mode.cpp. Ipc is
-- src/ipc/ipc.cpp: `ipc_send` finds a process in the table and wakes it, `ipc_recv` reads the
-- queue of the running one. Syscalls is src/syscalls/syscall.cpp: `syscall_dispatch` with one
-- function `sys_*` for each case that does something.
--
-- Drivers.Keyboard is src/drivers/keyboard.cpp with the handler of
-- src/interrupts/keyboard_irq.cpp, which pushes to Drivers.KeyboardBuffer,
-- src/drivers/keyboard_buffer.cpp; system call 3 pops from it. Libk is src/libk: Libk.Memory,
-- Libk.Text for string.cpp, Libk.Itoa. Fs.Vfs is src/fs/vfs.cpp and Fs.Ramfs is src/fs/ramfs.cpp,
-- whose nodes path resolution walks through, with the functions that make nodes in
-- Fs.Ramfs.Create. Net has src/net/arp.cpp in Net.Arp, src/net/ip.cpp and src/net/icmp.cpp in
-- Net.Ip with their checksum in Net.Checksum, and src/net/net.cpp with `rtl8139_poll` of
-- src/drivers/rtl8139.cpp in Net.Poll. Base has what the parts share: arrays, bits, signed
-- numbers, and circular buffers with the queue that they stand for (Base.Ring, Base.Fifo).
--
-- Numbers are natural numbers; where the source computes in 32 or 16 bits and may wrap around, the
-- remainder is written out. An object on the kernel heap is named by its address, 0 is a null
-- pointer, and memory is a function of the address. A char pointer is the list of the bytes from
-- it on. A write past an array that the source does not guard is the result `none`. Fs has, for a
-- call of `kmalloc`, the address that it returns as an argument. Process.Life calls
-- Memory.Kmalloc, Memory.Vmm and User; there the block of a process is an object beside the memory
-- by words.
--
-- Memory.Words is memory by words, and Memory.Vmm is src/memory/vmm.cpp over it: page directories
-- and tables are pages that Memory.Pmm gives out. Memory.Paging is src/memory/paging.cpp, which
-- builds the first directory. Memory.Kmalloc is src/memory/kmalloc.cpp: block headers, footers and
-- the links of the free list are words, and `heap_grow` takes its pages from Memory.Pmm.
--
-- Fs.Fat32 is src/fs/fat32.cpp: Fs.Fat32 itself reads clusters and files, Fs.Fat32.Directory finds
-- and lists entries, Fs.Fat32.Mount reads the partition table and the volume's first sector. A
-- device that answers a sector with bytes or an error stands for `ata_read_sector`. Terminal is
-- src/terminal.cpp, Drivers.Pci is src/drivers/pci.cpp over the answers of the configuration port,
-- and Interrupts has the tables of src/interrupts/gdt.cpp, src/interrupts/idt.cpp and
-- src/interrupts/tss.cpp.
--
-- Loops over an array recurse on the number of rounds left. The others take fuel: ten rounds for
-- the digits of `itoa`, since 2^32 has ten digits; the length of the path for `walk`, since a
-- round takes a character; the number of nodes for a list of children; two rounds for the
-- checksum, since the first leaves at most 0x1FFFE; and for `net_poll` the fill level of the ring,
-- since a round moves the offset on; one more than the number of free blocks for the free list;
-- 2^20 rounds for a range of pages, the pages of the address space; and one more than the number
-- of clusters for the chain of a file or directory on FAT32. `alloc_kernel_stack` takes the depth
-- of its recursion, for which no bound exists.
--
-- Not modelled: the ELF loader, ATA and sleeping, which are left for later; the set-up of
-- interrupt controllers, timers, serial port and cards, the copy of the user program, panic and
-- the shell, which are input and output; and the assembly files.
pub mod Base
pub mod Memory
pub mod Drivers
pub mod Process
pub mod Libk
pub mod Scheduler
pub mod Ipc
pub mod Syscalls
pub mod Terminal
pub mod Interrupts
pub mod Net
pub mod Fs
pub mod User
