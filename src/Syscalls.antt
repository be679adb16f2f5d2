-- ===== src/Syscalls.antt =====
-- src/syscalls/syscall.cpp: the system calls, numbered in `eax`, with their arguments in `ebx`,
-- `ecx` and `edx`.
pub mod Wait
pub mod Kill
mod Tests
use nemo_os.Base.{
  ℕ, zero, suc, ◌+◌, ◌-◌, ◌%◌, ◌^◌, Bool, ◌&&◌, ◌||◌, not, Option, none, some, List, [], ◌∷◌, leb,
  ◌==◌, if◌then◌else◌,
}
use nemo_os.Base.Int.{ℤ, pos, negsuc}
use nemo_os.Drivers.KeyboardBuffer.{KeyboardBuffer, pop}
use nemo_os.Process.{dead, is_dead, Kernel, put_proc, set_state, process_get, current}
use nemo_os.Process.Life.{System, with_kernel, process_destroy}
use nemo_os.Ipc.{ipc_send, ipc_recv}

-- What the calls work on. `printed` are the characters passed to `terminal.putchar`, the last one
-- first, and `memory` are the bytes at their addresses.
pub record Machine : Type 0 where
  pub system : System
  pub keyboard : KeyboardBuffer
  pub timer_ticks : ℕ
  pub printed : List ℕ
  pub memory : ℕ → ℕ

-- An `int` as an `unsigned int`.
abbrev pub to_unsigned : ℤ → ℕ
to_unsigned (pos n) = n % 2 ^ 32
to_unsigned (negsuc n) = 2 ^ 32 - 1 - n

abbrev pub failed : ℕ
failed = 0xFFFFFFFF

-- The loop of call 2 over the characters at an address.
unfoldable pub write_from : ℕ → ℕ → (ℕ → ℕ) → List ℕ → List ℕ
write_from zero str memory printed = printed
write_from (suc rounds) str memory printed =
    let rest = write_from rounds (str + 1) memory (memory str ∷ printed) in
    if memory str == 0 then printed else rest

unfoldable pub sys_write : ℕ → ℕ → Machine → Machine × ℕ
sys_write str len m =
    if str == 0 then (m, 0) else (record m { printed = write_from len str m.memory m.printed }, len)

abbrev pub store : ℕ → ℕ → (ℕ → ℕ) → ℕ → ℕ
store a c memory = λ b. if b == a then c else memory b

-- The loop of call 3, with `count` characters read so far.
unfoldable pub read_from : ℕ → ℕ → ℕ → Machine → Machine × ℕ
read_from zero count buf m = (m, count)
read_from (suc rounds) count buf m =
    let (k, c) = pop m.keyboard in
    let m1 = record m { keyboard = k } in
    elim c [
      | none ↦ (m1, count)
      | some c ↦
          read_from rounds (count + 1) buf (record m1 { memory = store (buf + count) c m.memory })
    ]

unfoldable pub sys_read : ℕ → ℕ → Machine → Machine × ℕ
sys_read buf max m = if (buf == 0) || (max == 0) then (m, 0) else read_from max 0 buf m

unfoldable pub sys_exit : ℕ → System → System × ℕ
sys_exit code s =
    let p = current s.kernel in
    let x = s.kernel.proc p in
    if p == 0
    then (s, 0)
    else (with_kernel (put_proc p (record x { exit_code = code; state = dead }) s.kernel) s, 0)

-- Does call 5 look for this child? `pid` is an `int` in 32 bits: any child if it is negative.
unfoldable pub is_waited : ℕ → ℕ → Kernel → ℕ → Bool
is_waited me pid k child =
    not (child == 0)
    && ((k.proc child).parent_pid == (k.proc me).pid)
    && (leb (2 ^ 31) pid || ((k.proc child).pid == pid))

-- The loop of call 5 from index `i`.
unfoldable pub wait_from : ℕ → ℕ → ℕ → ℕ → ℕ → System → System × ℕ
wait_from zero i kernel_space me pid s = (s, failed)
wait_from (suc rounds) i kernel_space me pid s =
    let rest = wait_from rounds (i + 1) kernel_space me pid s in
    let child = process_get i s.kernel in
    if not (is_waited me pid s.kernel child)
    then rest
    else if is_dead (s.kernel.proc child).state
    then (process_destroy kernel_space child s, (s.kernel.proc child).pid)
    else rest

unfoldable pub sys_wait : ℕ → ℕ → System → System × ℕ
sys_wait kernel_space pid s =
    let me = current s.kernel in
    if me == 0 then (s, failed) else wait_from s.kernel.process_count 0 kernel_space me pid s

-- The loop of call 6 from index `i`.
unfoldable pub kill_from : ℕ → ℕ → ℕ → System → System × ℕ
kill_from zero i pid s = (s, failed)
kill_from (suc rounds) i pid s =
    let rest = kill_from rounds (i + 1) pid s in
    let p = process_get i s.kernel in
    if not (p == 0) && ((s.kernel.proc p).pid == pid)
    then (with_kernel (set_state p dead s.kernel) s, 0)
    else rest

unfoldable pub sys_kill : ℕ → System → System × ℕ
sys_kill pid s = kill_from s.kernel.process_count 0 pid s

-- `n` bytes of memory from an address on, and the bytes written back.
unfoldable pub load_bytes : ℕ → ℕ → (ℕ → ℕ) → List ℕ
load_bytes zero a memory = []
load_bytes (suc n) a memory = memory a ∷ load_bytes n (a + 1) memory

unfoldable pub store_bytes : ℕ → List ℕ → (ℕ → ℕ) → ℕ → ℕ
store_bytes a [] memory = memory
store_bytes a (b ∷ bs) memory = store_bytes (a + 1) bs (store a b memory)

abbrev pub pointer : ℕ → ℕ → (ℕ → ℕ) → Option (List ℕ)
pointer a n memory = if a == 0 then none else some (load_bytes n a memory)

unfoldable pub sys_send : ℕ → ℕ → ℕ → Machine → Machine × ℕ
sys_send pid a size m =
    let (k, r) = ipc_send pid (pointer a size m.memory) size m.system.kernel in
    (record m { system = with_kernel k m.system }, to_unsigned r)

-- No address is given for the sender's pid.
unfoldable pub sys_recv : ℕ → ℕ → Machine → Machine × ℕ
sys_recv buf size m =
    let (k, r) = ipc_recv (pointer buf size m.memory) size m.system.kernel in
    (
      record m { system = with_kernel k m.system; memory = store_bytes buf r.bytes m.memory },
      to_unsigned r.result,
    )

abbrev pub on_system : System × ℕ → Machine → Machine × ℕ
on_system (s, r) m = (record m { system = s }, r)

-- The new state, and what `eax` returns.
unfoldable pub syscall_dispatch : ℕ → ℕ → ℕ → ℕ → ℕ → Machine → Machine × ℕ
syscall_dispatch kernel_space eax ebx ecx edx m =
    if eax == 1
    then (m, m.timer_ticks)
    else if eax == 2
    then sys_write ebx ecx m
    else if eax == 3
    then sys_read ebx ecx m
    else if eax == 4
    then on_system (sys_exit ebx m.system) m
    else if eax == 5
    then on_system (sys_wait kernel_space ebx m.system) m
    else if eax == 6
    then on_system (sys_kill ebx m.system) m
    else if eax == 7
    then sys_send ebx ecx edx m
    else if eax == 8
    then sys_recv ebx ecx m
    else (m, failed)
