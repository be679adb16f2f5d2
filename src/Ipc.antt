-- ===== src/Ipc.antt =====
-- src/ipc/ipc.cpp: messages between processes, in a circular queue for each receiver.
pub mod Queue
pub mod Send
pub mod Receive
pub mod Roundtrip
mod Tests
use nemo_os.Base.{
  ℕ, zero, suc, ◌+◌, ◌-◌, ◌%◌, ◌||◌, not, Option, none, some, List, [], ltb, leb, ◌==◌,
  if◌then◌else◌, set, get_or, replicate,
}
use nemo_os.Base.Int.{ℤ, pos, negsuc}
use nemo_os.Libk.Memory.{memcpy}
use nemo_os.Process.{ready, blocked, is_blocked, is_dead, IpcMsg, IpcQueue}
use nemo_os.Process.{Kernel, put_queue, set_state, process_get, current}

abbrev pub max_msg_size : ℕ
max_msg_size = 64

abbrev pub max_msg_per_proc : ℕ
max_msg_per_proc = 16

-- The `int` that a call returns when it fails.
abbrev pub failed : ℤ
failed = negsuc 0

-- An unused slot; read only beyond the array.
unfoldable pub blank_msg : IpcMsg
blank_msg = record { sender_pid = 0; size = 0; body = replicate 64 0 }

unfoldable pub queue_init : IpcQueue → IpcQueue
queue_init q = record q { head = 0; tail = 0; count = 0 }

-- The part of `ipc_send` that fills the slot at the tail; the bytes behind the message stay.
unfoldable pub enqueue : ℕ → List ℕ → ℕ → IpcQueue → IpcQueue
enqueue sender data_bytes size q =
    let msg = get_or q.msgs q.tail blank_msg in
    record q {
      msgs =
          set q.msgs q.tail
            (record { sender_pid = sender; size = size; body = memcpy msg.body data_bytes size });
      tail = (q.tail + 1) % max_msg_per_proc;
      count = q.count + 1;
    }

-- The pid that a message is sent under.
unfoldable pub sender_of : Kernel → ℕ
sender_of k = if current k == 0 then 0 else (k.proc (current k)).pid

-- The body of the loop of `ipc_send`, for the process at `p`.
unfoldable pub deliver : ℕ → List ℕ → ℕ → Kernel → Kernel × ℤ
deliver p data_bytes size k =
    let x = k.proc p in
    let q = k.queue x.msg_queue in
    if is_dead x.state
    then (k, failed)
    else if x.msg_queue == 0
    then (k, failed)
    else if leb max_msg_per_proc q.count
    then (k, failed)
    else let sent = put_queue x.msg_queue (enqueue (sender_of k) data_bytes size q) k in
      (if is_blocked x.state then set_state p ready sent else sent, pos 0)

-- The loop of `ipc_send` from index `i`, with `rounds` rounds left.
unfoldable pub send_from : ℕ → ℕ → ℕ → List ℕ → ℕ → Kernel → Kernel × ℤ
send_from zero i target data_bytes size k = (k, failed)
send_from (suc rounds) i target data_bytes size k =
    let rest = send_from rounds (i + 1) target data_bytes size k in
    let p = process_get i k in
    if (p == 0) || not ((k.proc p).pid == target) then rest else deliver p data_bytes size k

-- `source` holds the bytes behind the pointer `data`, `none` for a null pointer.
unfoldable pub ipc_send : ℕ → Option (List ℕ) → ℕ → Kernel → Kernel × ℤ
ipc_send target none size k = (k, failed)
ipc_send target (some data_bytes) size k =
    if (size == 0) || ltb max_msg_size size
    then (k, failed)
    else send_from k.process_count 0 target data_bytes size k

-- What `ipc_recv` returns, what it stores through `sender`, and the bytes behind `buf` afterwards.
pub record Received : Type 0 where
  pub result : ℤ
  pub sender : Option ℕ
  pub bytes : List ℕ

-- The part of `ipc_recv` that takes the oldest message out of a queue that has one.
unfoldable pub dequeue : List ℕ → ℕ → IpcQueue → IpcQueue × Received
dequeue bytes size q =
    let msg = get_or q.msgs q.head blank_msg in
    let copy_size = if ltb msg.size size then msg.size else size in
    (
      record q { head = (q.head + 1) % max_msg_per_proc; count = q.count - 1 },
      record {
        result = pos copy_size;
        sender = some msg.sender_pid;
        bytes = memcpy bytes msg.body copy_size;
      },
    )

abbrev pub nothing : ℤ → List ℕ → Received
nothing result bytes = record { result = result; sender = none; bytes = bytes }

-- `buf` holds the bytes behind the pointer, `none` for a null pointer.
unfoldable pub ipc_recv : Option (List ℕ) → ℕ → Kernel → Kernel × Received
ipc_recv none size k = (k, nothing failed [])
ipc_recv (some bytes) size k =
    let me = current k in
    let qp = (k.proc me).msg_queue in
    if (me == 0) || (size == 0)
    then (k, nothing failed bytes)
    else if qp == 0
    then (k, nothing failed bytes)
    else if (k.queue qp).count == 0
    then (set_state me blocked k, nothing (pos 0) bytes)
    else let (q', r) = dequeue bytes size (k.queue qp) in (put_queue qp q' k, r)
