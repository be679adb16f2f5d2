-- ===== src/Ipc/Tests.antt =====
-- ipc.cpp at two processes, the first blocked on an empty queue.
use nemo_os.Base.{
  ℕ, zero, suc, ◌≤◌, ◌≡◌, refl, some, List, [], ◌∷◌, arith, ◌==◌, if◌then◌else◌, length, get_or,
  take, replicate,
}
use nemo_os.Base.Int.{pos}
use nemo_os.Process.{IpcMsg, IpcQueue, Kernel, ready, running, blocked, process_get}
use nemo_os.Process.Tests.{two, idle_process}
use nemo_os.Ipc.{
  blank_msg, max_msg_per_proc, queue_init, ipc_send, ipc_recv, sender_of, enqueue, dequeue,
}
use nemo_os.Ipc.Queue
use nemo_os.Ipc.Queue.{contents, view}
use nemo_os.Ipc.Send.{QueuesAreValid, Sent, ipc_send-Sent}
use nemo_os.Ipc.Receive.{Taken, ipc_recv-Taken}
use nemo_os.Ipc.Roundtrip.{recv-send}
use nemo_os.Base.Ring.{slots}

abbrev empty_msg : IpcMsg
empty_msg = record { sender_pid = 0; size = 0; body = replicate 64 0 }

abbrev empty_queue : IpcQueue
empty_queue = record { msgs = replicate 16 empty_msg; head = 0; tail = 0; count = 0 }

-- Process 1 at 0x100 waits; process 2 at 0x200 runs. Their queues lie at 0x500 and 0x600.
abbrev waiting : Kernel
waiting = record two {
  proc = λ a.
      if a == 0x100
      then record (idle_process 1 blocked) { msg_queue = 0x500 }
      else record (idle_process 2 running) { msg_queue = 0x600 };
  queue = λ a. empty_queue;
}

slot_body : (n i : ℕ) → length (get_or (replicate n empty_msg) i blank_msg).body ≡ 64
unfolding blank_msg
slot_body zero i = refl
slot_body (suc n) zero = refl
slot_body (suc n) (suc i) = slot_body n i

slot_size : (n i : ℕ) → (get_or (replicate n empty_msg) i blank_msg).size ≤ 64
unfolding blank_msg
slot_size zero i = omega arith
slot_size (suc n) zero = omega arith
slot_size (suc n) (suc i) = slot_size n i

empty-IsValid : Queue.IsValid empty_queue
empty-IsValid = record {
  storage = refl;
  bodies = slot_body 16;
  sizes = slot_size 16;
  head_in = omega arith;
  fits = omega arith;
  tail_at = refl;
}

waiting-AreValid : QueuesAreValid waiting
waiting-AreValid p has = empty-IsValid

abbrev hi : List ℕ
hi = b'h' ∷ b'i' ∷ []

send_wakes : ((ipc_send 1 (some hi) 2 waiting).0.proc 0x100).state ≡ ready
unfolding ipc_send nemo_os.Ipc.send_from nemo_os.Ipc.deliver process_get
send_wakes = refl

ipc_send-Sent_example : Sent 1 hi 2 waiting (ipc_send 1 (some hi) 2 waiting)
ipc_send-Sent_example = ipc_send-Sent 1 hi 2 waiting waiting-AreValid (omega arith)

ipc_recv-Taken_example : Taken hi 2 waiting (ipc_recv (some hi) 2 waiting)
ipc_recv-Taken_example = ipc_recv-Taken hi 2 waiting waiting-AreValid

abbrev buffer : List ℕ
buffer = 0 ∷ 0 ∷ 0 ∷ 0 ∷ []

recv-send_example :
    let k' = record (ipc_send 1 (some hi) 2 waiting).0 { current_process = some 0 } in
    let r = (ipc_recv (some buffer) 4 k').1 in
    (r.result ≡ pos 2) × (r.sender ≡ some (sender_of waiting)) × (take 2 r.bytes ≡ hi)
unfolding process_get slots
recv-send_example =
    recv-send 1 0 hi 2 waiting waiting-AreValid (omega arith) refl (λ j h. absurd (omega arith))
      refl (omega arith) (omega arith) (omega arith) buffer 4 refl (omega arith) (omega arith)
