-- ===== src/Ipc/Roundtrip.antt =====
-- A message's whole way through ipc.cpp: what one process sends, the other receives.
use mathlib.Core.Path.{subst}
use nemo_os.Base.{
  ℕ, zero, suc, ◌+◌, ◌≤◌, ◌<◌, ◌≡◌, refl, sym, ap, ◌∙◌, inl, inr, Bool, true, false, ◌||◌, some,
  List, [], ◌∷◌, ◌++◌, arith, ltb, ◌==◌, if◌then◌else◌, Bool-cases, length, take, length-take,
}
use nemo_os.Base.Int.{pos}
use nemo_os.Process.{IpcQueue, Kernel, process_get, current}
use nemo_os.Ipc.{max_msg_size, deliver, send_from, ipc_send, ipc_recv, sender_of, enqueue}
use nemo_os.Ipc.Queue
use nemo_os.Ipc.Queue.{contents, enqueue-IsValid, contents-enqueue}
use nemo_os.Ipc.Send.{
  has_pid, accepts, queue_of, QueuesAreValid, sent_to, deliver-accepted, queue_of-sent_to,
  queue-sent_to, msg_queue-sent_to, skipped,
}
use nemo_os.Ipc.Receive.{ipc_recv-Taken, Taken-single}

-- The loop of `ipc_send` stops at the first process that has the pid.
send_from-first :
    (rounds i n target : ℕ) (bytes : List ℕ) (size : ℕ) (k : Kernel)
    → i ≤ n
    → n < i + rounds
    → has_pid target k n ≡ true
    → ((j : ℕ) → j < n → has_pid target k j ≡ false)
    → send_from rounds i target bytes size k ≡ deliver (process_get n k) bytes size k
unfolding send_from
send_from-first zero i n target bytes size k lo hi hit before = absurd (omega arith)
send_from-first (suc rounds) i n target bytes size k lo hi hit before = elim (Bool-cases (i == n)) [
  | inl here ↦ let same : i ≡ n = ground arith in rw (skipped target k i, same, hit) refl
  | inr behind ↦
      rw (skipped target k i, before i (ground arith))
        (send_from-first rounds (i + 1) n target bytes size k (ground arith) (omega arith) hit
          before)
]

pick-IsValid :
    (b : Bool) (x y : IpcQueue)
    → Queue.IsValid x
    → Queue.IsValid y
    → Queue.IsValid (if b then x else y)
pick-IsValid true x y hx hy = hx
pick-IsValid false x y hx hy = hy

module _ (target n : ℕ) (bytes : List ℕ) (size : ℕ) (k : Kernel) (valid : QueuesAreValid k)
    (inside : n < k.process_count) (hit : has_pid target k n ≡ true)
    (before : (j : ℕ) → j < n → has_pid target k j ≡ false)
    (takes : accepts (process_get n k) k ≡ true) (lo : 0 < size) (hi : size ≤ max_msg_size)
    (enough : size ≤ length bytes) where
  -- The receiver, and the state in which it runs after the message was sent.
  abbrev receiver : ℕ
  receiver = process_get n k

  abbrev resumed : Kernel
  resumed = record (sent_to receiver bytes size k) { current_process = some n }

  ipc_send-sent_to : ipc_send target (some bytes) size k ≡ (sent_to receiver bytes size k, pos 0)
  unfolding ipc_send
  ipc_send-sent_to =
      let good : ((size == 0) || ltb max_msg_size size) ≡ false = ground arith in
      rw good (
        send_from-first k.process_count 0 n target bytes size k (omega arith) (omega arith) hit
          before
        ∙ deliver-accepted receiver bytes size k takes)

  current-resumed : current resumed ≡ receiver
  unfolding current process_get
  current-resumed = ground arith

  QueuesAreValid-resumed : QueuesAreValid resumed
  QueuesAreValid-resumed p has =
      let e = msg_queue-sent_to receiver bytes size k p in
      subst Queue.IsValid
        (sym (
          ap (sent_to receiver bytes size k).queue e
          ∙ queue-sent_to receiver bytes size k (k.proc p).msg_queue))
        (pick-IsValid _ (enqueue (sender_of k) bytes size (queue_of receiver k)) (queue_of p k)
          (enqueue-IsValid (queue_of receiver k) (valid receiver (ground arith)) (sender_of k) bytes
            size (ground arith) hi)
          (valid p (λ z. has (e ∙ z))))

  contents-resumed :
      contents (queue_of receiver k) ≡ []
      → contents (queue_of (current resumed) resumed) ≡ (sender_of k, take size bytes) ∷ []
  contents-resumed empty =
      ap (λ a. contents (queue_of a resumed)) current-resumed
      ∙ (ap contents (queue_of-sent_to receiver bytes size k)
          ∙ (contents-enqueue (queue_of receiver k) (valid receiver (ground arith)) (sender_of k)
                bytes size (ground arith) hi enough
              ∙ ap (λ c. c ++ ((sender_of k, take size bytes) ∷ [])) empty))

  ready_to_take :
      (room : ℕ)
      → size ≤ room
      → ((current resumed == 0) || (room == 0) || ((resumed.proc (current resumed)).msg_queue == 0))
        ≡ false
  ready_to_take room fits =
      subst (λ a. ((a == 0) || (room == 0) || ((resumed.proc a).msg_queue == 0)) ≡ false)
        (sym current-resumed) (ground (arith, msg_queue-sent_to receiver bytes size k receiver))

  -- A message sent to a process whose queue is empty, and which has room for it, arrives whole:
  -- when that process runs and receives, it gets the number of bytes, the sender's pid and exactly
  -- the bytes that were sent.
  pub recv-send :
      (out : List ℕ) (room : ℕ)
      → contents (queue_of receiver k) ≡ []
      → size ≤ room
      → room ≤ length out
      → let k' = record (ipc_send target (some bytes) size k).0 { current_process = some n } in
        let r = (ipc_recv (some out) room k').1 in
        (r.result ≡ pos size)
        × (r.sender ≡ some (sender_of k))
        × (take size r.bytes ≡ take size bytes)
  recv-send out room empty fits big =
      let whole : length (take size bytes) ≡ size = omega (arith, length-take size bytes) in
      let got =
        Taken-single out room resumed (sender_of k) (take size bytes) (contents-resumed empty)
          (ready_to_take room fits) (omega arith) big
          (ipc_recv-Taken out room resumed QueuesAreValid-resumed) in
      subst
        (λ q.
          let r = (ipc_recv (some out) room (record q.0 { current_process = some n })).1 in
          (r.result ≡ pos size)
          × (r.sender ≡ some (sender_of k))
          × (take size r.bytes ≡ take size bytes))
        (sym ipc_send-sent_to)
        (
          got.0 ∙ ap pos whole,
          got.1,
          subst (λ m. take m (ipc_recv (some out) room resumed).1.bytes ≡ take size bytes) whole
              got.2,
        )
