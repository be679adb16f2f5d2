-- ===== src/Ipc/Send.antt =====
-- `ipc_send` of ipc.cpp: to whom a message goes, what changes, and when it is refused.
use mathlib.Core.Path.{subst}
use nemo_os.Base.{
  ℕ, zero, suc, ◌+◌, ◌≤◌, ◌<◌, ◌≡◌, ◌≢◌, sym, ap, ◌∙◌, inl, inr, Bool, true, false, ◌&&◌, ◌||◌, not,
  some, List, [], ◌∷◌, ◌++◌, arith, ltb, ◌==◌, if◌then◌else◌, Bool-cases, length, take,
}
use nemo_os.Base.Int.{ℤ, pos}
use nemo_os.Process.{
  ready, is_blocked, is_dead, Kernel, IpcQueue, put_queue, set_state, process_get,
}
use nemo_os.Ipc.{
  max_msg_size, max_msg_per_proc, failed, enqueue, sender_of, deliver, send_from, ipc_send,
}
use nemo_os.Ipc.Queue
use nemo_os.Ipc.Queue.{Message, contents, enqueue-IsValid, contents-enqueue}

-- Does the process at a table index have the pid?
abbrev pub has_pid : ℕ → Kernel → ℕ → Bool
has_pid target k i = not (process_get i k == 0) && ((k.proc (process_get i k)).pid == target)

-- The queue of the process at an address.
abbrev pub queue_of : ℕ → Kernel → IpcQueue
queue_of p k = k.queue (k.proc p).msg_queue

-- May the process at an address be sent a message?
abbrev pub accepts : ℕ → Kernel → Bool
accepts p k =
    not (is_dead (k.proc p).state)
    && not ((k.proc p).msg_queue == 0)
    && ltb (queue_of p k).count max_msg_per_proc

-- What becomes of a message of `size` bytes to the pid `target`.
pub data Sent (target : ℕ) (bytes : List ℕ) (size : ℕ) (k : Kernel) : Kernel × ℤ → Type 0 where
  bad_size : (size == 0) || ltb max_msg_size size ≡ true → Sent target bytes size k (k, failed)
  unknown :
      ((i : ℕ) → i < k.process_count → has_pid target k i ≡ false)
      → Sent target bytes size k (k, failed)
  refused :
      (i : ℕ)
      → i < k.process_count
      → has_pid target k i ≡ true
      → ((j : ℕ) → j < i → has_pid target k j ≡ false)
      → accepts (process_get i k) k ≡ false
      → Sent target bytes size k (k, failed)
  delivered :
      (i : ℕ)
      → i < k.process_count
      → has_pid target k i ≡ true
      → ((j : ℕ) → j < i → has_pid target k j ≡ false)
      → accepts (process_get i k) k ≡ true
      → (k' : Kernel) → Queue.IsValid (queue_of (process_get i k) k')
      → contents (queue_of (process_get i k) k')
        ≡ contents (queue_of (process_get i k) k) ++ ((sender_of k, take size bytes) ∷ [])
      → ((q : ℕ) → q ≢ (k.proc (process_get i k)).msg_queue → k'.queue q ≡ k.queue q)
      → ((a : ℕ)
          → (k'.proc a).state ≡ (
              if (a == process_get i k) && is_blocked (k.proc a).state
              then ready
              else (k.proc a).state))
      → Sent target bytes size k (k', pos 0)

-- The state after `deliver` has stored a message for the process at `p`.
abbrev pub sent_to : ℕ → List ℕ → ℕ → Kernel → Kernel
sent_to p bytes size k =
    let x = k.proc p in
    let sent = put_queue x.msg_queue (enqueue (sender_of k) bytes size (k.queue x.msg_queue)) k in
    if is_blocked x.state then set_state p ready sent else sent

module _ (p : ℕ) (bytes : List ℕ) (size : ℕ) (k : Kernel) where
  deliver-refused : accepts p k ≡ false → deliver p bytes size k ≡ (k, failed)
  unfolding deliver
  deliver-refused e = ground arith

  pub deliver-accepted :
      accepts p k ≡ true → deliver p bytes size k ≡ (sent_to p bytes size k, pos 0)
  unfolding deliver
  deliver-accepted e = ground arith

  pub queue-sent_to :
      (q : ℕ)
      → (sent_to p bytes size k).queue q ≡ (
          if q == (k.proc p).msg_queue
          then enqueue (sender_of k) bytes size (k.queue (k.proc p).msg_queue)
          else k.queue q)
  queue-sent_to q = ground arith

  pub msg_queue-sent_to :
      (a : ℕ) → ((sent_to p bytes size k).proc a).msg_queue ≡ (k.proc a).msg_queue
  msg_queue-sent_to a = ground arith

  state-sent_to :
      (a : ℕ)
      → ((sent_to p bytes size k).proc a).state
        ≡ (if (a == p) && is_blocked (k.proc a).state then ready else (k.proc a).state)
  state-sent_to a = ground arith

  pub queue_of-sent_to :
      queue_of p (sent_to p bytes size k) ≡ enqueue (sender_of k) bytes size (queue_of p k)
  queue_of-sent_to =
      ap (sent_to p bytes size k).queue (msg_queue-sent_to p)
      ∙ (queue-sent_to (k.proc p).msg_queue ∙ ground arith)

  queues-sent_to : (q : ℕ) → q ≢ (k.proc p).msg_queue → (sent_to p bytes size k).queue q ≡ k.queue q
  queues-sent_to q ne = ground (arith, queue-sent_to q)

-- Every process's queue is valid.
abbrev pub QueuesAreValid : Kernel → Type 0
QueuesAreValid k = (p : ℕ) → (k.proc p).msg_queue ≢ 0 → Queue.IsValid (queue_of p k)

-- The test by which the loop goes on to the next process.
pub skipped :
    (target : ℕ) (k : Kernel) (i : ℕ)
    → ((process_get i k == 0) || not ((k.proc (process_get i k)).pid == target))
      ≡ not (has_pid target k i)
skipped target k i = ground arith

module _ (target : ℕ) (bytes : List ℕ) (size : ℕ) (k : Kernel) (valid : QueuesAreValid k)
    (small : size ≤ max_msg_size) (enough : size ≤ length bytes) where
  at_target :
      (i : ℕ)
      → i < k.process_count
      → has_pid target k i ≡ true
      → ((j : ℕ) → j < i → has_pid target k j ≡ false)
      → Sent target bytes size k (deliver (process_get i k) bytes size k)
  at_target i h e before = elim (Bool-cases (accepts (process_get i k) k)) [
    | inl takes ↦
        let p = process_get i k in
        let v = valid p (ground arith) in
        let room : (queue_of p k).count < max_msg_per_proc = ground arith in
        rw (deliver-accepted p bytes size k takes) (
          delivered i h e before takes (sent_to p bytes size k)
            (subst Queue.IsValid (sym (queue_of-sent_to p bytes size k))
              (enqueue-IsValid (queue_of p k) v (sender_of k) bytes size room small))
            (ap contents (queue_of-sent_to p bytes size k)
              ∙ contents-enqueue (queue_of p k) v (sender_of k) bytes size room small enough)
            (queues-sent_to p bytes size k) (state-sent_to p bytes size k))
    | inr not_now ↦
        rw (deliver-refused (process_get i k) bytes size k not_now) (refused i h e before not_now)
  ]

  send_from-Sent :
      (rounds i : ℕ)
      → i + rounds ≡ k.process_count
      → ((j : ℕ) → j < i → has_pid target k j ≡ false)
      → Sent target bytes size k (send_from rounds i target bytes size k)
  unfolding send_from
  send_from-Sent zero i e before = unknown (λ j h. before j (omega arith))
  send_from-Sent (suc rounds) i e before = elim (Bool-cases (has_pid target k i)) [
    | inl hit ↦ rw (skipped target k i ∙ ap not hit) (at_target i (omega arith) hit before)
    | inr miss ↦ rw (skipped target k i ∙ ap not miss) (
        send_from-Sent rounds (i + 1) (omega arith) (λ j h. elim (Bool-cases (j == i)) [
          | inl here ↦ subst (λ n. has_pid target k n ≡ false) (ground arith) miss
          | inr earlier ↦ before j (ground arith)
        ]))
  ]

-- A message goes to the first process of the table that has the pid: if that process is alive and
-- has a queue with room, the message is the last of that queue, under the sender's pid, with
-- exactly the given bytes; a blocked receiver becomes ready, and no other queue and no other state
-- changes. In every other case the call fails and changes nothing.
pub ipc_send-Sent :
    (target : ℕ) (bytes : List ℕ) (size : ℕ) (k : Kernel)
    → QueuesAreValid k
    → size ≤ length bytes
    → Sent target bytes size k (ipc_send target (some bytes) size k)
unfolding ipc_send
ipc_send-Sent target bytes size k valid enough =
    elim (Bool-cases ((size == 0) || ltb max_msg_size size)) [
      | inl bad ↦ rw bad (bad_size bad)
      | inr good ↦ rw good (
          send_from-Sent target bytes size k valid (ground arith) enough k.process_count 0
            (omega arith) (λ j h. absurd (omega arith)))
    ]
