-- ===== src/Ipc/Receive.antt =====
-- `ipc_recv` of ipc.cpp: the oldest message, or a process that waits; and a message's whole way.
use mathlib.Core.Path.{subst}
use nemo_os.Base.{
  ℕ, ◌≤◌, ◌<◌, ◌≡◌, ◌≢◌, refl, sym, ap, ◌∙◌, inl, inr, true, false, ◌||◌, some, List, [], ◌∷◌, map,
  arith, ltb, ◌==◌, if◌then◌else◌, Bool-cases, length, get_or, take,
}
use nemo_os.Base.Int.{pos}
use nemo_os.Base.Ring.{slots_of_zero}
use nemo_os.Process.{blocked, Kernel, IpcQueue, put_queue, set_state, current}
use nemo_os.Ipc.{max_msg_per_proc, failed, blank_msg, dequeue, ipc_recv, Received, nothing}
use nemo_os.Ipc.Queue
use nemo_os.Ipc.Queue.{contents, view, dequeue-IsValid, contents-dequeue, received}
use nemo_os.Ipc.Send.{queue_of, QueuesAreValid}

-- The queue of the running process.
abbrev pub own_queue : Kernel → IpcQueue
own_queue k = queue_of (current k) k

-- The number of bytes that a receiver with room for `size` gets of a message.
abbrev pub copied : List ℕ → ℕ → ℕ
copied message size = if ltb (length message) size then length message else size

-- What a call with a buffer that holds `out` may do.
pub data Taken (out : List ℕ) (size : ℕ) (k : Kernel) : Kernel × Received → Type 0 where
  refused :
      ((current k == 0) || (size == 0) || ((k.proc (current k)).msg_queue == 0)) ≡ true
      → Taken out size k (k, nothing failed out)
  waits :
      contents (own_queue k) ≡ []
      → Taken out size k (set_state (current k) blocked k, nothing (pos 0) out)
  takes :
      (sender : ℕ)
      → (message : List ℕ) → (k' : Kernel)
      → contents (own_queue k)
        ≡ (sender, message) ∷ contents (k'.queue (k.proc (current k)).msg_queue)
      → Queue.IsValid (k'.queue (k.proc (current k)).msg_queue)
      → ((q : ℕ) → q ≢ (k.proc (current k)).msg_queue → k'.queue q ≡ k.queue q)
      → ((a : ℕ) → k'.proc a ≡ k.proc a)
      → (r : Received) → r.result ≡ pos (copied message size)
      → r.sender ≡ some sender
      → length r.bytes ≡ length out
      → (size ≤ length out
          → take (copied message size) r.bytes ≡ take (copied message size) message)
      → Taken out size k (k', r)

module _ (out : List ℕ) (size : ℕ) (k : Kernel) (valid : QueuesAreValid k) where
  -- The state after a message is taken.
  abbrev taken : Kernel
  taken = put_queue (k.proc (current k)).msg_queue (dequeue out size (own_queue k)).0 k

  own-taken : taken.queue (k.proc (current k)).msg_queue ≡ (dequeue out size (own_queue k)).0
  own-taken = ground arith

  others-taken : (q : ℕ) → q ≢ (k.proc (current k)).msg_queue → taken.queue q ≡ k.queue q
  others-taken q ne = ground arith

  take_message :
      (k.proc (current k)).msg_queue ≢ 0
      → 0 < (own_queue k).count
      → Taken out size k (taken, (dequeue out size (own_queue k)).1)
  take_message has some_left =
      let v = valid (current k) has in
      let q = own_queue k in
      let (res, from, whole, len, bytes) = received q v out size some_left in
      takes (get_or q.msgs q.head blank_msg).sender_pid (view (get_or q.msgs q.head blank_msg)).1
        taken
        (contents-dequeue q v out size some_left
          ∙ ap (λ d. view (get_or q.msgs q.head blank_msg) ∷ contents d) (sym own-taken))
        (subst Queue.IsValid (sym own-taken) (dequeue-IsValid q v out size some_left)) others-taken
        (λ a. refl) (dequeue out size q).1 (rw whole res) from len (rw whole bytes)

  -- `ipc_recv` fails and changes nothing without a process, a queue or room; on an empty queue it
  -- blocks the process and returns 0; otherwise it removes the oldest message and no other,
  -- returns the number of bytes copied, at most `size`, stores the sender's pid, and the buffer
  -- begins with that many bytes of the message.
  pub ipc_recv-Taken : Taken out size k (ipc_recv (some out) size k)
  unfolding ipc_recv
  ipc_recv-Taken = elim (Bool-cases ((current k == 0) || (size == 0))) [
    | inl bad ↦ rw bad (refused (ground arith))
    | inr good ↦ rw good (elim (Bool-cases ((k.proc (current k)).msg_queue == 0)) [
      | inl no_queue ↦ rw no_queue (refused (ground arith))
      | inr has ↦ rw has (elim (Bool-cases ((own_queue k).count == 0)) [
        | inl empty ↦ rw empty (
            waits (
              ap (map view) (
                slots_of_zero blank_msg max_msg_per_proc (own_queue k).msgs (own_queue k).head
                  (own_queue k).count (ground arith))))
        | inr some_left ↦ rw some_left (take_message (ground arith) (ground arith))
      ])
    ])
  ]

true_ne_false : true ≢ false
true_ne_false e = cc

nil_ne_cons {ℓ} : {A : Type ℓ} {x : A} {xs : List A} → [] ≢ x ∷ xs
nil_ne_cons e = cc

head_eq :
    {s t : ℕ} {m n : List ℕ} {xs ys : List (ℕ × List ℕ)}
    → (s, m) ∷ xs ≡ (t, n) ∷ ys
    → (s ≡ t) × (m ≡ n)
head_eq e = (cc, cc)

pub take-length : (xs : List ℕ) → take (length xs) xs ≡ xs
take-length [] = refl
take-length (x ∷ xs) = ap (λ r. x ∷ r) (take-length xs)

-- What a receiver gets from a queue that held one message.
pub Taken-single :
    (out : List ℕ) (size : ℕ) (k : Kernel) {r : Kernel × Received}
    → (sender : ℕ) (message : List ℕ) → contents (own_queue k) ≡ (sender, message) ∷ []
    → ((current k == 0) || (size == 0) || ((k.proc (current k)).msg_queue == 0)) ≡ false
    → length message ≤ size
    → size ≤ length out
    → Taken out size k r
    → (r.1.result ≡ pos (length message))
      × (r.1.sender ≡ some sender)
      × (take (length message) r.1.bytes ≡ message)
Taken-single out size k sender message c open_queue fits room (refused bad) =
    absurd (true_ne_false (sym bad ∙ open_queue))
Taken-single out size k sender message c open_queue fits room (waits empty) =
    absurd (nil_ne_cons (sym empty ∙ c))
Taken-single out size k sender message c open_queue fits room
      (takes s m k' e v q p r res from len bytes) =
    let same = head_eq (sym e ∙ c) in
    let all_of_it : copied m size ≡ length message = rw same.1 (ground arith) in
    (
      res ∙ ap pos all_of_it,
      from ∙ ap some same.0,
      subst (λ n. take n r.bytes ≡ take n m) all_of_it (bytes room)
          ∙ (ap (take (length message)) same.1 ∙ take-length message),
    )
