-- ===== src/Ipc/Queue.antt =====
-- The message queue of ipc.cpp as a first-in first-out queue of messages.

use nemo_os.Base.{
  ℕ, suc, ◌+◌, ◌%◌, ◌≤◌, ◌<◌, ◌≡◌, refl, ap, ◌∙◌, Bool, true, false, List, [], ◌∷◌, ◌++◌, map,
  arith, if◌then◌else◌, length, set, get_or, take, length-set, get_or-set, ltb, some, sym,
}
use nemo_os.Base.Ring.{slots, slots-push, slots_of_pos}
use nemo_os.Base.{length-take, take-take}
use nemo_os.Base.Int.{pos}
use nemo_os.Libk.Memory.{memcpy, length-memcpy, take-memcpy}
use nemo_os.Process.{IpcMsg, IpcQueue}
use nemo_os.Ipc.{max_msg_size, max_msg_per_proc, blank_msg, queue_init, enqueue, dequeue, pos}

-- A message without the bytes behind its end.
abbrev pub Message : Type 0
Message = ℕ × List ℕ

abbrev pub view : IpcMsg → Message
view m = (m.sender_pid, take m.size m.body)

-- The messages of a queue, oldest first.
abbrev pub contents : IpcQueue → List Message
contents q = map view (slots blank_msg max_msg_per_proc q.msgs q.head q.count)

pub record IsValid (q : IpcQueue) : Type 0 where
  pub storage : length q.msgs ≡ max_msg_per_proc
  pub bodies : (i : ℕ) → length (get_or q.msgs i blank_msg).body ≡ max_msg_size
  pub sizes : (i : ℕ) → (get_or q.msgs i blank_msg).size ≤ max_msg_size
  pub head_in : q.head < max_msg_per_proc
  pub fits : q.count ≤ max_msg_per_proc
  pub tail_at : q.tail ≡ (q.head + q.count) % max_msg_per_proc

map-snoc :
    (xs : List IpcMsg) (m : IpcMsg) → map view (xs ++ (m ∷ [])) ≡ map view xs ++ (view m ∷ [])
map-snoc [] m = refl
map-snoc (x ∷ xs) m = ap (λ r. view x ∷ r) (map-snoc xs m)

pub queue_init-IsValid :
    (q : IpcQueue)
    → length q.msgs ≡ max_msg_per_proc
    → ((i : ℕ) → length (get_or q.msgs i blank_msg).body ≡ max_msg_size)
    → ((i : ℕ) → (get_or q.msgs i blank_msg).size ≤ max_msg_size)
    → IsValid (queue_init q) × (contents (queue_init q) ≡ [])
unfolding queue_init slots
queue_init-IsValid q s b z = (
  record {
    storage = s;
    bodies = b;
    sizes = z;
    head_in = omega arith;
    fits = omega arith;
    tail_at = refl;
  },
  refl,
)

pick_body :
    (b : Bool) (x y : IpcMsg)
    → length x.body ≡ max_msg_size
    → length y.body ≡ max_msg_size
    → length (if b then x else y).body ≡ max_msg_size
pick_body true x y hx hy = hx
pick_body false x y hx hy = hy

pick_size :
    (b : Bool) (x y : IpcMsg)
    → x.size ≤ max_msg_size
    → y.size ≤ max_msg_size
    → (if b then x else y).size ≤ max_msg_size
pick_size true x y hx hy = hx
pick_size false x y hx hy = hy

module _ (q : IpcQueue) (v : IsValid q) (sender : ℕ) (bytes : List ℕ) (size : ℕ)
    (room : q.count < max_msg_per_proc) (small : size ≤ max_msg_size) where
  written : IpcMsg
  written = record {
    sender_pid = sender;
    size = size;
    body = memcpy (get_or q.msgs q.tail blank_msg).body bytes size;
  }

  pub enqueue-IsValid : IsValid (enqueue sender bytes size q)
  unfolding enqueue written
  enqueue-IsValid = record {
    storage = length-set q.msgs q.tail _ ∙ v.storage;
    bodies = λ i. rw (get_or-set q.msgs q.tail i written blank_msg) (
        pick_body _ written (get_or q.msgs i blank_msg)
          (length-memcpy (get_or q.msgs q.tail blank_msg).body bytes size ∙ v.bodies q.tail)
          (v.bodies i));
    sizes = λ i.
        rw (get_or-set q.msgs q.tail i written blank_msg)
          (pick_size _ written (get_or q.msgs i blank_msg) small (v.sizes i));
    head_in = v.head_in;
    fits = omega arith;
    tail_at = omega (arith, v.tail_at);
  }

  -- The message stands behind those that were there.
  pub contents-enqueue :
      size ≤ length bytes
      → contents (enqueue sender bytes size q) ≡ contents q ++ ((sender, take size bytes) ∷ [])
  unfolding enqueue written
  contents-enqueue enough =
      ap (λ n. map view (slots blank_msg max_msg_per_proc (set q.msgs q.tail written) q.head n))
        one_more
      ∙ (ap
            (λ t.
              map view
                (slots blank_msg max_msg_per_proc (set q.msgs t written) q.head (suc q.count)))
            v.tail_at
          ∙ (ap (map view) (
                slots-push blank_msg max_msg_per_proc q.msgs written q.head q.count
                  (omega (arith, v.storage)) v.head_in room)
              ∙ (map-snoc (slots blank_msg max_msg_per_proc q.msgs q.head q.count) written
                  ∙ ap (λ d. contents q ++ ((sender, d) ∷ []))
                      (take-memcpy (get_or q.msgs q.tail blank_msg).body bytes size
                        (omega (arith, v.bodies q.tail)) enough))))
    where
      one_more : q.count + 1 ≡ suc q.count
      one_more = omega arith

module _ (q : IpcQueue) (v : IsValid q) (out : List ℕ) (size : ℕ) (some_left : 0 < q.count) where
  pub dequeue-IsValid : IsValid (dequeue out size q).0
  unfolding dequeue
  dequeue-IsValid = record {
    storage = v.storage;
    bodies = v.bodies;
    sizes = v.sizes;
    head_in = omega arith;
    fits = omega (arith, v.fits);
    tail_at = omega (arith, v.tail_at);
  }

  -- The oldest message leaves the queue.
  pub contents-dequeue :
      contents q ≡ view (get_or q.msgs q.head blank_msg) ∷ contents (dequeue out size q).0
  unfolding dequeue
  contents-dequeue =
      ap (map view) (slots_of_pos blank_msg max_msg_per_proc q.msgs q.head q.count some_left)

  -- What the receiver is told, and the bytes that it gets: the front of the oldest message.
  pub received :
      let m = get_or q.msgs q.head blank_msg in
      let r = (dequeue out size q).1 in
      let n = if ltb m.size size then m.size else size in
      (r.result ≡ pos n)
      × (r.sender ≡ some m.sender_pid)
      × (length (view m).1 ≡ m.size)
      × (length r.bytes ≡ length out)
      × (size ≤ length out → take n r.bytes ≡ take n (view m).1)
  unfolding dequeue
  received =
      let m = get_or q.msgs q.head blank_msg in
      let n = if ltb m.size size then m.size else size in
      (
        refl,
        refl,
        omega (arith, length-take m.size m.body, v.bodies q.head, v.sizes q.head),
        length-memcpy out m.body n,
        λ room.
            take-memcpy out m.body n (ground arith)
              (ground (arith, v.bodies q.head, v.sizes q.head))
            ∙ sym (take-take n m.size m.body (ground arith)),
      )
