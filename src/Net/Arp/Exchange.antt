-- ===== src/Net/Arp/Exchange.antt =====
-- src/net/arp.cpp: a request, its reply, and what the requester knows then.
use nemo_os.Base.{
  ℕ, ◌+◌, ◌≤◌, ◌<◌, ◌≡◌, ◌⊎◌, refl, sym, ap, ◌∙◌, subst, inl, inr, true, Option, none, some, List,
  ◌∷◌, ◌++◌, arith, ◌==◌, length, take, drop, length-append, length-take,
}
use nemo_os.Base.Int.{pos}
use nemo_os.Net.{Net, ArpEntry, le16, frame, send_packet, tx_buf_size}
use nemo_os.Net.Arp.{
  ArpPkt, arp_bytes, arp_of, arp_reply, arp_handle_packet, arp_resolve, same_ip, learn,
  arp_cache_lookup,
}
use nemo_os.Net.Arp.Cache.{
  Updated, absent, changed, arp_cache_add-Updated, arp_cache_add-IsFull, IsFull, same_ip_refl,
}
use nemo_os.Net.Arp.Handle.{IsArp, arp_of-arp_bytes, drop-front}

length-front : (n : ℕ) (xs ys : List ℕ) → length (take n xs ++ ys) ≤ n + length ys
length-front n xs ys = omega (arith, length-append (take n xs) ys, length-take n xs)

length-arp_bytes : (p : ArpPkt) → length (arp_bytes p) ≤ 28
unfolding arp_bytes
length-arp_bytes p =
    let a = length-take 4 p.tpa in
    let b = length-front 6 p.tha (take 4 p.tpa) in
    let c = length-front 4 p.spa (take 6 p.tha ++ take 4 p.tpa) in
    let d = length-front 6 p.sha (take 4 p.spa ++ (take 6 p.tha ++ take 4 p.tpa)) in omega arith

frame-bounds :
    (dst src : List ℕ) (type : ℕ) (payload : List ℕ)
    → (length (frame dst src type payload) ≤ 14 + length payload)
      × (0 < length (frame dst src type payload))
frame-bounds dst src type payload =
    let a = length-append (take 6 dst) (take 6 src ++ (le16 type ++ payload)) in
    let b = length-append (take 6 src) (le16 type ++ payload) in
    let c = length-take 6 dst in let d = length-take 6 src in (omega arith, omega arith)

-- Any packet that fits the card's buffer is sent.
send_packet-sent :
    (packet : List ℕ) (n : Net)
    → 0 < length packet
    → length packet ≤ tx_buf_size
    → (send_packet packet n).0.sent ≡ packet ∷ n.sent
unfolding send_packet
send_packet-sent packet n h k = ground arith

drop-frame :
    (dst src : List ℕ) (type : ℕ) (payload : List ℕ)
    → length dst ≡ 6
    → length src ≡ 6
    → drop 14 (frame dst src type payload) ≡ payload
drop-frame dst src type payload h k =
    drop-front 6 8 14 dst (take 6 src ++ (le16 type ++ payload)) h (omega arith)
    ∙ drop-front 6 2 8 src (le16 type ++ payload) k (omega arith)

-- The reply as a packet.
abbrev reply_of : ArpPkt → Net → ArpPkt
reply_of arp n = record {
  htype = 0x0100;
  ptype = 0x0008;
  hlen = 6;
  plen = 4;
  oper = 0x0200;
  sha = n.our_mac;
  spa = n.our_ip;
  tha = arp.sha;
  tpa = arp.spa;
}

learn-resolve :
    (ip mac : List ℕ) (n : Net) {r : Option (List ArpEntry)}
    → Updated ip mac ip n.arp_cache r
    → (r ≡ none → IsFull n.arp_cache)
    → (IsFull n.arp_cache × (arp_cache_lookup ip n.arp_cache ≡ none))
      ⊎ (arp_resolve ip
            (elim r as (λ o. Net) [ none ↦ n | some cache ↦ record n { arp_cache = cache } ])
          ≡ some (take 6 mac))
unfolding arp_resolve
learn-resolve ip mac n (absent h) full = inl (full refl, h ip (same_ip_refl ip))
learn-resolve ip mac n (changed out h) full = inr (h ∙ rw (same_ip_refl ip))

module _ (a b : Net) (arp : ArpPkt) where
  answered :
      arp.htype ≡ 0x0100
      → arp.ptype ≡ 0x0008
      → arp.oper ≡ 0x0100
      → same_ip arp.tpa b.our_ip ≡ true
      → b.has_nic ≡ true
      → arp_handle_packet arp b ≡ (learn arp.spa arp.sha (send_packet (arp_reply arp b) b).0, pos 0)
  unfolding arp_handle_packet
  answered h p o t c =
      let e1 : (arp.htype == 0x0100) ≡ true = ground arith in
      let e2 : (arp.ptype == 0x0008) ≡ true = ground arith in
      let e3 : (arp.oper == 0x0100) ≡ true = ground arith in
      rw (arp_handle_packet, e1, e2, e3, t, c)

  sent-learn :
      (n : Net) (r : Option (List ArpEntry))
      → (elim r as (λ o. Net) [ none ↦ n | some cache ↦ record n { arp_cache = cache } ]).sent
        ≡ n.sent
  sent-learn n none = refl
  sent-learn n (some cache) = refl

  reply-frame : arp_reply arp b ≡ frame arp.sha b.our_mac 0x0608 (arp_bytes (reply_of arp b))
  unfolding arp_reply
  reply-frame = refl

  reply_learnt : arp_handle_packet (reply_of arp b) a ≡ (learn b.our_ip b.our_mac a, pos 0)
  unfolding arp_handle_packet
  reply_learnt = refl

  -- A host that is asked for its address in a well-formed request, and has a card, sends one frame.
  -- The packet in it makes the host that asked resolve that address to the sender's hardware
  -- address, unless that host's cache has no free slot and no entry for the address.
  pub request-reply :
      IsArp arp
      → arp.htype ≡ 0x0100
      → arp.ptype ≡ 0x0008
      → arp.oper ≡ 0x0100
      → same_ip arp.tpa b.our_ip ≡ true
      → b.has_nic ≡ true
      → length b.our_mac ≡ 6
      → length b.our_ip ≡ 4
      → (f : List ℕ) × ((arp_handle_packet arp b).0.sent ≡ f ∷ b.sent)
        × ((IsFull a.arp_cache × (arp_cache_lookup b.our_ip a.arp_cache ≡ none))
            ⊎ (arp_resolve b.our_ip (arp_handle_packet (arp_of (drop 14 f)) a).0
                ≡ some (take 6 b.our_mac)))
  request-reply request h p o t c mac ip =
      let reply = reply_of arp b in
      let reply-IsArp : IsArp reply = record {
        htype = omega arith;
        ptype = omega arith;
        oper = omega arith;
        sha = mac;
        spa = ip;
        tha = request.sha;
        tpa = request.spa;
      } in
      let f = frame arp.sha b.our_mac 0x0608 (arp_bytes reply) in
      let bounds = frame-bounds arp.sha b.our_mac 0x0608 (arp_bytes reply) in
      let bytes = length-arp_bytes reply in
      let read =
        ap arp_of (drop-frame arp.sha b.our_mac 0x0608 (arp_bytes reply) request.sha mac)
        ∙ arp_of-arp_bytes reply reply-IsArp in
      (
        f,
        ap (λ x. x.0.sent) (answered h p o t c)
            ∙ sent-learn (send_packet (arp_reply arp b) b).0 _
            ∙ ap (λ x. (send_packet x b).0.sent) reply-frame
            ∙ send_packet-sent f b bounds.1 (omega arith),
        subst
            (λ n.
              (IsFull a.arp_cache × (arp_cache_lookup b.our_ip a.arp_cache ≡ none))
              ⊎ (arp_resolve b.our_ip n ≡ some (take 6 b.our_mac)))
            (sym (ap (λ x. (arp_handle_packet x a).0) read ∙ ap (λ x. x.0) reply_learnt))
            (learn-resolve b.our_ip b.our_mac a
              (arp_cache_add-Updated b.our_ip b.our_mac b.our_ip a.arp_cache)
              (arp_cache_add-IsFull b.our_ip b.our_mac a.arp_cache)),
      )
