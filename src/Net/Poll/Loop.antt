-- ===== src/Net/Poll/Loop.antt =====
-- src/net/net.cpp: the loop of `net_poll` ends.
use nemo_os.Base.{
  ℕ, zero, suc, ◌+◌, ◌-◌, ◌*◌, ◌/◌, ◌%◌, ◌^◌, ◌≤◌, ◌<◌, ◌≡◌, ◌≢◌, refl, Bool, true, false, ◌&&◌,
  not, Option, none, some, List, arith, ltb, leb, ◌==◌, if◌then◌else◌, get_or, take, drop,
}
use nemo_os.Base.Int.{ℤ}
use nemo_os.Net.{Net, word16}
use nemo_os.Net.Arp.{arp_resolve}
use nemo_os.Net.Checksum.{fold_from, sum_words, net_checksum, ip_checksum_ok, fold-ones, ones}
use nemo_os.Net.Ip.{ip_send, icmp_handle_packet, with_checksum, ip_bytes}
use nemo_os.Net.Poll.{Nic, rtl8139_poll, handle_ip, handle_frame, poll_from, net_poll}

-- Does a computation give a result?
abbrev Gives {ℓ} : {A : Type ℓ} → Option A → Type ℓ
Gives {A = A} o = (a : A) × (o ≡ some a)

sum_words-bound :
    (rounds i : ℕ) (data_bytes : List ℕ) (s : ℕ)
    → s < 2 ^ 32
    → sum_words rounds i data_bytes s < 2 ^ 32
unfolding sum_words
sum_words-bound zero i data_bytes s h = h
sum_words-bound (suc rounds) i data_bytes s h =
    sum_words-bound rounds (i + 1) data_bytes _ (omega arith)

net_checksum-Gives : (data_bytes : List ℕ) (len : ℕ) → Gives (net_checksum data_bytes len)
unfolding net_checksum
net_checksum-Gives data_bytes len =
    gives (if len % 2 == 1 then (sum + last) % 2 ^ 32 else sum) (ground (arith, bound))
  where
    sum : ℕ
    sum = sum_words (len / 2) 0 data_bytes 0

    last : ℕ
    last = get_or data_bytes (len - 1) 0

    bound : sum < 2 ^ 32
    bound = sum_words-bound (len / 2) 0 data_bytes 0 (omega arith)

    gives :
        (s : ℕ)
        → s < 2 ^ 32
        → Gives (elim (fold_from 2 s) [ none ↦ none | some s ↦ some (65535 - s) ])
    gives s h = (65535 - ones s, rw (fold-ones s h))

ip_checksum_ok-Gives : (ip : List ℕ) → Gives (ip_checksum_ok ip)
unfolding ip_checksum_ok
ip_checksum_ok-Gives ip = gives (sum_words 10 0 ip 0) (sum_words-bound 10 0 ip 0 (omega arith))
  where
    gives :
        (s : ℕ)
        → s < 2 ^ 32
        → Gives (elim (fold_from 2 s) [ none ↦ none | some s ↦ some (s == 0xFFFF) ])
    gives s h = (ones s == 0xFFFF, rw (fold-ones s h))

bind-Gives {ℓ ℓ'} :
    {A : Type ℓ} {B : Type ℓ'} (o : Option A) (f : A → Option B)
    → Gives o
    → ((a : A) → Gives (f a))
    → Gives (elim o [ none ↦ none | some a ↦ f a ])
bind-Gives none f (a, e) k = absurd (clash e)
  where
    clash : none ≢ some a
    clash e = cc
bind-Gives (some a) f g k = k a

if-Gives {ℓ} :
    {A : Type ℓ} (b : Bool) (x y : Option A) → Gives x → Gives y → Gives (if b then x else y)
if-Gives true x y g h = g
if-Gives false x y g h = h

resolved-Gives :
    (o : Option (List ℕ)) (x : Net × ℤ) (f : List ℕ → Option (Net × ℤ))
    → ((mac : List ℕ) → Gives (f mac))
    → Gives (elim o [ none ↦ some x | some mac ↦ f mac ])
resolved-Gives none x f g = (x, refl)
resolved-Gives (some mac) x f g = g mac

ip_send-Gives :
    (dst_ip : List ℕ) (proto : ℕ) (data_bytes : List ℕ) (len : ℕ) (n : Net)
    → Gives (ip_send dst_ip proto data_bytes len n)
unfolding ip_send
ip_send-Gives dst_ip proto data_bytes len n =
    if-Gives (not n.has_nic) _ _ (_, refl)
      (resolved-Gives (arp_resolve dst_ip n) _ _ (λ mac.
        if-Gives (ltb 1600 (34 + len)) _ _ (_, refl)
          (bind-Gives (net_checksum (ip_bytes (20 + len) n.ip_id proto n.our_ip dst_ip 0) 20) _
            (net_checksum-Gives _ 20) (λ c. (_, refl)))))

icmp_handle_packet-Gives :
    (src_ip packet : List ℕ) (len : ℕ) (n : Net) → Gives (icmp_handle_packet src_ip packet len n)
unfolding icmp_handle_packet
icmp_handle_packet-Gives src_ip packet len n =
    if-Gives (get_or packet 0 0 == 8) _ _
      (bind-Gives (net_checksum (with_checksum 0 0 packet) len) _ (net_checksum-Gives _ len) (λ c.
        bind-Gives (ip_send (take 4 src_ip) 1 (with_checksum 0 c packet) len n) _
          (ip_send-Gives (take 4 src_ip) 1 (with_checksum 0 c packet) len n) (λ r. (_, refl))))
      (_, refl)

handle_ip-Gives : (ip : List ℕ) (ip_len : ℕ) (n : Net) → Gives (handle_ip ip ip_len n)
unfolding handle_ip
handle_ip-Gives ip ip_len n =
    if-Gives (leb 20 ip_len) _ _
      (bind-Gives (ip_checksum_ok ip) _ (ip_checksum_ok-Gives ip) (λ ok.
        if-Gives (ok && (get_or ip 9 0 == 1) && leb 24 ip_len) _ _
          (bind-Gives (icmp_handle_packet (drop 12 ip) (drop 20 ip) (ip_len - 20) n) _
            (icmp_handle_packet-Gives (drop 12 ip) (drop 20 ip) (ip_len - 20) n) (λ r. (_, refl)))
          (_, refl)))
      (_, refl)

handle_frame-Gives : (buf : List ℕ) (len : ℕ) (n : Net) → Gives (handle_frame buf len n)
unfolding handle_frame
handle_frame-Gives buf len n =
    if-Gives (word16 buf 12 == 0x0608) _ _ (if-Gives (leb 42 len) _ _ (_, refl) (_, refl)) (
      if-Gives (word16 buf 12 == 0x0008) _ _ (handle_ip-Gives (drop 14 buf) (len - 14) n) (_, refl))

-- What a poll returns: nothing, or a packet that is no longer than the last one.
pub data Polled (len : ℕ) (nic : Nic) : Option (List ℕ × ℕ × Nic) → Type 0 where
  empty : Polled len nic none
  packet :
      (buf : List ℕ) (size : ℕ) (nic' : Nic)
      → size ≤ len
      → nic'.cbr ≡ nic.cbr
      → nic.rx_offset < nic.cbr
      → nic.rx_offset + 4 ≤ nic'.rx_offset
      → Polled len nic (some (buf, size, nic'))

limited : (len b : ℕ) → (if ltb (len % 2 ^ 16) b then len % 2 ^ 16 else b) ≤ len
limited len b = let wrapped : len % 2 ^ 16 ≤ len = omega arith in ground arith

taken_or_not :
    (len : ℕ) (nic : Nic) (b : Bool) (buf : List ℕ) (size capr : ℕ)
    → (b ≡ false → nic.rx_offset < nic.cbr)
    → size ≤ len
    → Polled len nic (
        if b
        then none
        else some (
          buf,
          size,
          record nic { rx_offset = (nic.rx_offset + size + 4 + 3) / 4 * 4; capr = capr },
        ))
taken_or_not len nic true buf size capr h k = empty
taken_or_not len nic false buf size capr h k = packet buf size _ k refl (h refl) (omega arith)

-- A poll that finds a packet moves the offset on, and lowers the limit for the next packet to the
-- length of this one.
pub rtl8139_poll-Polled : (len : ℕ) (nic : Nic) → Polled len nic (rtl8139_poll len nic)
unfolding rtl8139_poll
rtl8139_poll-Polled len nic =
    let rx_size = word16 nic.rx_buffer (nic.rx_offset + 2) % 2 ^ 14 in
    taken_or_not len nic _ _ _ _ (λ e. ground arith) (limited len (rx_size - 4))

Polled-Gives :
    (fuel len : ℕ) (nic : Nic) (n : Net) {o : Option (List ℕ × ℕ × Nic)}
    → nic.cbr + 1 ≤ suc fuel + nic.rx_offset
    → ((len' : ℕ) (nic' : Nic) (n' : Net)
        → 1 ≤ fuel
        → nic'.cbr + 1 ≤ fuel + nic'.rx_offset
        → Gives (poll_from fuel len' nic' n'))
    → Polled len nic o
    → Gives {A = Nic × Net} (elim o [
      | none ↦ some (nic, n)
      | some (buf, len', nic') ↦ elim (handle_frame buf len' n) [
        | none ↦ none
        | some n' ↦ poll_from fuel len' nic' n'
      ]
    ])
Polled-Gives fuel len nic n h rest empty = (_, refl)
Polled-Gives fuel len nic n h rest (packet buf size nic' small same before after) =
    bind-Gives (handle_frame buf size n) _ (handle_frame-Gives buf size n)
      (λ n'. rest size nic' n' (omega arith) (omega arith))

poll_from-Gives :
    (fuel len : ℕ) (nic : Nic) (n : Net)
    → 1 ≤ fuel
    → nic.cbr + 1 ≤ fuel + nic.rx_offset
    → Gives (poll_from fuel len nic n)
unfolding poll_from
poll_from-Gives zero len nic n some_fuel h = absurd (omega arith)
poll_from-Gives (suc fuel) len nic n some_fuel h =
    Polled-Gives fuel len nic n h (λ len' nic' n' f k. poll_from-Gives fuel len' nic' n' f k)
      (rtl8139_poll-Polled len nic)

-- `net_poll` ends in every state of the card and of the network code, whatever has been received.
pub net_poll-gives : (nic : Nic) (n : Net) → (r : Nic × Net) × (net_poll nic n ≡ some r)
unfolding net_poll
net_poll-gives nic n =
    if-Gives n.has_nic _ _ (poll_from-Gives (nic.cbr + 1) 1600 nic n (omega arith) (omega arith))
      (_, refl)
