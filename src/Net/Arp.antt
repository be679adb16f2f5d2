-- ===== src/Net/Arp.antt =====
-- src/net/arp.cpp: the cache of hardware addresses, and the protocol that fills it.
pub mod Cache
pub mod Handle
pub mod Exchange
mod Tests
use nemo_os.Base.{
  ℕ, ◌+◌, Bool, true, ◌&&◌, ◌||◌, not, Option, none, some, List, [], ◌∷◌, ◌++◌, ◌==◌, if◌then◌else◌,
  get_or, take, drop, replicate,
}
use nemo_os.Base.Int.{ℤ, pos, negsuc}
use nemo_os.Net.{ArpEntry, Net, le16, word16, frame, send_packet}

abbrev pub same_ip : List ℕ → List ℕ → Bool
same_ip a b =
    (get_or a 0 0 == get_or b 0 0)
    && (get_or a 1 0 == get_or b 1 0)
    && (get_or a 2 0 == get_or b 2 0)
    && (get_or a 3 0 == get_or b 3 0)

-- The first loop of `arp_cache_add`: the entry of an address gets a new hardware address; `none`
-- if there is no entry.
unfoldable pub update : List ℕ → List ℕ → List ArpEntry → Option (List ArpEntry)
update ip mac [] = none
update ip mac (e ∷ es) =
    let rest = update ip mac es in
    if e.valid && same_ip e.ip ip
    then some (record e { mac = take 6 mac } ∷ es)
    else elim rest [ none ↦ none | some es' ↦ some (e ∷ es') ]

-- The second loop: a new entry in the first free slot.
unfoldable pub insert : List ℕ → List ℕ → List ArpEntry → Option (List ArpEntry)
insert ip mac [] = none
insert ip mac (e ∷ es) =
    let rest = insert ip mac es in
    if not e.valid
    then some (record { ip = take 4 ip; mac = take 6 mac; valid = true } ∷ es)
    else elim rest [ none ↦ none | some es' ↦ some (e ∷ es') ]

-- `none` is the result -1, which changes nothing.
unfoldable pub arp_cache_add : List ℕ → List ℕ → List ArpEntry → Option (List ArpEntry)
arp_cache_add ip mac cache = elim (update ip mac cache) [
  | none ↦ insert ip mac cache
  | some cache' ↦ some cache'
]

-- The hardware address; `none` is the result -1.
unfoldable pub arp_cache_lookup : List ℕ → List ArpEntry → Option (List ℕ)
arp_cache_lookup ip [] = none
arp_cache_lookup ip (e ∷ es) =
    let rest = arp_cache_lookup ip es in
    if e.valid && same_ip e.ip ip then some (take 6 e.mac) else rest

unfoldable pub arp_resolve : List ℕ → Net → Option (List ℕ)
arp_resolve ip n = arp_cache_lookup ip n.arp_cache

-- `arp_pkt`
pub record ArpPkt : Type 0 where
  pub htype : ℕ
  pub ptype : ℕ
  pub hlen : ℕ
  pub plen : ℕ
  pub oper : ℕ
  pub sha : List ℕ
  pub spa : List ℕ
  pub tha : List ℕ
  pub tpa : List ℕ

-- A packet in memory, and read from it.
unfoldable pub arp_bytes : ArpPkt → List ℕ
arp_bytes p =
    le16 p.htype
    ++ (le16 p.ptype
        ++ (p.hlen
            ∷ p.plen
            ∷ (le16 p.oper ++ (take 6 p.sha ++ (take 4 p.spa ++ (take 6 p.tha ++ take 4 p.tpa))))))

unfoldable pub arp_of : List ℕ → ArpPkt
arp_of bytes = record {
  htype = word16 bytes 0;
  ptype = word16 bytes 2;
  hlen = get_or bytes 4 0;
  plen = get_or bytes 5 0;
  oper = word16 bytes 6;
  sha = take 6 (drop 8 bytes);
  spa = take 4 (drop 14 bytes);
  tha = take 6 (drop 18 bytes);
  tpa = take 4 (drop 24 bytes);
}

unfoldable pub arp_send_request : List ℕ → Net → Net
arp_send_request ip n =
    let arp : ArpPkt = record {
      htype = 0x0100;
      ptype = 0x0008;
      hlen = 6;
      plen = 4;
      oper = 0x0100;
      sha = n.our_mac;
      spa = n.our_ip;
      tha = replicate 6 0;
      tpa = ip;
    } in
    if n.has_nic
    then (send_packet (frame (replicate 6 0xFF) n.our_mac 0x0608 (arp_bytes arp)) n).0
    else n

-- The cache after a call of `arp_cache_add` whose result is not looked at.
abbrev pub learn : List ℕ → List ℕ → Net → Net
learn ip mac n = elim (arp_cache_add ip mac n.arp_cache) [
  | none ↦ n
  | some cache ↦ record n { arp_cache = cache }
]

-- The reply to a request.
unfoldable pub arp_reply : ArpPkt → Net → List ℕ
arp_reply arp n =
    let reply : ArpPkt = record {
      htype = 0x0100;
      ptype = 0x0008;
      hlen = 6;
      plen = 4;
      oper = 0x0200;
      sha = n.our_mac;
      spa = n.our_ip;
      tha = arp.sha;
      tpa = arp.spa;
    } in
    frame arp.sha n.our_mac 0x0608 (arp_bytes reply)

unfoldable pub arp_handle_packet : ArpPkt → Net → Net × ℤ
arp_handle_packet arp n =
    if not (arp.htype == 0x0100) || not (arp.ptype == 0x0008)
    then (n, negsuc 0)
    else if arp.oper == 0x0100
    then if same_ip arp.tpa n.our_ip
      then if n.has_nic
        then (learn arp.spa arp.sha (send_packet (arp_reply arp n) n).0, pos 0)
        else (n, negsuc 0)
      else (n, pos 0)
    else if arp.oper == 0x0200
    then (learn arp.spa arp.sha n, pos 0)
    else (n, pos 0)
