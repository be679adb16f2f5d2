-- ===== src/Net/Arp/Tests.antt =====
-- The cache and a packet of ARP at small inputs.
use nemo_os.Base.{
  ℕ, ◌≡◌, ◌⊎◌, refl, true, false, none, some, List, [], ◌∷◌, arith, take, drop, replicate,
}
use nemo_os.Net.{ArpEntry, Net}
use nemo_os.Net.Arp.{
  arp_cache_lookup, ArpPkt, arp_of, arp_cache_add, arp_resolve, arp_handle_packet,
}
use nemo_os.Net.Arp.Exchange.{request-reply}
use nemo_os.Net.Arp.Cache.{IsFull, Updated, arp_cache_add-Updated}
use nemo_os.Net.Arp.Handle.{IsArp}

abbrev gateway : List ℕ
gateway = 10 ∷ 0 ∷ 2 ∷ 1 ∷ []

abbrev card : List ℕ
card = 82 ∷ 84 ∷ 0 ∷ 18 ∷ 52 ∷ 86 ∷ []

abbrev cache : List ArpEntry
cache =
    record { ip = gateway; mac = replicate 6 1; valid = true }
    ∷ replicate 7 (record { ip = replicate 4 0; mac = replicate 6 0; valid = false })

abbrev request : ArpPkt
request = record {
  htype = 0x0100;
  ptype = 0x0008;
  hlen = 6;
  plen = 4;
  oper = 0x0100;
  sha = card;
  spa = gateway;
  tha = replicate 6 0;
  tpa = 10 ∷ 0 ∷ 2 ∷ 15 ∷ [];
}

arp_cache_add-Updated_example :
    Updated gateway card (10 ∷ 0 ∷ 2 ∷ 2 ∷ []) cache (arp_cache_add gateway card cache)
arp_cache_add-Updated_example = arp_cache_add-Updated gateway card (10 ∷ 0 ∷ 2 ∷ 2 ∷ []) cache

request-IsArp : IsArp request
request-IsArp = record {
  htype = omega arith;
  ptype = omega arith;
  oper = omega arith;
  sha = refl;
  spa = refl;
  tha = refl;
  tpa = refl;
}

abbrev host : List ℕ → List ℕ → Net
host mac ip = record {
  arp_cache = cache;
  our_mac = mac;
  our_ip = ip;
  ip_id = 0;
  has_nic = true;
  sent = [];
}

abbrev here : Net
here = host (replicate 6 9) (10 ∷ 0 ∷ 2 ∷ 15 ∷ [])

request-reply_example :
    (f : List ℕ) × ((arp_handle_packet request here).0.sent ≡ f ∷ [])
    × ((IsFull cache × (arp_cache_lookup here.our_ip cache ≡ none))
        ⊎ (arp_resolve here.our_ip (arp_handle_packet (arp_of (drop 14 f)) (host card gateway)).0
            ≡ some (take 6 here.our_mac)))
request-reply_example =
    request-reply (host card gateway) here request request-IsArp refl refl refl refl refl refl refl
