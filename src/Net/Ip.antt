-- ===== src/Net/Ip.antt =====
-- src/net/ip.cpp and src/net/icmp.cpp: packets out, and the echo protocol.
pub mod Header
mod Tests
use nemo_os.Base.{
  ℕ, ◌+◌, ◌/◌, ◌%◌, ◌^◌, not, Option, none, some, List, [], ◌∷◌, ◌++◌, ltb, ◌==◌, if◌then◌else◌,
  set, get_or, take,
}
use nemo_os.Base.Int.{ℤ, pos, negsuc}
use nemo_os.Net.{Net, le16, htons, frame, send_packet}
use nemo_os.Net.Arp.{arp_resolve, arp_send_request}
use nemo_os.Net.Checksum.{net_checksum}

-- `ip_hdr` with the fields that `ip_send` varies, and a checksum.
unfoldable pub ip_bytes : ℕ → ℕ → ℕ → List ℕ → List ℕ → ℕ → List ℕ
ip_bytes total_len id proto src dst checksum =
    0x45
    ∷ 0
    ∷ htons total_len % 256
    ∷ htons total_len / 256 % 256
    ∷ htons id % 256
    ∷ htons id / 256 % 256
    ∷ 0
    ∷ 0
    ∷ 64
    ∷ proto
    ∷ checksum % 256
    ∷ checksum / 256 % 256
    ∷ get_or src 0 0
    ∷ get_or src 1 0
    ∷ get_or src 2 0
    ∷ get_or src 3 0
    ∷ get_or dst 0 0
    ∷ get_or dst 1 0
    ∷ get_or dst 2 0
    ∷ get_or dst 3 0
    ∷ []

-- `nic_mac` is the address of the card.
unfoldable pub ip_init : List ℕ → Net → Net
ip_init nic_mac n = if n.has_nic then record n { our_mac = take 6 nic_mac } else n

-- `none` is a checksum loop that does not end.
unfoldable pub ip_send : List ℕ → ℕ → List ℕ → ℕ → Net → Option (Net × ℤ)
ip_send dst_ip proto data_bytes len n =
    let header = ip_bytes (20 + len) n.ip_id proto n.our_ip dst_ip in
    let counted = record n { ip_id = (n.ip_id + 1) % 2 ^ 16 } in
    if not n.has_nic then some (n, negsuc 0) else elim (arp_resolve dst_ip n) [
      | none ↦ some (arp_send_request dst_ip n, negsuc 1)
      | some mac ↦
          if ltb 1600 (34 + len) then some (n, negsuc 0) else elim (net_checksum (header 0) 20) [
            | none ↦ none
            | some checksum ↦ some (
                send_packet (frame mac n.our_mac 0x0008 (header checksum ++ take len data_bytes))
                  counted)
          ]
    ]

-- `icmp_pkt` and the 24 bytes behind it, as `icmp_send_echo` fills them.
unfoldable pub echo_bytes : ℕ → ℕ → ℕ → List ℕ
echo_bytes id seq checksum =
    8
    ∷ 0
    ∷ (le16 checksum
        ++ (le16 (htons id)
            ++ (le16 (htons seq)
                ++ (0 ∷ 1 ∷ 2 ∷ 3 ∷ 4 ∷ 5 ∷ 6 ∷ 7 ∷ 8 ∷ 9 ∷ 10 ∷ 11 ∷ 12 ∷ 13 ∷ 14 ∷ 15 ∷ 16 ∷ 17
                    ∷ 18 ∷ 19 ∷ 20 ∷ 21 ∷ 22 ∷ 23 ∷ []))))

unfoldable pub icmp_send_echo : List ℕ → ℕ → ℕ → Net → Option (Net × ℤ)
icmp_send_echo dst_ip id seq n = elim (net_checksum (echo_bytes id seq 0) 32) [
  | none ↦ none
  | some checksum ↦ ip_send dst_ip 1 (echo_bytes id seq checksum) 32 n
]

-- A packet with its type and checksum set.
abbrev pub with_checksum : ℕ → ℕ → List ℕ → List ℕ
with_checksum type checksum packet =
    set (set (set packet 0 type) 2 (checksum % 256)) 3 (checksum / 256 % 256)

-- `src_ip` is that field of the IP header; `len` is at least 4.
unfoldable pub icmp_handle_packet : List ℕ → List ℕ → ℕ → Net → Option (Net × ℤ)
icmp_handle_packet src_ip packet len n =
    if get_or packet 0 0 == 8
    then elim (net_checksum (with_checksum 0 0 packet) len) [
      | none ↦ none
      | some checksum ↦ elim (ip_send (take 4 src_ip) 1 (with_checksum 0 checksum packet) len n) [
        | none ↦ none
        | some (n', r) ↦ some (n', pos 0)
      ]
    ]
    else some (n, pos 0)
