-- ===== src/Net.antt =====
-- net: ARP, IP and ICMP over one network card. Packets are lists of bytes; a structure in memory is
-- the bytes of its fields in their order, 16-bit fields with the low byte first.
pub mod Arp
pub mod Checksum
pub mod Ip
pub mod Poll
use nemo_os.Base.{
  ℕ, ◌+◌, ◌*◌, ◌/◌, ◌%◌, Bool, ◌||◌, List, [], ◌∷◌, ◌++◌, ltb, ◌==◌, if◌then◌else◌, length, get_or,
  take,
}
use nemo_os.Base.Int.{ℤ, pos, negsuc}

-- src/net/arp.cpp: an entry of `arp_cache`.
pub record ArpEntry : Type 0 where
  pub ip : List ℕ
  pub mac : List ℕ
  pub valid : Bool

-- The static variables of net/. `has_nic` tells whether `rtl8139_get_device(0)` is a card, and
-- `sent` are the frames given to it, the last one first.
pub record Net : Type 0 where
  pub arp_cache : List ArpEntry
  pub our_mac : List ℕ
  pub our_ip : List ℕ
  pub ip_id : ℕ
  pub has_nic : Bool
  pub sent : List (List ℕ)

-- A 16-bit number in memory, and read from it.
abbrev pub le16 : ℕ → List ℕ
le16 v = v % 256 ∷ v / 256 % 256 ∷ []

abbrev pub word16 : List ℕ → ℕ → ℕ
word16 bytes i = get_or bytes i 0 + 256 * get_or bytes (i + 1) 0

abbrev pub htons : ℕ → ℕ
htons v = v % 256 * 256 + v / 256 % 256

-- An Ethernet frame: `eth_hdr`, and what follows it.
abbrev pub frame : List ℕ → List ℕ → ℕ → List ℕ → List ℕ
frame dst src type payload = take 6 dst ++ (take 6 src ++ (le16 type ++ payload))

-- src/drivers/rtl8139.cpp: what `rtl8139_send_packet` returns for an initialised card; TX_BUF_SIZE
abbrev pub tx_buf_size : ℕ
tx_buf_size = 1536

unfoldable pub send_packet : List ℕ → Net → Net × ℤ
send_packet packet n =
    if (length packet == 0) || ltb tx_buf_size (length packet)
    then (n, negsuc 0)
    else (record n { sent = packet ∷ n.sent }, pos (length packet))
