-- ===== src/Net/Poll.antt =====
-- src/net/net.cpp, and `rtl8139_poll` of src/drivers/rtl8139.cpp: packets in.
pub mod Loop
mod Tests
use nemo_os.Base.{
  ℕ, zero, suc, ◌+◌, ◌-◌, ◌*◌, ◌/◌, ◌%◌, ◌^◌, ◌&&◌, ◌||◌, not, Option, none, some, List, ltb, leb,
  ◌==◌, if◌then◌else◌, get_or, take, drop,
}
use nemo_os.Net.{Net, word16}
use nemo_os.Net.Arp.{arp_of, arp_handle_packet}
use nemo_os.Net.Checksum.{ip_checksum_ok}
use nemo_os.Net.Ip.{icmp_handle_packet}

-- The receive ring. `cbr` is how far the card has filled it, the register 0x3A, which is taken as
-- constant during a call of `net_poll`; `capr` is what was last written to register 0x38.
pub record Nic : Type 0 where
  pub rx_buffer : List ℕ
  pub rx_offset : ℕ
  pub cbr : ℕ
  pub capr : ℕ

-- The bytes of a packet and the new value of `*len`; `none` is the result 0.
unfoldable pub rtl8139_poll : ℕ → Nic → Option (List ℕ × ℕ × Nic)
rtl8139_poll len nic =
    let offset = nic.rx_offset in
    let rx_size = word16 nic.rx_buffer (offset + 2) % 2 ^ 14 in
    let limit = len % 2 ^ 16 in
    let size = if ltb limit (rx_size - 4) then limit else rx_size - 4 in
    let next = (offset + size + 4 + 3) / 4 * 4 in
    if leb nic.cbr offset || not (word16 nic.rx_buffer offset % 2 == 1) || ltb rx_size 4
    then none
    else some (
      take size (drop (offset + 4) nic.rx_buffer),
      size,
      record nic { rx_offset = next; capr = (2 ^ 16 + next - 16) % 2 ^ 16 },
    )

-- The case of `net_poll` for an IP packet.
unfoldable pub handle_ip : List ℕ → ℕ → Net → Option Net
handle_ip ip ip_len n =
    if leb 20 ip_len
    then elim (ip_checksum_ok ip) [
      | none ↦ none
      | some ok ↦
          if ok && (get_or ip 9 0 == 1) && leb 24 ip_len
          then elim (icmp_handle_packet (drop 12 ip) (drop 20 ip) (ip_len - 20) n) [
            | none ↦ none
            | some (n', r) ↦ some n'
          ]
          else some n
    ]
    else some n

-- The body of the loop of `net_poll`. Only the first `len` bytes of the buffer are ever read.
unfoldable pub handle_frame : List ℕ → ℕ → Net → Option Net
handle_frame buf len n =
    if word16 buf 12 == 0x0608
    then (if leb 42 len then some (arp_handle_packet (arp_of (drop 14 buf)) n).0 else some n)
    else if word16 buf 12 == 0x0008
    then handle_ip (drop 14 buf) (len - 14) n
    else some n

-- The loop of `net_poll`. Every round moves the offset on by at least 4, so `cbr` rounds of fuel
-- are enough; `none` is fuel that ran out.
unfoldable pub poll_from : ℕ → ℕ → Nic → Net → Option (Nic × Net)
poll_from zero len nic n = none
poll_from (suc fuel) len nic n = elim (rtl8139_poll len nic) [
  | none ↦ some (nic, n)
  | some (buf, len', nic') ↦ elim (handle_frame buf len' n) [
    | none ↦ none
    | some n' ↦ poll_from fuel len' nic' n'
  ]
]

unfoldable pub net_poll : Nic → Net → Option (Nic × Net)
net_poll nic n = if n.has_nic then poll_from (nic.cbr + 1) 1600 nic n else some (nic, n)
