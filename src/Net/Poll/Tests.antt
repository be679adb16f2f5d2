-- ===== src/Net/Poll/Tests.antt =====
-- A ring that holds one packet of eight bytes.
use nemo_os.Base.{◌≡◌, refl, true, some, [], ◌∷◌, replicate}
use nemo_os.Net.{Net}
use nemo_os.Net.Poll.{Nic, rtl8139_poll, net_poll}
use nemo_os.Net.Poll.Loop.{net_poll-gives}

abbrev ring : Nic
ring = record { rx_buffer = 1 ∷ 0 ∷ 12 ∷ 0 ∷ replicate 12 7; rx_offset = 0; cbr = 16; capr = 0 }

abbrev host : Net
host = record {
  arp_cache = [];
  our_mac = replicate 6 2;
  our_ip = 10 ∷ 0 ∷ 2 ∷ 15 ∷ [];
  ip_id = 0;
  has_nic = true;
  sent = [];
}

eight_bytes :
    rtl8139_poll 1600 ring ≡ some (replicate 8 7, 8, record ring { rx_offset = 12; capr = 65532 })
unfolding rtl8139_poll
eight_bytes = refl

net_poll-gives_example : (r : Nic × Net) × (net_poll ring host ≡ some r)
net_poll-gives_example = net_poll-gives ring host
