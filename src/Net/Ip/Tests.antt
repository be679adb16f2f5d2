-- ===== src/Net/Ip/Tests.antt =====
-- The header of a packet to the gateway, and sums.
use nemo_os.Base.{ℕ, zero, suc, ◌<◌, ◌≡◌, true, some, List, [], ◌∷◌, arith, get_or}
use nemo_os.Net.Checksum.{net_checksum, ip_checksum_ok}
use nemo_os.Net.Ip.{ip_bytes}
use nemo_os.Net.Ip.Header.{header-ok}

abbrev here : List ℕ
here = 10 ∷ 0 ∷ 2 ∷ 15 ∷ []

abbrev gateway : List ℕ
gateway = 10 ∷ 0 ∷ 2 ∷ 1 ∷ []

here-bytes : (i : ℕ) → get_or here i 0 < 256
here-bytes zero = omega arith
here-bytes (suc zero) = omega arith
here-bytes (suc (suc zero)) = omega arith
here-bytes (suc (suc (suc zero))) = omega arith
here-bytes (suc (suc (suc (suc i)))) = omega arith

gateway-bytes : (i : ℕ) → get_or gateway i 0 < 256
gateway-bytes zero = omega arith
gateway-bytes (suc zero) = omega arith
gateway-bytes (suc (suc zero)) = omega arith
gateway-bytes (suc (suc (suc zero))) = omega arith
gateway-bytes (suc (suc (suc (suc i)))) = omega arith

header-ok_example :
    (c : ℕ) × (net_checksum (ip_bytes 52 7 1 here gateway 0) 20 ≡ some c)
    × (ip_checksum_ok (ip_bytes 52 7 1 here gateway c) ≡ some true)
header-ok_example = header-ok 52 7 1 here gateway (omega arith) here-bytes gateway-bytes
