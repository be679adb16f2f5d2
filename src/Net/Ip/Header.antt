-- ===== src/Net/Ip/Header.antt =====
-- src/net/ip.cpp: the header that `ip_send` builds passes the test of src/net/net.cpp.
use nemo_os.Base.{
  ℕ, zero, suc, ◌+◌, ◌-◌, ◌^◌, ◌≤◌, ◌<◌, ◌≡◌, ap, ◌∙◌, true, some, List, [], ◌∷◌, arith, ◌==◌,
  get_or,
}
use nemo_os.Net.Checksum.{
  net_checksum, ip_checksum_ok, sum_words, ones, fold-ones, total, sum_words-total, ones-complement,
}
use nemo_os.Net.Ip.{ip_bytes}

abbrev AreBytes : List ℕ → Type 0
AreBytes xs = (i : ℕ) → get_or xs i 0 < 256

abbrev AllBytes : List ℕ → Type 0
AllBytes [] = Unit
AllBytes (x ∷ xs) = (x < 256) × AllBytes xs

AllBytes-AreBytes : (xs : List ℕ) → AllBytes xs → AreBytes xs
AllBytes-AreBytes [] a i = omega arith
AllBytes-AreBytes (x ∷ xs) a zero = a.0
AllBytes-AreBytes (x ∷ xs) a (suc i) = AllBytes-AreBytes xs a.1 i

net_checksum-ones :
    (ip : List ℕ) (s : ℕ)
    → sum_words 10 0 ip 0 ≡ s
    → s < 2 ^ 32
    → net_checksum ip 20 ≡ some (65535 - ones s)
unfolding net_checksum
net_checksum-ones ip s e h = rw (net_checksum, e, fold-ones s h)

ip_checksum_ok-ones :
    (ip : List ℕ) (s : ℕ)
    → sum_words 10 0 ip 0 ≡ s
    → s < 2 ^ 32
    → ip_checksum_ok ip ≡ some (ones s == 0xFFFF)
unfolding ip_checksum_ok
ip_checksum_ok-ones ip s e h = rw (ip_checksum_ok, e, fold-ones s h)

module _ (total_len id proto : ℕ) (src dst : List ℕ) (small : proto < 256)
    (src_bytes : (i : ℕ) → get_or src i 0 < 256) (dst_bytes : (i : ℕ) → get_or dst i 0 < 256) where
  abbrev header : ℕ → List ℕ
  header = ip_bytes total_len id proto src dst

  header-AreBytes : (c : ℕ) → AreBytes (header c)
  unfolding ip_bytes
  header-AreBytes c = AllBytes-AreBytes (header c) (
    omega arith,
    (
      omega arith,
      (
        omega arith,
        (
          omega arith,
          (
            omega arith,
            (
              omega arith,
              (
                omega arith,
                (
                  omega arith,
                  (
                    omega arith,
                    (
                      small,
                      (
                        omega arith,
                        (
                          omega arith,
                          (
                            src_bytes 0,
                            (
                              src_bytes 1,
                              (
                                src_bytes 2,
                                (
                                  src_bytes 3,
                                  (dst_bytes 0, (dst_bytes 1, (dst_bytes 2, (dst_bytes 3, tt)))),
                                ),
                              ),
                            ),
                          ),
                        ),
                      ),
                    ),
                  ),
                ),
              ),
            ),
          ),
        ),
      ),
    ),
  )

  total-checksum : (c : ℕ) → c < 65536 → total 10 0 (header c) ≡ total 10 0 (header 0) + c
  unfolding ip_bytes total
  total-checksum c h = omega arith

  header-sum : (c : ℕ) → c < 65536 → sum_words 10 0 (header c) 0 ≡ total 10 0 (header 0) + c
  header-sum c h =
      (sum_words-total 10 0 (header c) 0 (header-AreBytes c) (omega arith)).0
      ∙ ap (λ t. 0 + t) (total-checksum c h)
      ∙ omega arith

  ones-bound : (s : ℕ) → ones s ≤ 65535
  ones-bound zero = omega arith
  ones-bound (suc s) = omega arith

  header_total : total 10 0 (header 0) ≤ 655350
  header_total = (sum_words-total 10 0 (header 0) 0 (header-AreBytes 0) (omega arith)).1

  header_checksum : net_checksum (header 0) 20 ≡ some (65535 - ones (total 10 0 (header 0)))
  header_checksum =
      let sum : sum_words 10 0 (header 0) 0 ≡ total 10 0 (header 0) =
        header-sum 0 (omega arith) ∙ omega arith in
      let big = header_total in
      net_checksum-ones (header 0) (total 10 0 (header 0)) sum (omega arith)

  -- The checksum of a header whose checksum field is zero always exists, and the header with it in
  -- that field passes the test of the receiver.
  pub header-ok :
      (c : ℕ) × (net_checksum (header 0) 20 ≡ some c) × (ip_checksum_ok (header c) ≡ some true)
  header-ok =
      let t = total 10 0 (header 0) in
      let c = 65535 - ones t in
      let big = header_total in
      let sum = header-sum c (omega arith) in
      (
        c,
        header_checksum,
        ip_checksum_ok-ones (header c) (t + c) sum (omega arith)
            ∙ ap (λ r. some (r == 0xFFFF)) (ones-complement t),
      )
