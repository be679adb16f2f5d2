-- ===== src/Net/Arp/Handle.antt =====
-- src/net/arp.cpp: packets, and what a card answers.
use nemo_os.Base.{
  ℕ, zero, suc, ◌+◌, ◌*◌, ◌/◌, ◌%◌, ◌^◌, ◌<◌, ◌≡◌, refl, ap, ◌∙◌, List, [], ◌∷◌, ◌++◌, arith,
  length, take, drop,
}
use nemo_os.Net.Arp.{ArpPkt, arp_bytes, arp_of}

-- The addresses have the lengths of their arrays and the numbers fit their fields.
pub record IsArp (p : ArpPkt) : Type 0 where
  pub htype : p.htype < 2 ^ 16
  pub ptype : p.ptype < 2 ^ 16
  pub oper : p.oper < 2 ^ 16
  pub sha : length p.sha ≡ 6
  pub spa : length p.spa ≡ 4
  pub tha : length p.tha ≡ 6
  pub tpa : length p.tpa ≡ 4

take-front : (n : ℕ) (xs ys : List ℕ) → length xs ≡ n → take n (take n xs ++ ys) ≡ xs
take-front zero [] ys h = refl
take-front zero (x ∷ xs) ys h = absurd (omega arith)
take-front (suc n) [] ys h = absurd (omega arith)
take-front (suc n) (x ∷ xs) ys h = ap (λ t. x ∷ t) (take-front n xs ys (omega arith))

take-whole : (n : ℕ) (xs : List ℕ) → length xs ≡ n → take n (take n xs) ≡ xs
take-whole zero [] h = refl
take-whole zero (x ∷ xs) h = absurd (omega arith)
take-whole (suc n) [] h = absurd (omega arith)
take-whole (suc n) (x ∷ xs) h = ap (λ t. x ∷ t) (take-whole n xs (omega arith))

pub drop-front :
    (n m k : ℕ) (xs ys : List ℕ) → length xs ≡ n → k ≡ n + m → drop k (take n xs ++ ys) ≡ drop m ys
drop-front zero m k [] ys h e = ap (λ i. drop i ys) (omega arith)
drop-front zero m k (x ∷ xs) ys h e = absurd (omega arith)
drop-front (suc n) m k [] ys h e = absurd (omega arith)
drop-front (suc n) m zero (x ∷ xs) ys h e = absurd (omega arith)
drop-front (suc n) m (suc k) (x ∷ xs) ys h e = drop-front n m k xs ys (omega arith) (omega arith)

word-le16 : (v : ℕ) → v < 2 ^ 16 → v % 256 + 256 * (v / 256 % 256) ≡ v
word-le16 v h = omega arith

-- A packet is read from memory as it was written.
pub arp_of-arp_bytes : (p : ArpPkt) → IsArp p → arp_of (arp_bytes p) ≡ p
unfolding arp_of arp_bytes
arp_of-arp_bytes p v =
    let tail3 = take 4 p.tpa in
    let tail2 = take 6 p.tha ++ tail3 in
    let tail1 = take 4 p.spa ++ tail2 in
    let sha : take 6 (drop 8 (arp_bytes p)) ≡ p.sha = take-front 6 p.sha tail1 v.sha in
    let spa : take 4 (drop 14 (arp_bytes p)) ≡ p.spa =
      ap (take 4) (drop-front 6 0 6 p.sha tail1 v.sha (omega arith))
      ∙ take-front 4 p.spa tail2 v.spa in
    let tha : take 6 (drop 18 (arp_bytes p)) ≡ p.tha =
      ap (take 6) (
        drop-front 6 4 10 p.sha tail1 v.sha (omega arith)
        ∙ drop-front 4 0 4 p.spa tail2 v.spa (omega arith))
      ∙ take-front 6 p.tha tail3 v.tha in
    let tpa : take 4 (drop 24 (arp_bytes p)) ≡ p.tpa =
      ap (take 4) (
        drop-front 6 10 16 p.sha tail1 v.sha (omega arith)
        ∙ drop-front 4 6 10 p.spa tail2 v.spa (omega arith)
        ∙ drop-front 6 0 6 p.tha tail3 v.tha (omega arith))
      ∙ take-whole 4 p.tpa v.tpa in
    rw (
      word-le16 p.htype v.htype,
      word-le16 p.ptype v.ptype,
      word-le16 p.oper v.oper,
      sha,
      spa,
      tha,
      tpa,
    )
