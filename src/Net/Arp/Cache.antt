-- ===== src/Net/Arp/Cache.antt =====
-- src/net/arp.cpp: the cache as a map.
use nemo_os.Base.{
  ℕ, zero, suc, ◌≡◌, ◌≢◌, refl, sym, ap, ◌∙◌, inl, inr, Bool, true, false, ◌&&◌, Option, none, some,
  List, [], ◌∷◌, arith, if◌then◌else◌, Bool-cases, get_elem?, take, take-take,
}
use nemo_os.Net.{ArpEntry}
use nemo_os.Net.Arp.{same_ip, update, insert, arp_cache_add, arp_cache_lookup}

apart :
    (b : Bool) (x ip a : List ℕ)
    → (b && same_ip x ip) ≡ false
    → same_ip ip a ≡ true
    → (b && same_ip x a) ≡ false
apart b x ip a h k = ground arith

other :
    (b : Bool) (x ip q : List ℕ)
    → (b && same_ip x ip) ≡ false
    → (b && same_ip x q) ≡ true
    → same_ip ip q ≡ false
other b x ip q h k = ground arith

same : (b : Bool) (x ip q : List ℕ) → (b && same_ip x ip) ≡ true → (b && same_ip x q) ≡ same_ip ip q
same b x ip q h = ground arith

pub same_ip_refl : (a : List ℕ) → same_ip a a ≡ true
same_ip_refl a = ground arith

same_ip-take : (a b : List ℕ) → same_ip (take 4 a) b ≡ same_ip a b
same_ip-take [] b = refl
same_ip-take (x ∷ []) b = refl
same_ip-take (x ∷ y ∷ []) b = refl
same_ip-take (x ∷ y ∷ z ∷ []) b = refl
same_ip-take (x ∷ y ∷ z ∷ w ∷ a) b = refl

take-take_mac : (mac : List ℕ) → take 6 (take 6 mac) ≡ take 6 mac
take-take_mac mac = take-take 6 6 mac (omega arith)

-- A lookup of `q` after the address `ip` was given the hardware address `mac`.
abbrev pub expected : List ℕ → List ℕ → List ℕ → List ArpEntry → Option (List ℕ)
expected ip mac q cache = if same_ip ip q then some (take 6 mac) else arp_cache_lookup q cache

pub data Updated (ip mac q : List ℕ) (cache : List ArpEntry) : Option (List ArpEntry) → Type 0 where
  absent :
      ((a : List ℕ) → same_ip ip a ≡ true → arp_cache_lookup a cache ≡ none)
      → Updated ip mac q cache none
  changed :
      (out : List ArpEntry)
      → arp_cache_lookup q out ≡ expected ip mac q cache
      → Updated ip mac q cache (some out)

module _ (ip mac q : List ℕ) where
  lookup-hit :
      (x : ArpEntry) (a : List ℕ) (cache : List ArpEntry)
      → x.valid && same_ip x.ip a ≡ true
      → arp_cache_lookup a (x ∷ cache) ≡ some (take 6 x.mac)
  unfolding arp_cache_lookup
  lookup-hit x a cache e = rw e

  lookup-miss :
      (x : ArpEntry) (a : List ℕ) (cache : List ArpEntry)
      → x.valid && same_ip x.ip a ≡ false
      → arp_cache_lookup a (x ∷ cache) ≡ arp_cache_lookup a cache
  unfolding arp_cache_lookup
  lookup-miss x a cache e = rw e

  later :
      (x : ArpEntry) (cache : List ArpEntry) {r : Option (List ArpEntry)}
      → x.valid && same_ip x.ip ip ≡ false
      → Updated ip mac q cache r
      → Updated ip mac q (x ∷ cache) (elim r [ none ↦ none | some es ↦ some (x ∷ es) ])
  later x cache e (absent h) =
      absent (λ a s. lookup-miss x a cache (apart x.valid x.ip ip a e s) ∙ h a s)
  later x cache e (changed out h) =
      changed (x ∷ out) (elim (Bool-cases (x.valid && same_ip x.ip q)) [
        | inl t ↦
            lookup-hit x q out t ∙ sym (rw (other x.valid x.ip ip q e t) (lookup-hit x q cache t))
        | inr f ↦
            lookup-miss x q out f
            ∙ h
            ∙ ap (λ r. if same_ip ip q then some (take 6 mac) else r)
                (sym (lookup-miss x q cache f))
      ])

  lookup-nil : (a : List ℕ) → arp_cache_lookup a [] ≡ none
  unfolding arp_cache_lookup
  lookup-nil a = refl

  replaced :
      (x : ArpEntry) (cache : List ArpEntry)
      → (x.valid && same_ip x.ip ip) ≡ true
      → arp_cache_lookup q (record x { mac = take 6 mac } ∷ cache) ≡ expected ip mac q (x ∷ cache)
  unfolding arp_cache_lookup
  replaced x cache hit = rw (same x.valid x.ip ip q hit, take-take_mac mac) (hidden (same_ip ip q))
    where
      hidden :
          (b : Bool)
          → (if b then some (take 6 mac) else arp_cache_lookup q cache) ≡ (
              if b
              then some (take 6 mac)
              else (if b then some (take 6 x.mac) else arp_cache_lookup q cache))
      hidden true = refl
      hidden false = refl

  update-Updated : (cache : List ArpEntry) → Updated ip mac q cache (update ip mac cache)
  unfolding update
  update-Updated [] = absent (λ a s. lookup-nil a)
  update-Updated (x ∷ cache) = elim (Bool-cases (x.valid && same_ip x.ip ip)) [
    | inl hit ↦ rw hit (changed (record x { mac = take 6 mac } ∷ cache) (replaced x cache hit))
    | inr miss ↦ rw miss (later x cache miss (update-Updated cache))
  ]

  abbrev Absent : List ArpEntry → Type 0
  Absent cache = (a : List ℕ) → same_ip ip a ≡ true → arp_cache_lookup a cache ≡ none

  placed :
      (x : ArpEntry) (cache : List ArpEntry)
      → x.valid ≡ false
      → arp_cache_lookup q (record { ip = take 4 ip; mac = take 6 mac; valid = true } ∷ cache)
        ≡ expected ip mac q (x ∷ cache)
  unfolding arp_cache_lookup
  placed x cache free = rw (free, same_ip-take ip q, take-take_mac mac)

  not_here :
      (x : ArpEntry) (cache : List ArpEntry)
      → Absent (x ∷ cache)
      → (x.valid && same_ip x.ip ip) ≡ false
  not_here x cache h = elim (Bool-cases (x.valid && same_ip x.ip ip)) [
    | inl hit ↦ absurd (clash (sym (lookup-hit x ip cache hit) ∙ h ip (same_ip_refl ip)))
    | inr miss ↦ miss
  ]
    where
      clash : {m : List ℕ} → some m ≢ none
      clash e = cc

  insert-used :
      (x : ArpEntry) (cache : List ArpEntry)
      → x.valid ≡ true
      → insert ip mac (x ∷ cache)
        ≡ elim (insert ip mac cache) [ none ↦ none | some es ↦ some (x ∷ es) ]
  unfolding insert
  insert-used x cache used = ground arith

  insert-free :
      (x : ArpEntry) (cache : List ArpEntry)
      → x.valid ≡ false
      → insert ip mac (x ∷ cache)
        ≡ some (record { ip = take 4 ip; mac = take 6 mac; valid = true } ∷ cache)
  unfolding insert
  insert-free x cache free = ground arith

  insert-Updated :
      (cache : List ArpEntry) → Absent cache → Updated ip mac q cache (insert ip mac cache)
  unfolding insert
  insert-Updated [] h = absent h
  insert-Updated (x ∷ cache) h = elim (Bool-cases x.valid) [
    | inl used ↦
        let miss = not_here x cache h in
        rw (insert-used x cache used) (
          later x cache miss (
            insert-Updated cache
              (λ a s. sym (lookup-miss x a cache (apart x.valid x.ip ip a miss s)) ∙ h a s)))
    | inr free ↦ rw (insert-free x cache free) (
        changed (record { ip = take 4 ip; mac = take 6 mac; valid = true } ∷ cache)
          (placed x cache free))
  ]

  added :
      (cache : List ArpEntry) {r : Option (List ArpEntry)}
      → Updated ip mac q cache r
      → Updated ip mac q cache (elim r [ none ↦ insert ip mac cache | some cache' ↦ some cache' ])
  added cache (absent h) = insert-Updated cache h
  added cache (changed out h) = changed out h

  -- Adding an address to the cache makes lookups of it give its hardware address and leaves all
  -- other lookups as they were; it can fail only for an address that the cache does not hold.
  pub arp_cache_add-Updated :
      (cache : List ArpEntry) → Updated ip mac q cache (arp_cache_add ip mac cache)
  unfolding arp_cache_add
  arp_cache_add-Updated cache = added cache (update-Updated cache)

-- No slot is free.
abbrev pub IsFull : List ArpEntry → Type 0
IsFull cache = (i : ℕ) (e : ArpEntry) → get_elem? cache i ≡ some e → e.valid ≡ true

IsFull-cons :
    (x : ArpEntry) (cache : List ArpEntry) → x.valid ≡ true → IsFull cache → IsFull (x ∷ cache)
IsFull-cons x cache used full zero e h = cc
IsFull-cons x cache used full (suc i) e h = full i e h

rest-none :
    (x : ArpEntry) (r : Option (List ArpEntry))
    → (elim r as (λ o. Option (List ArpEntry)) [ none ↦ none | some es ↦ some (x ∷ es) ]) ≡ none
    → r ≡ none
rest-none x none e = refl
rest-none x (some es) e = absurd (cc)

insert-IsFull :
    (ip mac : List ℕ) (cache : List ArpEntry) → insert ip mac cache ≡ none → IsFull cache
unfolding insert
insert-IsFull ip mac [] h = λ i e at. absurd (cc)
insert-IsFull ip mac (x ∷ cache) h = elim (Bool-cases x.valid) [
  | inl used ↦ IsFull-cons x cache used (
      insert-IsFull ip mac cache
        (rest-none x (insert ip mac cache) (sym (insert-used ip mac [] x cache used) ∙ h)))
  | inr free ↦ absurd (clash (sym (insert-free ip mac [] x cache free) ∙ h))
]
  where
    clash : {m : List ArpEntry} → some m ≢ none
    clash e = cc

update-none :
    (ip mac : List ℕ) (cache : List ArpEntry) (r : Option (List ArpEntry))
    → (elim r as (λ o. Option (List ArpEntry)) [ none ↦ insert ip mac cache | some es ↦ some es ])
      ≡ none
    → insert ip mac cache ≡ none
update-none ip mac cache none e = e
update-none ip mac cache (some es) e = absurd (cc)

-- `arp_cache_add` fails only when no slot is free.
pub arp_cache_add-IsFull :
    (ip mac : List ℕ) (cache : List ArpEntry) → arp_cache_add ip mac cache ≡ none → IsFull cache
unfolding arp_cache_add
arp_cache_add-IsFull ip mac cache h =
    insert-IsFull ip mac cache (update-none ip mac cache (update ip mac cache) h)
