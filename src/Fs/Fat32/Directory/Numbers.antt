-- ===== src/Fs/Fat32/Directory/Numbers.antt =====
-- src/fs/fat32.cpp: the entries of a directory by number.
use nemo_os.Base.{
  ℕ, zero, suc, ◌+◌, ◌-◌, ◌*◌, ◌/◌, ◌%◌, ◌^◌, ◌≤◌, ◌<◌, ◌≡◌, ◌≢◌, refl, ap, ◌∙◌, subst, inl, inr,
  true, false, Option, none, some, List, [], ◌∷◌, ◌++◌, arith, leb, ◌==◌, if◌then◌else◌, Bool-cases,
  length, get_elem?, ◌>>=◌,
}
use nemo_os.Fs.Fat32.{
  Disks, Fat32Fs, Fat32Node, fat32_eoc, byte_at, bytes_per_cluster, fat32_next_cluster,
}
use nemo_os.Libk.Text.{text}
use nemo_os.Fs.Fat32.Directory.{
  DirEntry, dir_entry_of, entry_name, is_end, is_skipped, count_in, readdir_from, fat32_readdir,
}
use nemo_os.Fs.Fat32.Directory.Entries.{u32_at-bytes, live, Listing, end_of_chain, more}

-- The search for number `index` among the entries `l`, of which the first has number `count`.
data Counted (buf : List ℕ) (index count : ℕ) (l : List (List ℕ × ℕ)) : Option ℕ × ℕ → Type 0 where
  passed : count + length l ≤ index → Counted buf index count l (none, count + length l)
  reached :
      (o c : ℕ)
      → get_elem? l (index - count) ≡ some (buf, o)
      → Counted buf index count l (some o, c)

Counted-cons :
    (buf : List ℕ) (index count off : ℕ) {l : List (List ℕ × ℕ)} {r : Option ℕ × ℕ}
    → count < index
    → Counted buf index (count + 1) l r
    → Counted buf index count ((buf, off) ∷ l) r
Counted-cons buf index count off {l} lt (passed h) =
    subst (λ c. Counted buf index count ((buf, off) ∷ l) (none, c)) (omega arith)
      (passed (omega arith))
Counted-cons buf index count off {l} lt (reached o c e) =
    let shift : index - count ≡ suc (index - (count + 1)) = omega arith in reached o c (rw shift e)

count_in-Counted :
    (k off : ℕ) (buf : List ℕ) (index count : ℕ)
    → count ≤ index
    → Counted buf index count (live k off buf) (count_in k off buf index count)
unfolding count_in
count_in-Counted zero off buf index count le =
    subst (λ c. Counted buf index count [] (none, c)) (omega arith) (passed (omega arith))
count_in-Counted (suc k) off buf index count le = elim (Bool-cases (is_end buf off)) [
  | inl e ↦
      rw e (subst (λ c. Counted buf index count [] (none, c)) (omega arith) (passed (omega arith)))
  | inr e ↦ elim (Bool-cases (is_skipped buf off)) [
    | inl s ↦ rw (e, s) (count_in-Counted k (off + 32) buf index count le)
    | inr s ↦ elim (Bool-cases (count == index)) [
      | inl q ↦
          let here : index - count ≡ 0 = ground arith in
          rw (e, s, q) (reached off count (rw here refl))
      | inr q ↦
          rw (e, s, q)
            (Counted-cons buf index count off (ground arith)
              (count_in-Counted k (off + 32) buf index (count + 1) (ground arith)))
    ]
  ]
]

get_elem?-append_left {ℓ} :
    {A : Type ℓ} (xs ys : List A) (i : ℕ) (x : A)
    → get_elem? xs i ≡ some x
    → get_elem? (xs ++ ys) i ≡ some x
get_elem?-append_left [] ys i x e = absurd (clash e)
  where
    clash : none ≢ some x
    clash = cc
get_elem?-append_left (y ∷ xs) ys zero x e = e
get_elem?-append_left (y ∷ xs) ys (suc i) x e = get_elem?-append_left xs ys i x e

get_elem?-append_right {ℓ} :
    {A : Type ℓ} (xs ys : List A) (i : ℕ) → get_elem? (xs ++ ys) (length xs + i) ≡ get_elem? ys i
get_elem?-append_right [] ys i = ap (get_elem? ys) (omega arith)
get_elem?-append_right (x ∷ xs) ys i =
    ap (get_elem? (x ∷ (xs ++ ys))) {x = suc (length xs) + i} {y = suc (length xs + i)}
      (omega arith)
    ∙ get_elem?-append_right xs ys i

-- The entry at `off` as the caller gets it, field by field: byte 11 has the attributes, of which bit
-- 4 says directory, and the size is in bytes 28 to 31, the lowest first.
abbrev pub entry_at : List ℕ → ℕ → DirEntry
entry_at buf off = record {
  name = text (entry_name buf off);
  flags = if byte_at buf (off + 11) / 16 % 2 == 1 then 2 else 1;
  size =
      byte_at buf (off + 28)
      + 2 ^ 8 * byte_at buf (off + 29)
      + 2 ^ 16 * byte_at buf (off + 30)
      + 2 ^ 24 * byte_at buf (off + 31);
  inode = off;
  impl = 0;
  read = 0;
  write = 0;
  readdir = 0;
  finddir = 0;
  destroy = 0;
}

dir_entry_of_lem : (buf : List ℕ) (off : ℕ) → dir_entry_of buf off ≡ entry_at buf off
unfolding dir_entry_of
dir_entry_of_lem buf off = ap (λ n. record (entry_at buf off) { size = n }) (u32_at-bytes buf off)

-- The entry with a number.
abbrev pub listed : Option (List ℕ × ℕ) → Option DirEntry
listed none = none
listed (some (buf, off)) = some (entry_at buf off)

-- The rest of a round of `readdir_from`.
abbrev go_on : Disks → Fat32Fs → ℕ → ℕ → ℕ → List ℕ → Option ℕ × ℕ → Option (Option DirEntry)
go_on disks fs fuel cluster index buf (found, count) = elim found [
  | some off ↦ some (some (dir_entry_of buf off))
  | none ↦
      fat32_next_cluster disks fs cluster >>= (λ next. readdir_from fuel disks fs next index count)
]

go_on-numbered :
    (disks : Disks) (fs : Fat32Fs) (fuel cluster next index count : ℕ) (buf : List ℕ)
    (l es : List (List ℕ × ℕ)) {r : Option ℕ × ℕ}
    → fat32_next_cluster disks fs cluster ≡ some next
    → ((c : ℕ)
        → c ≤ index
        → readdir_from fuel disks fs next index c ≡ some (listed (get_elem? es (index - c))))
    → Counted buf index count l r
    → go_on disks fs fuel cluster index buf r ≡ some (listed (get_elem? (l ++ es) (index - count)))
go_on-numbered disks fs fuel cluster next index count buf l es q rest (reached o c e) =
    rw (get_elem?-append_left l es (index - count) (buf, o) e)
      (ap (λ x. some (some x)) (dir_entry_of_lem buf o))
go_on-numbered disks fs fuel cluster next index count buf l es q rest (passed h) =
    let shift : index - count ≡ length l + (index - (count + length l)) = omega arith in
    rw (q, shift, get_elem?-append_right l es (index - (count + length l)))
      (rest (count + length l) h)

readdir_from-numbered :
    (disks : Disks) (fs : Fat32Fs) (fuel n cluster index count : ℕ) (es : List (List ℕ × ℕ))
    → Listing disks fs n cluster es
    → n < fuel
    → count ≤ index
    → readdir_from fuel disks fs cluster index count ≡ some (listed (get_elem? es (index - count)))
unfolding readdir_from
readdir_from-numbered disks fs zero n cluster index count es l lt le = absurd (omega arith)
readdir_from-numbered disks fs (suc fuel) zero cluster index count _ (end_of_chain c past) lt le =
    let over : leb fat32_eoc cluster ≡ true = ground arith in rw over refl
readdir_from-numbered disks fs (suc fuel) (suc n) cluster index count _
      (more _ _ next buf es less e q l) lt le =
    let inside : leb fat32_eoc cluster ≡ false = ground arith in
    rw (inside, e)
      (go_on-numbered disks fs fuel cluster next index count buf
        (live (bytes_per_cluster fs / 32) 0 buf) es q
        (λ c h. readdir_from-numbered disks fs fuel n next index c es l (omega arith) h)
        (count_in-Counted (bytes_per_cluster fs / 32) 0 buf index count le))

-- On a directory whose clusters are `n` readable ones, `fat32_readdir` ends in at most `n` + 1
-- rounds. It gives the entry in use with the given number, from 0, in the order in which
-- `fat32_finddir` searches: the name as stored for the entry, its kind by the directory bit, its
-- size as the 32 bits stored, its offset, and no functions; and -1 past the last.
pub fat32_readdir-numbered :
    (disks : Disks) (fs : Fat32Fs) (fuel n index : ℕ) (node : Fat32Node) (es : List (List ℕ × ℕ))
    → node.is_dir ≡ true
    → Listing disks fs n node.first_cluster es
    → n < fuel
    → fat32_readdir fuel disks fs node index ≡ some (listed (get_elem? es index))
unfolding fat32_readdir
fat32_readdir-numbered disks fs fuel n index node es d l lt =
    let all : index - 0 ≡ index = omega arith in
    rw d (
      readdir_from-numbered disks fs fuel n node.first_cluster index 0 es l lt (omega arith)
      ∙ ap (λ i. some (listed (get_elem? es i))) all)
