-- ===== src/Fs/Fat32/Directory/Entries.antt =====
-- src/fs/fat32.cpp: a directory as the list of its entries.
use nemo_os.Base.{
  ℕ, zero, suc, ◌+◌, ◌*◌, ◌/◌, ◌%◌, ◌^◌, ◌≤◌, ◌<◌, ◌≡◌, refl, ap, ◌∙◌, inl, inr, true, false,
  Option, none, some, List, [], ◌∷◌, ◌++◌, arith, leb, ◌==◌, if◌then◌else◌, Bool-cases,
}
use nemo_os.Libk.Text.{text}
use nemo_os.Fs.Vfs.{same_text}
use nemo_os.Fs.Fat32.{
  u16_at, u32_at, Disks, Fat32Fs, Fat32Node, fat32_eoc, byte_at, bytes_per_cluster,
  fat32_read_cluster, fat32_next_cluster,
}
use nemo_os.Fs.Fat32.Directory.{
  is_end, is_skipped, entry_name, child_of, find_in, finddir_from, fat32_finddir,
}

-- The entries of one cluster that are in use, each the cluster's bytes and an offset, from the
-- entry at `off` up to the first that was never used.
abbrev pub live : ℕ → ℕ → List ℕ → List (List ℕ × ℕ)
live zero off buf = []
live (suc k) off buf =
    let rest = live k (off + 32) buf in
    if is_end buf off then [] else if is_skipped buf off then rest else (buf, off) ∷ rest

-- The first entry with a name.
abbrev pub first_named : List ℕ → List (List ℕ × ℕ) → Option (List ℕ × ℕ)
first_named name [] = none
first_named name ((buf, off) ∷ es) =
    if same_text (entry_name buf off) name then some (buf, off) else first_named name es

-- The chain of `n` readable clusters from `cluster` has the entries `es`.
pub data Listing (disks : Disks) (fs : Fat32Fs) : ℕ → ℕ → List (List ℕ × ℕ) → Type 0 where
  end_of_chain : (cluster : ℕ) → fat32_eoc ≤ cluster → Listing disks fs 0 cluster []
  more :
      (n cluster next : ℕ) (buf : List ℕ) (es : List (List ℕ × ℕ))
      → cluster < fat32_eoc
      → fat32_read_cluster disks fs cluster ≡ some (some buf)
      → fat32_next_cluster disks fs cluster ≡ some next
      → Listing disks fs n next es
      → Listing disks fs (suc n) cluster (live (bytes_per_cluster fs / 32) 0 buf ++ es)

abbrev or_else : Option ℕ → List ℕ → Option (List ℕ × ℕ) → Option (List ℕ × ℕ)
or_else none buf o = o
or_else (some off) buf o = some (buf, off)

first_named-live :
    (k off : ℕ) (buf name : List ℕ) (es : List (List ℕ × ℕ))
    → first_named name (live k off buf ++ es)
      ≡ or_else (find_in k off buf name) buf (first_named name es)
unfolding find_in
first_named-live zero off buf name es = refl
first_named-live (suc k) off buf name es = elim (Bool-cases (is_end buf off)) [
  | inl e ↦ rw e refl
  | inr e ↦ elim (Bool-cases (is_skipped buf off)) [
    | inl s ↦ rw (e, s) (first_named-live k (off + 32) buf name es)
    | inr s ↦ elim (Bool-cases (same_text (entry_name buf off) name)) [
      | inl q ↦ rw (e, s, q) refl
      | inr q ↦ rw (e, s, q) (first_named-live k (off + 32) buf name es)
    ]
  ]
]

-- The node for the entry at `off` of a cluster of the directory `dir`, field by field: byte 11 has
-- the attributes, of which bit 4 says directory; the size is in bytes 28 to 31 and the first
-- cluster in bytes 26, 27, 20 and 21, the lowest first.
abbrev pub node_at : ℕ → List ℕ → ℕ → Fat32Node
node_at dir buf off = record {
  name = text (entry_name buf off);
  flags = if byte_at buf (off + 11) / 16 % 2 == 1 then 2 else 1;
  parent = dir;
  size =
      byte_at buf (off + 28)
      + 2 ^ 8 * byte_at buf (off + 29)
      + 2 ^ 16 * byte_at buf (off + 30)
      + 2 ^ 24 * byte_at buf (off + 31);
  inode = off;
  first_cluster =
      byte_at buf (off + 26)
      + 2 ^ 8 * byte_at buf (off + 27)
      + 2 ^ 16 * byte_at buf (off + 20)
      + 2 ^ 24 * byte_at buf (off + 21);
  is_dir = byte_at buf (off + 11) / 16 % 2 == 1;
}

pub u32_at-bytes :
    (buf : List ℕ) (off : ℕ)
    → u32_at buf (off + 28)
      ≡ byte_at buf (off + 28)
        + 2 ^ 8 * byte_at buf (off + 29)
        + 2 ^ 16 * byte_at buf (off + 30)
        + 2 ^ 24 * byte_at buf (off + 31)
u32_at-bytes buf off =
    let second = ap (byte_at buf) {x = off + 28 + 1} {y = off + 29} (omega arith) in
    let third = ap (byte_at buf) {x = off + 28 + 2} {y = off + 30} (omega arith) in
    let fourth = ap (byte_at buf) {x = off + 28 + 2 + 1} {y = off + 31} (omega arith) in
    omega (arith, second, third, fourth)

cluster-bytes :
    (buf : List ℕ) (off : ℕ)
    → u16_at buf (off + 20) * 2 ^ 16 + u16_at buf (off + 26)
      ≡ byte_at buf (off + 26)
        + 2 ^ 8 * byte_at buf (off + 27)
        + 2 ^ 16 * byte_at buf (off + 20)
        + 2 ^ 24 * byte_at buf (off + 21)
cluster-bytes buf off =
    let high = ap (byte_at buf) {x = off + 20 + 1} {y = off + 21} (omega arith) in
    let low = ap (byte_at buf) {x = off + 26 + 1} {y = off + 27} (omega arith) in
    omega (arith, high, low)

child_of_lem : (dir : ℕ) (buf : List ℕ) (off : ℕ) → child_of dir buf off ≡ node_at dir buf off
unfolding child_of
child_of_lem dir buf off =
    ap (λ n. record (child_of dir buf off) { size = n }) (u32_at-bytes buf off)
    ∙ ap (λ n. record (node_at dir buf off) { first_cluster = n }) (cluster-bytes buf off)

-- The node for an entry, if there is one and memory for it.
abbrev pub node_for : ℕ → ℕ → Option (List ℕ × ℕ) → Option Fat32Node
node_for dir child none = none
node_for dir child (some (buf, off)) = if child == 0 then none else some (node_at dir buf off)

found_or :
    (o : Option ℕ) (dir child : ℕ) (buf : List ℕ) (rest : Option (List ℕ × ℕ))
    {further : Option (Option Fat32Node)}
    → further ≡ some (node_for dir child rest)
    → (elim o [
      | none ↦ further
      | some off ↦ some (if child == 0 then none else some (child_of dir buf off))
    ])
      ≡ some (node_for dir child (or_else o buf rest))
found_or none dir child buf rest h = h
found_or (some off) dir child buf rest h =
    ap (λ x. some (if child == 0 then none else some x)) (child_of_lem dir buf off)

finddir_from-first :
    (disks : Disks) (fs : Fat32Fs) (fuel n cluster dir child : ℕ) (name : List ℕ)
    (es : List (List ℕ × ℕ))
    → Listing disks fs n cluster es
    → n < fuel
    → finddir_from fuel disks fs cluster dir child name
      ≡ some (node_for dir child (first_named name es))
unfolding finddir_from
finddir_from-first disks fs zero n cluster dir child name es l lt = absurd (omega arith)
finddir_from-first disks fs (suc fuel) zero cluster dir child name _ (end_of_chain c le) lt =
    let past : leb fat32_eoc cluster ≡ true = ground arith in rw past refl
finddir_from-first disks fs (suc fuel) (suc n) cluster dir child name _
      (more _ _ next buf es less e q l) lt =
    let inside : leb fat32_eoc cluster ≡ false = ground arith in
    rw (inside, e, first_named-live (bytes_per_cluster fs / 32) 0 buf name es)
      (found_or (find_in (bytes_per_cluster fs / 32) 0 buf name) dir child buf (first_named name es)
        (rw q (finddir_from-first disks fs fuel n next dir child name es l (omega arith))))

-- On a directory whose clusters are `n` readable ones, `fat32_finddir` ends in at most `n` + 1
-- rounds and returns the node of the first entry in use that has the name: its kind by the
-- directory bit, its size and first cluster as the 32 bits stored, its offset, and the directory as
-- parent. Without such an entry, or without memory, it returns null.
pub fat32_finddir-first :
    (disks : Disks) (fs : Fat32Fs) (fuel n dir child : ℕ) (node : Fat32Node) (name : List ℕ)
    (es : List (List ℕ × ℕ))
    → node.is_dir ≡ true
    → Listing disks fs n node.first_cluster es
    → n < fuel
    → fat32_finddir fuel disks fs node dir child name
      ≡ some (node_for dir child (first_named name es))
unfolding fat32_finddir
fat32_finddir-first disks fs fuel n dir child node name es d l lt =
    rw d (finddir_from-first disks fs fuel n node.first_cluster dir child name es l lt)
