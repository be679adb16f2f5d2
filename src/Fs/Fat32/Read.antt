-- ===== src/Fs/Fat32/Read.antt =====
-- src/fs/fat32.cpp: `fat32_read` takes the number of a cluster for a position in the file.
use nemo_os.Base.{
  ℕ, suc, ◌+◌, ◌-◌, ◌*◌, ◌%◌, ◌^◌, ◌≤◌, ◌<◌, ◌≡◌, ap, true, false, ◌||◌, Option, none, some, List,
  arith, ltb, leb, ◌==◌, if◌then◌else◌, ◌>>=◌,
}
use nemo_os.Fs.Fat32.{
  Disks, Fat32Fs, Fat32Node, fat32_eoc, bytes_per_cluster, buffer_size, copy_out, read_file_from,
  fat32_read, fat32_read_cluster,
}

bind-none {ℓ κ} :
    {A : Type ℓ} {B : Type κ} {o : Option A} (f : A → Option B) → o ≡ none → (o >>= f) ≡ none
bind-none f e = ap (λ p. p >>= f) e

product : (a b : ℕ) → (2 ^ 32 + a) * b ≡ 2 ^ 32 * b + a * b
product a b = grind arith

-- The copy begins past the buffer's end.
copy_out-overrun :
    (per start offset left : ℕ) (buf : List ℕ)
    → offset < start
    → start + per + buffer_size < 2 ^ 32
    → 0 < left
    → let off = (2 ^ 32 + offset - start) % 2 ^ 32 in
      let room = (2 ^ 32 + per - off) % 2 ^ 32 in
      copy_out (if ltb left room then left else room) off buf ≡ none
unfolding copy_out
copy_out-overrun per start offset left buf before low some_bytes =
    let off_is : (2 ^ 32 + offset - start) % 2 ^ 32 ≡ 2 ^ 32 + offset - start = omega arith in
    let room_is : (2 ^ 32 + per - (2 ^ 32 + offset - start)) % 2 ^ 32 ≡ per + start - offset =
      omega arith in
    rw (off_is, room_is) (ground arith)

-- The position that the loop takes a cluster to have.
abbrev position : Fat32Fs → ℕ → ℕ
position fs cluster = (2 ^ 32 + cluster - 2) * bytes_per_cluster fs % 2 ^ 32

read_file_from-overrun :
    (disks : Disks) (fs : Fat32Fs) (fuel cluster offset left : ℕ) (buf : List ℕ)
    → cluster < fat32_eoc
    → offset < position fs cluster
    → position fs cluster + bytes_per_cluster fs + buffer_size < 2 ^ 32
    → 0 < left
    → fat32_read_cluster disks fs cluster ≡ some (some buf)
    → read_file_from (suc fuel) disks fs cluster offset left ≡ none
unfolding read_file_from
read_file_from-overrun disks fs fuel cluster offset left buf chain before low some_bytes readable =
    let go : (leb fat32_eoc cluster || (left == 0)) ≡ false = ground arith in
    let near : ltb offset ((position fs cluster + bytes_per_cluster fs) % 2 ^ 32) ≡ true =
      ground arith in
    rw (go, near, readable)
      (bind-none _ (
        copy_out-overrun (bytes_per_cluster fs) (position fs cluster) offset left buf before low
          some_bytes))

position-third :
    (fs : Fat32Fs) (cluster : ℕ)
    → 2 ≤ cluster
    → (cluster - 2) * bytes_per_cluster fs < 2 ^ 32
    → position fs cluster ≡ (cluster - 2) * bytes_per_cluster fs
position-third fs cluster le small =
    let shift : 2 ^ 32 + cluster - 2 ≡ 2 ^ 32 + (cluster - 2) = omega arith in
    rw (shift, product (cluster - 2) (bytes_per_cluster fs)) (omega arith)

-- The index in the buffer of the first byte that is copied, `cluster_off`.
abbrev pub position_in : Fat32Fs → ℕ → ℕ → ℕ
position_in fs cluster offset =
    (2 ^ 32 + offset - (2 ^ 32 + cluster - 2) * bytes_per_cluster fs % 2 ^ 32) % 2 ^ 32

-- Take a file whose first cluster can be read and has a number from 2 on, an offset inside the file
-- that lies before (first cluster - 2) * bytes per cluster, and a size above 0, where offset and
-- size, and that product with a cluster and the buffer added, stay below 2 ^ 32. Then the first
-- byte that `fat32_read` copies lies past the end of its buffer, and whatever the number of rounds
-- it has no result: it takes the number of the cluster on the volume for its number in the file.
pub fat32_read-overrun :
    (disks : Disks) (fs : Fat32Fs) (fuel offset size : ℕ) (node : Fat32Node) (buf : List ℕ)
    → node.is_dir ≡ false
    → 2 ≤ node.first_cluster
    → node.first_cluster < fat32_eoc
    → offset < (node.first_cluster - 2) * bytes_per_cluster fs
    → (node.first_cluster - 2) * bytes_per_cluster fs + bytes_per_cluster fs + buffer_size < 2 ^ 32
    → offset < node.size
    → 0 < size
    → offset + size < 2 ^ 32
    → fat32_read_cluster disks fs node.first_cluster ≡ some (some buf)
    → (buffer_size ≤ position_in fs node.first_cluster offset)
      × (fat32_read (suc fuel) disks fs node offset size ≡ none)
unfolding fat32_read
fat32_read-overrun disks fs fuel offset size node buf file le chain before low inside some_bytes
      small readable =
    let here : leb node.size offset ≡ false = ground arith in
    let at = position-third fs node.first_cluster le (omega arith) in
    let past : buffer_size ≤ position_in fs node.first_cluster offset = omega (arith, at) in
    (
      past,
      rw (file, here)
          (bind-none _ (
            read_file_from-overrun disks fs fuel node.first_cluster offset
              (if ltb node.size ((offset + size) % 2 ^ 32) then node.size - offset else size) buf
              chain (omega (arith, at)) (omega (arith, at)) left readable)),
    )
  where
    left : 0 < (if ltb node.size ((offset + size) % 2 ^ 32) then node.size - offset else size)
    left = ground arith
