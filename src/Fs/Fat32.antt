-- ===== src/Fs/Fat32.antt =====
-- src/fs/fat32.cpp: reading a FAT32 volume. A device answers a sector with its bytes, or with an
-- error. The result `none` is a read outside a buffer, a division by zero, or a loop that has not
-- ended in the given number of rounds.
pub mod Directory
pub mod Read
pub mod Tests
pub mod Mount
use nemo_os.Base.{
  ℕ, zero, suc, ◌+◌, ◌-◌, ◌*◌, ◌/◌, ◌%◌, ◌^◌, Bool, ◌&&◌, ◌||◌, Option, none, some, List, [], ◌++◌,
  ltb, leb, ◌==◌, if◌then◌else◌, length, get_or, take, drop, ◌>>=◌,
}
use nemo_os.Base.Int.{ℤ, pos, negsuc}

-- `ata_read_sector`, by device and sector; `none` is its error.
abbrev pub Disks : Type 0
Disks = ℕ → ℕ → Option (List ℕ)

abbrev pub sector_size : ℕ
sector_size = 512

-- `cluster_buf`
abbrev pub buffer_size : ℕ
buffer_size = sector_size * 8

abbrev pub fat32_eoc : ℕ
fat32_eoc = 0x0FFFFFF8

abbrev pub byte_at : List ℕ → ℕ → ℕ
byte_at buf i = get_or buf i 0

abbrev pub u16_at : List ℕ → ℕ → ℕ
u16_at buf i = byte_at buf i + 256 * byte_at buf (i + 1)

abbrev pub u32_at : List ℕ → ℕ → ℕ
u32_at buf i = u16_at buf i + 65536 * u16_at buf (i + 2)

pub record Fat32Fs : Type 0 where
  pub ata_dev : ℕ
  pub partition_start : ℕ
  pub bytes_per_sector : ℕ
  pub sectors_per_cluster : ℕ
  pub reserved_sectors : ℕ
  pub fat_count : ℕ
  pub sectors_per_fat : ℕ
  pub root_cluster : ℕ
  pub data_start : ℕ

abbrev pub bytes_per_cluster : Fat32Fs → ℕ
bytes_per_cluster fs = fs.sectors_per_cluster * sector_size

unfoldable pub fat32_read_sector : Disks → Fat32Fs → ℕ → Option (List ℕ)
fat32_read_sector disks fs lba = disks fs.ata_dev ((fs.partition_start + lba) % 2 ^ 32)

unfoldable pub fat32_next_cluster : Disks → Fat32Fs → ℕ → Option ℕ
fat32_next_cluster disks fs cluster =
    let fat_offset = cluster * 4 % 2 ^ 32 in
    let fat_sector = (fs.reserved_sectors + fat_offset / fs.bytes_per_sector) % 2 ^ 32 in
    let fat_byte = fat_offset % fs.bytes_per_sector in
    if fs.bytes_per_sector == 0 then none else elim (fat32_read_sector disks fs fat_sector) [
      | none ↦ some fat32_eoc
      | some buf ↦
          if leb (fat_byte + 4) sector_size then some (u32_at buf fat_byte % 2 ^ 28) else none
    ]

-- The first sector of a cluster.
unfoldable pub cluster_to_lba : Fat32Fs → ℕ → ℕ
cluster_to_lba fs cluster =
    (fs.data_start + (2 ^ 32 + cluster - 2) * fs.sectors_per_cluster) % 2 ^ 32

-- The bytes of one sector in front of those of the rest.
abbrev pub in_front : List ℕ → Option (Option (List ℕ)) → Option (Option (List ℕ))
in_front bytes none = none
in_front bytes (some none) = some none
in_front bytes (some (some rest)) = some (some (bytes ++ rest))

-- The loop of `fat32_read_cluster`, with `k` rounds left; `some none` is its error.
unfoldable pub read_cluster_from : ℕ → ℕ → ℕ → Disks → Fat32Fs → Option (Option (List ℕ))
read_cluster_from zero i sector disks fs = some (some [])
read_cluster_from (suc k) i sector disks fs =
    let rest = read_cluster_from k (i + 1) sector disks fs in
    if ltb buffer_size (i * sector_size + sector_size)
    then none
    else elim (fat32_read_sector disks fs ((sector + i) % 2 ^ 32)) [
      | none ↦ some none
      | some bytes ↦ in_front bytes rest
    ]

unfoldable pub fat32_read_cluster : Disks → Fat32Fs → ℕ → Option (Option (List ℕ))
fat32_read_cluster disks fs cluster =
    read_cluster_from fs.sectors_per_cluster 0 (cluster_to_lba fs cluster) disks fs

-- The part of a `fat32_node` that is its own; a file has `read`, a directory `readdir` and
-- `finddir`.
pub record Fat32Node : Type 0 where
  pub name : List ℕ
  pub flags : ℕ
  pub parent : ℕ
  pub size : ℕ
  pub inode : ℕ
  pub first_cluster : ℕ
  pub is_dir : Bool

-- The copy from the cluster's buffer in `fat32_read`: `n` bytes from `off`.
unfoldable pub copy_out : ℕ → ℕ → List ℕ → Option (List ℕ)
copy_out n off buf =
    if ltb buffer_size (off + n) && ltb 0 n then none else some (take n (drop off buf))

-- The loop of `fat32_read`: the bytes it stores.
unfoldable pub read_file_from : ℕ → Disks → Fat32Fs → ℕ → ℕ → ℕ → Option (List ℕ)
read_file_from zero disks fs cluster offset left = none
read_file_from (suc fuel) disks fs cluster offset left =
    let per = bytes_per_cluster fs in
    let start = (2 ^ 32 + cluster - 2) * per % 2 ^ 32 in
    let cluster_off = (2 ^ 32 + offset - start) % 2 ^ 32 in
    let room = (2 ^ 32 + per - cluster_off) % 2 ^ 32 in
    let n = if ltb left room then left else room in
    let skip = (do
      next ← fat32_next_cluster disks fs cluster
      read_file_from fuel disks fs next offset left) in
    let here = (do
      c ← fat32_read_cluster disks fs cluster
      elim c [
        | none ↦ some []
        | some buf ↦ do
          bytes ← copy_out n cluster_off buf
          next ← fat32_next_cluster disks fs cluster
          rest ← read_file_from fuel disks fs next ((offset + n) % 2 ^ 32) (left - n)
          some (bytes ++ rest)
      ]) in
    if leb fat32_eoc cluster || (left == 0)
    then some []
    else if ltb offset ((start + per) % 2 ^ 32)
    then here
    else skip

-- The bytes stored and the result.
unfoldable pub fat32_read : ℕ → Disks → Fat32Fs → Fat32Node → ℕ → ℕ → Option (List ℕ × ℤ)
fat32_read fuel disks fs node offset size =
    let left = if ltb node.size ((offset + size) % 2 ^ 32) then node.size - offset else size in
    if node.is_dir
    then some ([], negsuc 0)
    else if leb node.size offset
    then some ([], pos 0)
    else do
      bytes ← read_file_from fuel disks fs node.first_cluster offset left
      some (bytes, pos (length bytes))

pub fat32_write : ℤ
fat32_write = negsuc 0
