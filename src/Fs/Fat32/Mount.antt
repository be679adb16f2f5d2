-- ===== src/Fs/Fat32/Mount.antt =====
-- src/fs/fat32.cpp: `fat32_mount`.
use nemo_os.Base.{
  ℕ, ◌+◌, ◌*◌, ◌%◌, ◌^◌, true, ◌&&◌, ◌||◌, not, Option, none, some, List, [], ◌∷◌, leb, ◌==◌,
  if◌then◌else◌,
}
use nemo_os.Base.Int.{ℤ, pos, negsuc}
use nemo_os.Fs.Ramfs.{fs_dir}
use nemo_os.Fs.Fat32.{Disks, Fat32Fs, Fat32Node, byte_at, u16_at, u32_at}

-- The fields of the master boot record, and its partition `i`.
abbrev pub signature_of : List ℕ → ℕ
signature_of mbr = u16_at mbr 510

abbrev pub type_of : List ℕ → ℕ → ℕ
type_of mbr i = byte_at mbr (446 + 16 * i + 4)

abbrev pub lba_start_of : List ℕ → ℕ → ℕ
lba_start_of mbr i = u32_at mbr (446 + 16 * i + 8)

-- The volume from its first sector.
unfoldable pub volume_of : ℕ → ℕ → List ℕ → Fat32Fs
volume_of ata_dev partition_start bpb = record {
  ata_dev = ata_dev;
  partition_start = partition_start;
  bytes_per_sector = u16_at bpb 11;
  sectors_per_cluster = byte_at bpb 13;
  reserved_sectors = u16_at bpb 14;
  fat_count = byte_at bpb 16;
  sectors_per_fat = u32_at bpb 36;
  root_cluster = u32_at bpb 44;
  data_start = (u16_at bpb 14 + byte_at bpb 16 * u32_at bpb 36) % 2 ^ 32;
}

-- The root's node, 0 being the address that `kmalloc` returns without memory.
unfoldable pub fat32_get_root_node : Fat32Fs → ℕ → Option Fat32Node
fat32_get_root_node fs root =
    if root == 0
    then none
    else some (record {
      name = b'/' ∷ [];
      flags = fs_dir;
      parent = 0;
      size = 0;
      inode = 0;
      first_cluster = fs.root_cluster;
      is_dir = true;
    })

-- `fs_at` and `root` are the addresses that `kmalloc` returns. The volume is kept even if the root
-- gets no memory.
unfoldable pub fat32_mount : Disks → ℕ → ℤ → ℤ → ℕ → ℕ → Option (Fat32Fs × Option Fat32Node)
fat32_mount disks device_count (negsuc d) partition fs_at root = none
fat32_mount disks device_count (pos d) (negsuc p) fs_at root = none
fat32_mount disks device_count (pos d) (pos p) fs_at root =
    if leb device_count d then none else elim (disks d 0) [
      | none ↦ none
      | some mbr ↦
          if not (signature_of mbr == 0xAA55) || leb 4 p
          then none
          else if not (type_of mbr p == 0x0B) && not (type_of mbr p == 0x0C)
          then none
          else if fs_at == 0
          then none
          else elim (disks d (lba_start_of mbr p)) [
            | none ↦ none
            | some bpb ↦
                let fs = volume_of d (lba_start_of mbr p) bpb in
                some (fs, fat32_get_root_node fs root)
          ]
    ]
