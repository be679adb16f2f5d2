-- ===== src/Fs/Fat32/Tests.antt =====
-- Runs of fat32.cpp, and its theorems on a small volume.
use nemo_os.Base.{
  ℕ, zero, suc, ◌+◌, ◌≤◌, ◌<◌, ◌≡◌, refl, true, false, none, some, List, [], ◌∷◌, ◌++◌, arith, ◌==◌,
  if◌then◌else◌, get_elem?, get_or, replicate,
}
use nemo_os.Libk.Text.{text}
use nemo_os.Fs.Fat32.{
  buffer_size, Disks, Fat32Fs, Fat32Node, byte_at, fat32_read_sector, fat32_read,
  fat32_read_cluster, fat32_next_cluster, read_cluster_from, cluster_to_lba,
}
use nemo_os.Fs.Fat32.Directory.{entry_name, fat32_finddir, fat32_readdir}
use nemo_os.Fs.Fat32.Directory.Entries.{
  Listing, end_of_chain, more, live, first_named, node_for, fat32_finddir-first,
}
use nemo_os.Fs.Fat32.Directory.Numbers.{listed, fat32_readdir-numbered}
use nemo_os.Fs.Fat32.Directory.ShortName.{IsPlain, stored, entry_name-stored}
use nemo_os.Fs.Fat32.Read.{position_in, fat32_read-overrun}

-- A volume with one sector per cluster. Sector 1 is the file allocation table, which ends every
-- chain, and sector 2, cluster 2, is the root directory with the file FOO.TXT of 5 bytes in
-- cluster 3.
abbrev foo_entry : List ℕ
foo_entry =
    b'F'
    ∷ b'O'
    ∷ b'O'
    ∷ b' '
    ∷ b' '
    ∷ b' '
    ∷ b' '
    ∷ b' '
    ∷ b'T'
    ∷ b'X'
    ∷ b'T'
    ∷ 0x20
    ∷ (replicate 14 0 ++ (3 ∷ 0 ∷ 5 ∷ 0 ∷ 0 ∷ 0 ∷ []))

abbrev directory : List ℕ
directory = foo_entry ++ replicate 480 0

abbrev disks : Disks
disks dev lba =
    if lba == 1
    then some (replicate 512 255)
    else if lba == 2
    then some directory
    else some (replicate 512 0)

abbrev volume : Fat32Fs
volume = record {
  ata_dev = 0;
  partition_start = 0;
  bytes_per_sector = 512;
  sectors_per_cluster = 1;
  reserved_sectors = 1;
  fat_count = 1;
  sectors_per_fat = 1;
  root_cluster = 2;
  data_start = 2;
}

abbrev root : Fat32Node
root = record {
  name = b'/' ∷ [];
  flags = 2;
  parent = 0;
  size = 0;
  inode = 0;
  first_cluster = 2;
  is_dir = true;
}

abbrev foo_txt : List ℕ
foo_txt = b'F' ∷ b'O' ∷ b'O' ∷ b'.' ∷ b'T' ∷ b'X' ∷ b'T' ∷ []

root-Listing : Listing disks volume 1 2 (live 16 0 directory ++ [])
unfolding fat32_read_cluster read_cluster_from fat32_read_sector cluster_to_lba fat32_next_cluster
root-Listing =
    more 0 2 0x0FFFFFFF directory [] (omega arith) refl refl (end_of_chain 0x0FFFFFFF (omega arith))

fat32_finddir-first_example :
    fat32_finddir 2 disks volume root 0x100 0x200 foo_txt
    ≡ some (node_for 0x100 0x200 (first_named foo_txt (live 16 0 directory ++ [])))
fat32_finddir-first_example =
    fat32_finddir-first disks volume 2 1 0x100 0x200 root foo_txt (live 16 0 directory ++ []) refl
      root-Listing (omega arith)

fat32_readdir-numbered_example :
    fat32_readdir 2 disks volume root 0 ≡ some (listed (get_elem? (live 16 0 directory ++ []) 0))
fat32_readdir-numbered_example =
    fat32_readdir-numbered disks volume 2 1 0 root (live 16 0 directory ++ []) refl root-Listing
      (omega arith)

foo-IsPlain : IsPlain (b'F' ∷ b'O' ∷ b'O' ∷ [])
foo-IsPlain zero lt = (omega arith, omega arith)
foo-IsPlain (suc zero) lt = (omega arith, omega arith)
foo-IsPlain (suc (suc zero)) lt = (omega arith, omega arith)
foo-IsPlain (suc (suc (suc i))) lt = absurd (omega arith)

txt-IsPlain : IsPlain (b'T' ∷ b'X' ∷ b'T' ∷ [])
txt-IsPlain zero lt = (omega arith, omega arith)
txt-IsPlain (suc zero) lt = (omega arith, omega arith)
txt-IsPlain (suc (suc zero)) lt = (omega arith, omega arith)
txt-IsPlain (suc (suc (suc i))) lt = absurd (omega arith)

-- Eleven equations, by their numbers.
below_eleven :
    (P : ℕ → Type 0)
    → P 0
    → P 1
    → P 2
    → P 3
    → P 4
    → P 5
    → P 6
    → P 7
    → P 8
    → P 9
    → P 10
    → (i : ℕ) → i < 11
    → P i
below_eleven P a b c d e f g h j k l zero lt = a
below_eleven P a b c d e f g h j k l (suc zero) lt = b
below_eleven P a b c d e f g h j k l (suc (suc zero)) lt = c
below_eleven P a b c d e f g h j k l (suc (suc (suc zero))) lt = d
below_eleven P a b c d e f g h j k l (suc (suc (suc (suc zero)))) lt = e
below_eleven P a b c d e f g h j k l (suc (suc (suc (suc (suc zero))))) lt = f
below_eleven P a b c d e f g h j k l (suc (suc (suc (suc (suc (suc zero)))))) lt = g
below_eleven P a b c d e f g h j k l (suc (suc (suc (suc (suc (suc (suc zero))))))) lt = h
below_eleven P a b c d e f g h j k l (suc (suc (suc (suc (suc (suc (suc (suc zero)))))))) lt = j
below_eleven P a b c d e f g h j k l (suc (suc (suc (suc (suc (suc (suc (suc (suc zero))))))))) lt =
    k
below_eleven P a b c d e f g h j k l
      (suc (suc (suc (suc (suc (suc (suc (suc (suc (suc zero)))))))))) lt =
    l
below_eleven P a b c d e f g h j k l
      (suc (suc (suc (suc (suc (suc (suc (suc (suc (suc (suc i))))))))))) lt =
    absurd (omega arith)

entry_name-stored_example : text (entry_name directory 0) ≡ foo_txt
entry_name-stored_example =
    entry_name-stored directory (b'F' ∷ b'O' ∷ b'O' ∷ []) (b'T' ∷ b'X' ∷ b'T' ∷ []) 0 foo-IsPlain
      txt-IsPlain (omega arith) (omega arith) refl bytes
  where
    bytes :
        (i : ℕ)
        → i < 11
        → byte_at directory (0 + i)
          ≡ get_or (stored (b'F' ∷ b'O' ∷ b'O' ∷ []) (b'T' ∷ b'X' ∷ b'T' ∷ [])) i 0
    bytes = below_eleven _ refl refl refl refl refl refl refl refl refl refl refl

-- The file FOO.TXT.
abbrev foo : Fat32Node
foo = record {
  name = foo_txt;
  flags = 1;
  parent = 0x100;
  size = 5;
  inode = 0;
  first_cluster = 3;
  is_dir = false;
}

fat32_read-overrun_example :
    (buffer_size ≤ position_in volume 3 0) × (fat32_read 1 disks volume foo 0 5 ≡ none)
unfolding fat32_read_cluster read_cluster_from fat32_read_sector cluster_to_lba
fat32_read-overrun_example =
    fat32_read-overrun disks volume 0 0 5 foo (replicate 512 0) refl (omega arith) (omega arith)
      (omega arith) (omega arith) (omega arith) (omega arith) (omega arith) readable
  where
    readable : fat32_read_cluster disks volume 3 ≡ some (some (replicate 512 0))
    readable = refl
