-- ===== src/Fs/Fat32/Directory.antt =====
-- src/fs/fat32.cpp: directory entries, `fat32_finddir` and `fat32_readdir`.
pub mod Entries
pub mod Numbers
pub mod ShortName
use nemo_os.Base.{
  ℕ, zero, suc, ◌+◌, ◌-◌, ◌*◌, ◌/◌, ◌%◌, ◌^◌, ◌≤◌, ◌<◌, ◌≡◌, ◌≢◌, ◌↔◌, ◌⊎◌, refl, sym, ap, ◌∙◌,
  subst, inl, inr, Bool, true, false, ◌&&◌, ◌||◌, not, Option, none, some, List, [], ◌∷◌, ◌++◌, map,
  arith, ltb, leb, ◌==◌, if◌then◌else◌, Bool-cases, Option-cases, ==_iff, length, get_elem?, set,
  get_or, take, drop, replicate, length-append, length-set, length-take, take-take, length-drop,
  length-replicate, get_elem?-set_self, get_elem?-set_ne, get_or-set, get_or-replicate, ltb→lt,
  lt→ltb, leb→le, tests, ◌>>=◌,
}
use nemo_os.Libk.Text.{text}
use nemo_os.Fs.Vfs.{same_text}
use nemo_os.Fs.Ramfs.{fs_file, fs_dir}
use nemo_os.Fs.Fat32.{
  Disks, Fat32Fs, Fat32Node, fat32_eoc, byte_at, u16_at, u32_at, bytes_per_cluster,
  fat32_read_cluster, fat32_next_cluster,
}

-- The directory entry at `off`.
abbrev pub attr_of : List ℕ → ℕ → ℕ
attr_of buf off = byte_at buf (off + 11)

-- `attr & ATTR_DIRECTORY`
abbrev pub is_directory : List ℕ → ℕ → Bool
is_directory buf off = attr_of buf off / 16 % 2 == 1

-- The first entry of a directory that is not used, and the entries that are passed over.
abbrev pub is_end : List ℕ → ℕ → Bool
is_end buf off = byte_at buf off == 0

abbrev pub is_skipped : List ℕ → ℕ → Bool
is_skipped buf off = (byte_at buf off == 0xE5) || (attr_of buf off == 0x0F)

-- The bytes from `j` up to a space, `k` at most.
unfoldable pub until_space : ℕ → ℕ → List ℕ → List ℕ
until_space zero j buf = []
until_space (suc k) j buf =
    let rest = until_space k (j + 1) buf in
    if byte_at buf j == b' ' then [] else byte_at buf j ∷ rest

-- `entry_name`, with the NUL.
unfoldable pub entry_name : List ℕ → ℕ → List ℕ
entry_name buf off =
    let extension =
      if is_directory buf off || (byte_at buf (off + 8) == b' ')
      then []
      else b'.' ∷ until_space 3 (off + 8) buf in
    until_space 8 off buf ++ (extension ++ (0 ∷ []))

-- The node of an entry. The array `name` of a node is longer than `entry_name`.
unfoldable pub child_of : ℕ → List ℕ → ℕ → Fat32Node
child_of parent buf off = record {
  name = text (entry_name buf off);
  flags = if is_directory buf off then fs_dir else fs_file;
  parent = parent;
  size = u32_at buf (off + 28);
  inode = off;
  first_cluster = u16_at buf (off + 20) * 2 ^ 16 + u16_at buf (off + 26);
  is_dir = is_directory buf off;
}

-- The inner loop of `fat32_finddir`, with `k` rounds left: the offset of the entry, if any.
unfoldable pub find_in : ℕ → ℕ → List ℕ → List ℕ → Option ℕ
find_in zero off buf name = none
find_in (suc k) off buf name =
    let rest = find_in k (off + 32) buf name in
    if is_end buf off
    then none
    else if is_skipped buf off
    then rest
    else if same_text (entry_name buf off) name
    then some off
    else rest

-- The outer loop; `child` is the address that `kmalloc` returns.
unfoldable pub finddir_from : ℕ → Disks → Fat32Fs → ℕ → ℕ → ℕ → List ℕ → Option (Option Fat32Node)
finddir_from zero disks fs cluster dir child name = none
finddir_from (suc fuel) disks fs cluster dir child name =
    let further = (do
      next ← fat32_next_cluster disks fs cluster
      finddir_from fuel disks fs next dir child name) in
    let here = (do
      c ← fat32_read_cluster disks fs cluster
      elim c [
        | none ↦ some none
        | some buf ↦ elim (find_in (bytes_per_cluster fs / 32) 0 buf name) [
          | none ↦ further
          | some off ↦ some (if child == 0 then none else some (child_of dir buf off))
        ]
      ]) in
    if leb fat32_eoc cluster then some none else here

unfoldable pub fat32_finddir :
    ℕ → Disks → Fat32Fs → Fat32Node → ℕ → ℕ → List ℕ → Option (Option Fat32Node)
fat32_finddir fuel disks fs node dir child name =
    if node.is_dir then finddir_from fuel disks fs node.first_cluster dir child name else some none

-- The inner loop of `fat32_readdir`, with `k` rounds left and `count` entries passed: the entry
-- with number `index`, or the new count.
unfoldable pub count_in : ℕ → ℕ → List ℕ → ℕ → ℕ → Option ℕ × ℕ
count_in zero off buf index count = (none, count)
count_in (suc k) off buf index count =
    let skip = count_in k (off + 32) buf index count in
    let next = count_in k (off + 32) buf index (count + 1) in
    if is_end buf off
    then (none, count)
    else if is_skipped buf off
    then skip
    else if count == index
    then (some off, count)
    else next

-- What `fat32_readdir` writes to the node that the caller passes: its name, and the fields `flags`
-- to `destroy`. The others stay as they are.
pub record DirEntry : Type 0 where
  pub name : List ℕ
  pub flags : ℕ
  pub size : ℕ
  pub inode : ℕ
  pub impl : ℕ
  pub read : ℕ
  pub write : ℕ
  pub readdir : ℕ
  pub finddir : ℕ
  pub destroy : ℕ

unfoldable pub dir_entry_of : List ℕ → ℕ → DirEntry
dir_entry_of buf off = record {
  name = text (entry_name buf off);
  flags = if is_directory buf off then fs_dir else fs_file;
  size = u32_at buf (off + 28);
  inode = off;
  impl = 0;
  read = 0;
  write = 0;
  readdir = 0;
  finddir = 0;
  destroy = 0;
}

-- The outer loop of `fat32_readdir`.
unfoldable pub readdir_from : ℕ → Disks → Fat32Fs → ℕ → ℕ → ℕ → Option (Option DirEntry)
readdir_from zero disks fs cluster index count = none
readdir_from (suc fuel) disks fs cluster index count =
    let here = (do
      c ← fat32_read_cluster disks fs cluster
      elim c [
        | none ↦ some none
        | some buf ↦
            let (found, passed) = count_in (bytes_per_cluster fs / 32) 0 buf index count in
            elim found [
              | some off ↦ some (some (dir_entry_of buf off))
              | none ↦ do
                next ← fat32_next_cluster disks fs cluster
                readdir_from fuel disks fs next index passed
            ]
      ]) in
    if leb fat32_eoc cluster then some none else here

-- `none` inside is the result -1.
unfoldable pub fat32_readdir : ℕ → Disks → Fat32Fs → Fat32Node → ℕ → Option (Option DirEntry)
fat32_readdir fuel disks fs node index =
    if node.is_dir then readdir_from fuel disks fs node.first_cluster index 0 else some none
