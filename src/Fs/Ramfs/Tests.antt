-- ===== src/Fs/Ramfs/Tests.antt =====
-- A small file system in memory, and the theorems on it.
use nemo_os.Base.{
  ℕ, zero, suc, ◌≡◌, refl, true, none, some, List, [], ◌∷◌, arith, ◌==◌, if◌then◌else◌, take,
  replicate,
}
use nemo_os.Base.Int.{pos}
use nemo_os.Libk.Text.{text}
use nemo_os.Fs.Vfs.{Vfs, no_mount, same_text}
use nemo_os.Fs.Vfs.Mount.{OnlyRoot}
use nemo_os.Fs.Ramfs.{Ramfs, RamfsNode, fs_file, fs_dir, ramfs_read, ramfs_write, ramfs_finddir}
use nemo_os.Fs.Ramfs.Create.{ramfs_create_file}
use nemo_os.Fs.Ramfs.Data.{write-read}
use nemo_os.Fs.Ramfs.Children.{Chain, Away, named, create_file-finddir}

abbrev blank : ℕ → RamfsNode
blank flags = record {
  vnode = record {
    name = replicate 128 0;
    flags = flags;
    size = 0;
    inode = 0;
    impl = 0;
    parent = 4096;
    destroy = none;
    read = none;
    write = none;
    readdir = none;
    finddir = none;
  };
  next_sibling = 0;
  first_child = 0;
  parent = 4096;
  contents = replicate 256 0;
}

-- A directory at 4096 and a file at 8192.
abbrev files : Ramfs
files = record {
  node = λ n. blank (if n == 4096 then fs_dir else fs_file);
  node_pool = 4096 ∷ 8192 ∷ replicate 126 0;
  pool_count = 2;
  root_node = 4096;
}

abbrev hello : List ℕ
hello = b'h' ∷ b'e' ∷ b'l' ∷ b'l' ∷ b'o' ∷ []

abbrev mounted : Vfs
mounted = record {
  mounts =
      record { path = b'/' ∷ replicate 255 0; root = 4096; used = true } ∷ replicate 15 no_mount;
  mount_count = 1;
}

write-read_example :
    (s : Ramfs) × (ramfs_write 8192 3 5 hello files ≡ some (pos 5, s))
    × (ramfs_read 8192 3 5 s ≡ (pos 5, take 5 hello))
write-read_example =
    write-read 8192 3 5 hello files (λ e. omega arith) refl refl (omega arith) (omega arith)

create_file-finddir_example :
    (s : Ramfs) × (ramfs_create_file 12288 4096 hello files ≡ some (12288, s))
    × ((q : List ℕ)
        → ramfs_finddir 4096 q s
          ≡ some (if same_text hello q then 12288 else named files.node q []))
unfolding Away Chain text
create_file-finddir_example =
    create_file-finddir 12288 4096 hello [] files (λ e. omega arith) refl (λ e. omega arith)
      (λ e. omega arith) tt (omega arith) (omega arith) refl (omega arith)

unused : (n : ℕ) → OnlyRoot (replicate n no_mount)
unfolding OnlyRoot no_mount
unused zero = tt
unused (suc n) = ((λ e. absurd (cc)), unused n)
