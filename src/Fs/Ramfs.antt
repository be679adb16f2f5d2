-- ===== src/Fs/Ramfs.antt =====
-- src/fs/ramfs.cpp and the node of src/fs/vfs.hpp: files and directories in memory. A node is
-- named by its address, and 0 is `nullptr`; the address that `kmalloc` returns is an argument of
-- what calls it.
pub mod Create
pub mod Data
pub mod Children
mod Tests
use nemo_os.Base.{
  ℕ, zero, suc, ◌+◌, ◌-◌, ◌/◌, ◌%◌, ◌^◌, Bool, ◌||◌, not, Option, none, some, List, [], ◌∷◌, ltb,
  leb, ◌==◌, if◌then◌else◌, set, get_or,
}
use nemo_os.Base.Int.{ℤ, pos, negsuc}
use nemo_os.Libk.Text.{strcpy}
use nemo_os.Fs.Vfs.{same_text}

-- What a function pointer of a node can point to.
pub data Handler : Type 0 where
  destroy read write readdir finddir : Handler

pub record VfsNode : Type 0 where
  pub name : List ℕ
  pub flags : ℕ
  pub size : ℕ
  pub inode : ℕ
  pub impl : ℕ
  pub parent : ℕ
  pub destroy : Option Handler
  pub read : Option Handler
  pub write : Option Handler
  pub readdir : Option Handler
  pub finddir : Option Handler

-- `contents` is the array `data`.
pub record RamfsNode : Type 0 where
  pub vnode : VfsNode
  pub next_sibling : ℕ
  pub first_child : ℕ
  pub parent : ℕ
  pub contents : List ℕ

-- The static variables, and the nodes at their addresses.
pub record Ramfs : Type 0 where
  pub node : ℕ → RamfsNode
  pub node_pool : List ℕ
  pub pool_count : ℕ
  pub root_node : ℕ

abbrev pub max_data : ℕ
max_data = 256

abbrev pub max_nodes : ℕ
max_nodes = 128

-- FS_FILE and FS_DIR, and the tests of these bits.
abbrev pub fs_file : ℕ
fs_file = 1

abbrev pub fs_dir : ℕ
fs_dir = 2

abbrev pub is_file : ℕ → Bool
is_file flags = flags % 2 == 1

abbrev pub is_dir : ℕ → Bool
is_dir flags = flags / 2 % 2 == 1

-- A write through a pointer to a node.
abbrev pub put_node : ℕ → RamfsNode → Ramfs → Ramfs
put_node n x r = record r { node = λ a. if a == n then x else r.node a }

-- `fresh` is what `kmalloc` returns.
unfoldable pub alloc_node : ℕ → Ramfs → ℕ × Ramfs
alloc_node fresh r = if leb max_nodes r.pool_count || (fresh == 0) then (0, r) else (
  fresh,
  record r { node_pool = set r.node_pool r.pool_count fresh; pool_count = r.pool_count + 1 },
)

-- The loop of `ramfs_read`: the bytes from `offset` on.
unfoldable pub read_from : ℕ → ℕ → List ℕ → List ℕ
read_from zero offset contents = []
read_from (suc rounds) offset contents =
    get_or contents offset 0 ∷ read_from rounds (offset + 1) contents

-- The return value, and the bytes that reach the buffer.
unfoldable pub ramfs_read : ℕ → ℕ → ℕ → Ramfs → ℤ × List ℕ
ramfs_read node offset size r =
    let x = r.node node in
    let remain = x.vnode.size - offset in
    let n = if ltb remain size then remain else size in
    if (node == 0) || not (is_file x.vnode.flags)
    then (negsuc 0, [])
    else if leb x.vnode.size offset
    then (pos 0, [])
    else (pos n, read_from n offset x.contents)

-- The loop of `ramfs_write` from byte `i` of the buffer; `none` is a write past the array.
unfoldable pub write_from : ℕ → ℕ → ℕ → List ℕ → List ℕ → Option (List ℕ)
write_from zero i offset buf contents = some contents
write_from (suc rounds) i offset buf contents =
    let at = (offset + i) % 2 ^ 32 in
    let rest = write_from rounds (i + 1) offset buf (set contents at (get_or buf i 0)) in
    if ltb at max_data then rest else none

-- The number of bytes that `ramfs_write` writes; the difference wraps around.
unfoldable pub write_size : ℕ → ℕ → ℕ
write_size offset size =
    if ltb max_data ((offset + size) % 2 ^ 32) then (max_data + 2 ^ 32 - offset) % 2 ^ 32 else size

-- The return value is the number as an `int`, which a count below 2^31 is.
unfoldable pub ramfs_write : ℕ → ℕ → ℕ → List ℕ → Ramfs → Option (ℤ × Ramfs)
ramfs_write node offset size buf r =
    let x = r.node node in
    let n = write_size offset size in
    let end = (offset + n) % 2 ^ 32 in
    let bigger = if ltb x.vnode.size end then end else x.vnode.size in
    if (node == 0) || not (is_file x.vnode.flags)
    then some (negsuc 0, r)
    else elim (write_from n 0 offset buf x.contents) [
      | none ↦ none
      | some contents ↦ some (
        pos n,
        put_node node (record x { vnode = record x.vnode { size = bigger }; contents = contents })
            r,
      )
    ]

-- The loop of `ramfs_readdir`: the child at an index, 0 if there is none. The first argument is
-- fuel, one for each child; `none` is fuel that ran out.
unfoldable pub readdir_from : ℕ → Ramfs → ℕ → ℕ → ℕ → Option ℕ
readdir_from zero r cur i index = if cur == 0 then some 0 else none
readdir_from (suc fuel) r cur i index =
    let rest = readdir_from fuel r (r.node cur).next_sibling (i + 1) index in
    if cur == 0 then some 0 else if i == index then some cur else rest

-- What it stores in `child`; `none` is a name that overruns the array.
unfoldable pub entry_of : ℕ → VfsNode → VfsNode → Option VfsNode
entry_of cur x child = elim (strcpy child.name x.name) [
  | none ↦ none
  | some name ↦ some (record child {
    name = name;
    flags = x.flags;
    size = x.size;
    inode = cur;
    impl = x.impl;
    read = none;
    write = none;
    readdir = none;
    finddir = none;
    destroy = none;
  })
]

unfoldable pub ramfs_readdir : ℕ → ℕ → VfsNode → Ramfs → Option (ℤ × VfsNode)
ramfs_readdir node index child r =
    let x = r.node node in
    if (node == 0) || not (is_dir x.vnode.flags)
    then some (negsuc 0, child)
    else elim (readdir_from r.pool_count r x.first_child 0 index) [
      | none ↦ none
      | some zero ↦ some (negsuc 0, child)
      | some (suc cur) ↦ elim (entry_of (suc cur) (r.node (suc cur)).vnode child) [
        | none ↦ none
        | some entry ↦ some (pos 0, entry)
      ]
    ]

-- The loop of `ramfs_finddir`, with fuel as above.
unfoldable pub finddir_from : ℕ → Ramfs → ℕ → List ℕ → Option ℕ
finddir_from zero r cur name = if cur == 0 then some 0 else none
finddir_from (suc fuel) r cur name =
    let x = r.node cur in
    let rest = finddir_from fuel r x.next_sibling name in
    if cur == 0 then some 0 else if same_text x.vnode.name name then some cur else rest

unfoldable pub ramfs_finddir : ℕ → List ℕ → Ramfs → Option ℕ
ramfs_finddir node name r =
    let x = r.node node in
    if (node == 0) || not (is_dir x.vnode.flags)
    then some 0
    else finddir_from r.pool_count r x.first_child name
