-- ===== src/Fs/Ramfs/Create.antt =====
-- src/fs/ramfs.cpp: how files and directories are made, and the nodes as path resolution sees
-- them.
use nemo_os.Base.{ℕ, ◌||◌, not, Option, none, some, List, [], ◌∷◌, ◌==◌, if◌then◌else◌}
use nemo_os.Libk.Text.{strcpy}
use nemo_os.Fs.Vfs.{Nodes, Vfs, dot, vfs_resolve}
use nemo_os.Fs.Ramfs.{
  Handler, RamfsNode, Ramfs, fs_file, fs_dir, is_dir, put_node, alloc_node, ramfs_finddir,
}

-- The fields of the root, once it has its name.
unfoldable pub root_of : ℕ → List ℕ → RamfsNode → RamfsNode
root_of n name x = record x {
  vnode = record {
    name = name;
    flags = fs_dir;
    size = 0;
    inode = 0;
    impl = 0;
    parent = n;
    destroy = some Handler.destroy;
    read = none;
    write = none;
    readdir = some Handler.readdir;
    finddir = some Handler.finddir;
  };
  next_sibling = 0;
  first_child = 0;
  parent = n;
}

-- The new node, 0 for none; `none` is a name that overruns the array, here and below.
unfoldable pub ramfs_create_root : ℕ → Ramfs → Option (ℕ × Ramfs)
ramfs_create_root fresh r =
    let (n, s) = alloc_node fresh r in
    let t = record s { root_node = n } in
    let x = s.node n in
    if n == 0 then some (0, t) else elim (strcpy x.vnode.name (b'/' ∷ [])) [
      | none ↦ none
      | some name ↦ some (n, put_node n (root_of n name x) t)
    ]

unfoldable pub file_of : ℕ → ℕ → List ℕ → RamfsNode → RamfsNode
file_of n parent name x = record x {
  vnode = record {
    name = name;
    flags = fs_file;
    size = 0;
    inode = n;
    impl = 0;
    parent = parent;
    destroy = some Handler.destroy;
    read = some Handler.read;
    write = some Handler.write;
    readdir = none;
    finddir = none;
  };
  next_sibling = 0;
  first_child = 0;
  parent = parent;
}

unfoldable pub dir_of : ℕ → ℕ → List ℕ → RamfsNode → RamfsNode
dir_of n parent name x = record x {
  vnode = record {
    name = name;
    flags = fs_dir;
    size = 0;
    inode = n;
    impl = 0;
    parent = parent;
    destroy = some Handler.destroy;
    read = none;
    write = none;
    readdir = some Handler.readdir;
    finddir = some Handler.finddir;
  };
  next_sibling = 0;
  first_child = 0;
  parent = parent;
}

-- The end of `ramfs_create_file` and `ramfs_create_dir`: a node becomes the first child.
unfoldable pub link_child : ℕ → ℕ → Ramfs → Ramfs
link_child n parent r =
    let s = put_node n (record (r.node n) { next_sibling = (r.node parent).first_child }) r in
    put_node parent (record (s.node parent) { first_child = n }) s

unfoldable pub ramfs_create_file : ℕ → ℕ → List ℕ → Ramfs → Option (ℕ × Ramfs)
ramfs_create_file fresh parent name r =
    let (n, s) = alloc_node fresh r in
    let x = s.node n in
    if (parent == 0) || not (is_dir (r.node parent).vnode.flags)
    then some (0, r)
    else if n == 0
    then some (0, s)
    else elim (strcpy x.vnode.name name) [
      | none ↦ none
      | some copied ↦ some (n, link_child n parent (put_node n (file_of n parent copied x) s))
    ]

unfoldable pub ramfs_create_dir : ℕ → ℕ → List ℕ → Ramfs → Option (ℕ × Ramfs)
ramfs_create_dir fresh parent name r =
    let (n, s) = alloc_node fresh r in
    let x = s.node n in
    if (parent == 0) || not (is_dir (r.node parent).vnode.flags)
    then some (0, r)
    else if n == 0
    then some (0, s)
    else elim (strcpy x.vnode.name name) [
      | none ↦ none
      | some copied ↦ some (n, link_child n parent (put_node n (dir_of n parent copied x) s))
    ]

-- The nodes as path resolution sees them.
unfoldable pub nodes_of : Ramfs → Nodes
nodes_of r = record {
  parent = λ n. (r.node n).vnode.parent;
  finddir = λ n. elim (r.node n).vnode.finddir [
    | none ↦ none
    | some h ↦ some (λ name. elim (ramfs_finddir n name r) [ none ↦ 0 | some c ↦ c ])
  ];
}

unfoldable pub ramfs_touch : ℕ → List ℕ → Vfs → Ramfs → Option (ℕ × Ramfs)
ramfs_touch fresh name v r = elim (vfs_resolve (nodes_of r) (some dot) v) [
  | none ↦ none
  | some cwd ↦ if cwd == 0 then some (0, r) else ramfs_create_file fresh cwd name r
]

unfoldable pub ramfs_mkdir : ℕ → List ℕ → Vfs → Ramfs → Option (ℕ × Ramfs)
ramfs_mkdir fresh name v r = elim (vfs_resolve (nodes_of r) (some dot) v) [
  | none ↦ none
  | some cwd ↦ if cwd == 0 then some (0, r) else ramfs_create_dir fresh cwd name r
]
