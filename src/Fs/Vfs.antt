-- ===== src/Fs/Vfs.antt =====
-- src/fs/vfs.cpp: the mount table, and paths. A node is named by its address, and 0 is `nullptr`.
-- A path is the list of the bytes from the pointer on, as in Libk.Text.
pub mod Walk
pub mod Mount
mod Tests
use nemo_os.Base.{
  ℕ, zero, suc, ◌+◌, ◌/◌, Bool, true, false, ◌&&◌, ◌||◌, not, Option, none, some, List, [], ◌∷◌,
  map, ltb, ◌==◌, if◌then◌else◌, length, set, get_or, drop,
}
use nemo_os.Base.Int.{ℤ, pos, negsuc}
use nemo_os.Libk.Text.{deref, next, strcmp, strcpy}

-- The fields of `vfs_node` that path resolution reads: the parent, and the function pointer
-- `finddir`, `none` if it is null. A lookup changes nothing, as in the file system in memory.
pub record Nodes : Type 0 where
  pub parent : ℕ → ℕ
  pub finddir : ℕ → Option (List ℕ → ℕ)

pub record VfsMount : Type 0 where
  pub path : List ℕ
  pub root : ℕ
  pub used : Bool

pub record Vfs : Type 0 where
  pub mounts : List VfsMount
  pub mount_count : ℕ

abbrev pub max_mounts : ℕ
max_mounts = 16

-- Read only beyond the array.
unfoldable pub no_mount : VfsMount
no_mount = record { path = []; root = 0; used = false }

abbrev pub slash : ℕ
slash = b'/'

-- The test `strcmp(…) == 0`.
abbrev pub is_zero : ℤ → Bool
is_zero (pos zero) = true
is_zero _ = false

abbrev pub same_text : List ℕ → List ℕ → Bool
same_text a b = is_zero (strcmp a b)

unfoldable pub release : VfsMount → VfsMount
release m = record m { used = false }

unfoldable pub vfs_init : Vfs → Vfs
vfs_init v = record v { mounts = map release v.mounts; mount_count = 0 }

-- The loop of `vfs_mount` from slot `i`; `none` is a path that overruns the slot's array.
unfoldable pub mount_from : ℕ → ℕ → List ℕ → ℕ → Vfs → Option (Vfs × ℤ)
mount_from zero i path root v = some (v, negsuc 0)
mount_from (suc rounds) i path root v =
    let rest = mount_from rounds (i + 1) path root v in
    let m = get_or v.mounts i no_mount in
    if m.used then rest else elim (strcpy m.path path) [
      | none ↦ none
      | some copied ↦ some (
        record v {
          mounts = set v.mounts i (record { path = copied; root = root; used = true });
          mount_count = v.mount_count + 1;
        },
        pos 0,
      )
    ]

-- `path` is `none` for a null pointer.
unfoldable pub vfs_mount : Option (List ℕ) → ℕ → Vfs → Option (Vfs × ℤ)
vfs_mount none root v = some (v, negsuc 0)
vfs_mount (some path) root v =
    if root == 0 then some (v, negsuc 0) else mount_from max_mounts 0 path root v

-- The loop of `vfs_get_root`.
unfoldable pub root_from : List VfsMount → ℕ
root_from [] = 0
root_from (m ∷ ms) =
    let rest = root_from ms in if m.used && same_text m.path (slash ∷ []) then m.root else rest

unfoldable pub vfs_get_root : Vfs → ℕ
vfs_get_root v = root_from v.mounts

-- The inner loop of `find_mount_root`: how far a mount's path and a path agree.
unfoldable pub common_from : ℕ → List ℕ → List ℕ → ℕ
common_from len [] path = len
common_from len (c ∷ m) path =
    let rest = common_from (len + 1) m (next path) in
    if not (c == 0) && not (deref path == 0) && (c == deref path) then rest else len

-- The test with which it takes a mount of length `len`, given the best length so far; `none` is -1.
unfoldable pub takes : List ℕ → List ℕ → ℕ → Option ℕ → Bool
takes m path len best =
    (get_or m len 0 == 0)
    && ((get_or path len 0 == slash) || (get_or path len 0 == 0))
    && elim best [ none ↦ true | some b ↦ ltb b len ]

-- The loop of `find_mount_root` over the mounts, with the best length and root so far.
unfoldable pub best_from : List VfsMount → List ℕ → Option ℕ → ℕ → Option ℕ × ℕ
best_from [] path best root = (best, root)
best_from (m ∷ ms) path best root =
    let len = common_from 0 m.path path in
    let better = m.used && takes m.path path len best in
    best_from ms path (if better then some len else best) (if better then m.root else root)

-- The node at which the path starts, and the rest of the path; 0 and the path if there is none.
unfoldable pub find_mount_root : List ℕ → Vfs → ℕ × List ℕ
find_mount_root path v =
    let (best, root) = best_from v.mounts path none 0 in
    if root == 0 then (0, path) else (root, elim best [ none ↦ path | some len ↦ drop len path ])

-- `while(*rel == '/') rel++;`
unfoldable pub skip_slashes : List ℕ → List ℕ
skip_slashes [] = []
skip_slashes (c ∷ rel) = let rest = skip_slashes rel in if c == slash then rest else c ∷ rel

-- The loop that copies a component, with `room` characters of room left: the component, and what
-- is left of the path.
unfoldable pub component_from : ℕ → List ℕ → List ℕ × List ℕ
component_from zero rel = ([], rel)
component_from (suc room) [] = ([], [])
component_from (suc room) (c ∷ rel) =
    let rest = component_from room rel in
    if not (c == 0) && not (c == slash) then (c ∷ rest.0, rest.1) else ([], c ∷ rel)

abbrev pub max_component : ℕ
max_component = 127

abbrev pub dot : List ℕ
dot = b'.' ∷ []

abbrev pub dot_dot : List ℕ
dot_dot = b'.' ∷ b'.' ∷ []

-- One component, from `current`; `none` is the early return of a null pointer.
unfoldable pub enter : Nodes → ℕ → List ℕ → Option ℕ
enter nodes current component =
    if same_text component dot
    then some current
    else if same_text component dot_dot
    then some (if nodes.parent current == 0 then current else nodes.parent current)
    else elim (nodes.finddir current) [
      | none ↦ none
      | some find ↦ if find component == 0 then none else some (find component)
    ]

-- The loop of `vfs_resolve` and `vfs_resolve_relative`. A round takes at least one character, so
-- as many rounds of fuel as the path has characters are enough; `none` is fuel that ran out.
unfoldable pub walk : ℕ → Nodes → ℕ → List ℕ → Option ℕ
walk zero nodes current rel = if deref rel == 0 then some current else none
walk (suc fuel) nodes current rel =
    let (component, left) = component_from max_component (skip_slashes rel) in
    let rest = λ (node : ℕ). walk fuel nodes node left in
    if (deref rel == 0) || (deref (skip_slashes rel) == 0)
    then some current
    else elim (enter nodes current component) [ none ↦ some 0 | some node ↦ rest node ]

-- `path` is `none` for a null pointer; the result is a node, 0 for none.
unfoldable pub vfs_resolve : Nodes → Option (List ℕ) → Vfs → Option ℕ
vfs_resolve nodes none v = some 0
vfs_resolve nodes (some path) v =
    let (root, rel) = find_mount_root path v in
    if (deref path == 0) || (root == 0) then some 0 else walk (length rel) nodes root rel

unfoldable pub vfs_resolve_relative : Nodes → ℕ → Option (List ℕ) → Vfs → Option ℕ
vfs_resolve_relative nodes base none v = some 0
vfs_resolve_relative nodes base (some path) v =
    if base == 0
    then some 0
    else if deref path == slash
    then vfs_resolve nodes (some path) v
    else walk (length path) nodes base path
