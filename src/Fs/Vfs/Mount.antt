-- ===== src/Fs/Vfs/Mount.antt =====
-- src/fs/vfs.cpp: the mount at which a path starts.
use nemo_os.Base.{
  ℕ, ◌≡◌, ◌≢◌, ◌⊎◌, refl, inl, inr, true, false, ◌&&◌, Option, none, some, List, [], ◌∷◌, arith,
  Bool-cases,
}
use nemo_os.Libk.Text.{deref, next}
use nemo_os.Fs.Vfs.{
  Nodes, VfsMount, Vfs, slash, common_from, takes, best_from, find_mount_root, vfs_resolve,
}

-- Every mount in use stands at "/".
unfoldable pub OnlyRoot : List VfsMount → Type 0
OnlyRoot [] = Unit
OnlyRoot (m ∷ ms) =
    (m.used ≡ true → (deref m.path ≡ slash) × (deref (next m.path) ≡ 0)) × OnlyRoot ms

-- A path that is neither "/" nor starts with two slashes.
abbrev pub Below : List ℕ → Type 0
Below path = (deref path ≢ slash) ⊎ ((deref (next path) ≢ slash) × (deref (next path) ≢ 0))

takes-root :
    (m path : List ℕ) (best : Option ℕ)
    → deref m ≡ slash
    → deref (next m) ≡ 0
    → Below path
    → takes m path (common_from 0 m path) best ≡ false
unfolding takes common_from
takes-root [] path best h k b = absurd (omega arith)
takes-root (c ∷ []) [] best h k b = ground arith
takes-root (c ∷ d ∷ m) [] best h k b = ground arith
takes-root (c ∷ []) (e ∷ []) best h k b = ground arith
takes-root (c ∷ d ∷ m) (e ∷ []) best h k b = ground arith
takes-root (c ∷ []) (e ∷ f ∷ path) best h k b = ground arith
takes-root (c ∷ d ∷ m) (e ∷ f ∷ path) best h k b = ground arith

better-root :
    (m : VfsMount) (path : List ℕ) (best : Option ℕ)
    → (m.used ≡ true → (deref m.path ≡ slash) × (deref (next m.path) ≡ 0))
    → Below path
    → (m.used && takes m.path path (common_from 0 m.path path) best) ≡ false
better-root m path best h b = elim (Bool-cases m.used) [
  | inl e ↦ rw (takes-root m.path path best (h e).0 (h e).1 b, e)
  | inr e ↦ rw e
]

best-root :
    (ms : List VfsMount) (path : List ℕ)
    → OnlyRoot ms
    → Below path
    → best_from ms path none 0 ≡ (none, 0)
unfolding best_from OnlyRoot
best-root [] path o b = refl
best-root (m ∷ ms) path o b = rw (better-root m path none o.0 b, best-root ms path o.1 b)

-- While "/" is the only mount, no path that continues after one slash, and none that does not
-- start with a slash, resolves: the result is a null pointer.
pub resolve-OnlyRoot :
    (nodes : Nodes) (path : List ℕ) (v : Vfs)
    → OnlyRoot v.mounts
    → Below path
    → vfs_resolve nodes (some path) v ≡ some 0
unfolding vfs_resolve find_mount_root
resolve-OnlyRoot nodes path v o b = ground (arith, best-root v.mounts path o b)
