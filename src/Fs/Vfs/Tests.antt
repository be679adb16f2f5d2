-- ===== src/Fs/Vfs/Tests.antt =====
-- Paths, and the theorems on them at small inputs.
use nemo_os.Base.{ℕ, ◌+◌, ◌-◌, ◌≡◌, refl, inr, true, some, List, [], ◌∷◌, arith}
use nemo_os.Fs.Vfs.{Nodes, Vfs, vfs_resolve, vfs_resolve_relative, no_mount, slash}
use nemo_os.Fs.Vfs.Walk.{Short, split, keep, components, follow, vfs_resolve_relative-follow}
use nemo_os.Fs.Vfs.Mount.{OnlyRoot, resolve-OnlyRoot}

-- Every node has one child, the next number, under any name.
abbrev chain : Nodes
chain = record { parent = λ n. n - 1; finddir = λ n. some (λ name. n + 1) }

-- "a//b/.."
abbrev up_and_down : List ℕ
up_and_down = b'a' ∷ slash ∷ slash ∷ b'b' ∷ slash ∷ b'.' ∷ b'.' ∷ []

abbrev mounted : Vfs
mounted = record {
  mounts = record { path = slash ∷ 0 ∷ []; root = 7; used = true } ∷ no_mount ∷ [];
  mount_count = 1;
}

fits : Short (components up_and_down)
unfolding Short components split keep
fits = (omega arith, (omega arith, (omega arith, tt)))

root_only : OnlyRoot mounted.mounts
unfolding OnlyRoot no_mount
root_only = ((λ e. (refl, refl)), ((λ e. absurd (cc)), tt))

vfs_resolve_relative-follow_example :
    vfs_resolve_relative chain 5 (some up_and_down) mounted
    ≡ some (follow chain 5 (components up_and_down))
vfs_resolve_relative-follow_example =
    vfs_resolve_relative-follow chain 5 up_and_down mounted (λ e. omega arith) (λ e. omega arith)
      fits

resolve-OnlyRoot_example : vfs_resolve chain (some (slash ∷ b'a' ∷ [])) mounted ≡ some 0
resolve-OnlyRoot_example =
    resolve-OnlyRoot chain (slash ∷ b'a' ∷ []) mounted root_only
      (inr ((λ e. omega arith), λ e. omega arith))
