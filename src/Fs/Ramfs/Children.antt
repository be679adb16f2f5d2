-- ===== src/Fs/Ramfs/Children.antt =====
-- src/fs/ramfs.cpp: the children of a directory, a list linked through the nodes.
use nemo_os.Base.{
  ℕ, zero, suc, ◌+◌, ◌≤◌, ◌<◌, ◌≡◌, ◌≢◌, refl, sym, ap, ◌∙◌, subst, inl, true, false, some, List,
  [], ◌∷◌, ◌++◌, arith, ◌==◌, if◌then◌else◌, length, set, drop, lt→ltb,
}
use nemo_os.Libk.Text.{text, strcpy}
use nemo_os.Libk.Text.Compare.{lex, strcmp-lex}
use nemo_os.Libk.Text.Copy.{strcpy-text, text-strcpy}
use nemo_os.Fs.Vfs.{Vfs, same_text, is_zero, dot}
use nemo_os.Fs.Vfs.Mount.{OnlyRoot, resolve-OnlyRoot}
use nemo_os.Fs.Ramfs.{
  Ramfs, RamfsNode, is_dir, put_node, finddir_from, ramfs_finddir, alloc_node, max_nodes,
}
use nemo_os.Fs.Ramfs.Create.{
  link_child, nodes_of, ramfs_touch, ramfs_mkdir, ramfs_create_file, file_of,
}

-- The list from `cur` on is that of the nodes `cs`.
unfoldable pub Chain : (ℕ → RamfsNode) → ℕ → List ℕ → Type 0
Chain node cur [] = cur ≡ 0
Chain node cur (c ∷ cs) = (cur ≡ c) × (c ≢ 0) × Chain node (node c).next_sibling cs

-- The first child with a name, 0 if none has it.
unfoldable pub named : (ℕ → RamfsNode) → List ℕ → List ℕ → ℕ
named node name [] = 0
named node name (c ∷ cs) =
    let rest = named node name cs in if same_text (node c).vnode.name name then c else rest

finddir_from-named :
    (fuel : ℕ) (r : Ramfs) (cur : ℕ) (cs name : List ℕ)
    → Chain r.node cur cs
    → length cs ≤ fuel
    → finddir_from fuel r cur name ≡ some (named r.node name cs)
unfolding finddir_from named Chain
finddir_from-named zero r cur [] name h l = ground arith
finddir_from-named (suc fuel) r cur [] name h l = ground arith
finddir_from-named zero r cur (c ∷ cs) name h l = absurd (omega arith)
finddir_from-named (suc fuel) r cur (c ∷ cs) name h l =
    let rest = finddir_from-named fuel r (r.node c).next_sibling cs name h.2 (omega arith) in
    subst (λ x. finddir_from (suc fuel) r x name ≡ some (named r.node name (c ∷ cs))) (sym h.0)
      (first h.1 rest)
  where
    first :
        c ≢ 0
        → finddir_from fuel r (r.node c).next_sibling name ≡ some (named r.node name cs)
        → finddir_from (suc fuel) r c name ≡ some (named r.node name (c ∷ cs))
    first z rest = ground (arith, rest)

-- A lookup finds the first child of that name.
pub finddir-named :
    (node : ℕ) (name : List ℕ) (r : Ramfs) (cs : List ℕ)
    → node ≢ 0
    → is_dir (r.node node).vnode.flags ≡ true
    → Chain r.node (r.node node).first_child cs
    → length cs ≤ r.pool_count
    → ramfs_finddir node name r ≡ some (named r.node name cs)
unfolding ramfs_finddir
finddir-named node name r cs h d chain l =
    let nonzero : (node == 0) ≡ false = ground arith in
    rw (nonzero, d) (finddir_from-named r.pool_count r (r.node node).first_child cs name chain l)

-- While "/" is the only mount, `ramfs_touch` makes no file, and `ramfs_mkdir` no directory: both
-- return a null pointer, because "." does not resolve.
pub touch-OnlyRoot :
    (fresh : ℕ) (name : List ℕ) (v : Vfs) (r : Ramfs)
    → OnlyRoot v.mounts
    → (ramfs_touch fresh name v r ≡ some (0, r)) × (ramfs_mkdir fresh name v r ≡ some (0, r))
unfolding ramfs_touch ramfs_mkdir
touch-OnlyRoot fresh name v r o =
    let lost = resolve-OnlyRoot (nodes_of r) dot v o (inl (λ e. omega arith)) in
    (rw (ramfs_touch, lost), rw (ramfs_mkdir, lost))

-- None of the nodes is `n`.
unfoldable pub Away : ℕ → List ℕ → Type 0
Away n [] = Unit
Away n (c ∷ cs) = (c ≢ n) × Away n cs

-- The file system after a new node, which holds `x`, is made the first child of another.
module _ (n parent : ℕ) (x : RamfsNode) (r : Ramfs) (apart : n ≢ parent) where
  abbrev linked : Ramfs
  linked = link_child n parent (put_node n x r)

  linked-new : (linked.node n).vnode ≡ x.vnode
  unfolding link_child
  linked-new = ground arith

  linked-next : (linked.node n).next_sibling ≡ (r.node parent).first_child
  unfolding link_child
  linked-next = ground arith

  linked-first : (linked.node parent).first_child ≡ n
  unfolding link_child
  linked-first = ground arith

  linked-flags : (linked.node parent).vnode ≡ (r.node parent).vnode
  unfolding link_child
  linked-flags = ground arith

  linked-old_next : (c : ℕ) → c ≢ n → (linked.node c).next_sibling ≡ (r.node c).next_sibling
  unfolding link_child
  linked-old_next c h = ground arith

  linked-old_vnode : (c : ℕ) → c ≢ n → (linked.node c).vnode ≡ (r.node c).vnode
  unfolding link_child
  linked-old_vnode c h = ground arith

  linked-Chain :
      (cur : ℕ) (cs : List ℕ) → Away n cs → Chain r.node cur cs → Chain linked.node cur cs
  unfolding Chain Away
  linked-Chain cur [] a h = h
  linked-Chain cur (c ∷ cs) a h = (
    h.0,
    h.1,
    subst (λ next. Chain linked.node next cs) (sym (linked-old_next c a.0))
        (linked-Chain (r.node c).next_sibling cs a.1 h.2),
  )

  linked-named : (name cs : List ℕ) → Away n cs → named linked.node name cs ≡ named r.node name cs
  unfolding named Away
  linked-named name [] a = refl
  linked-named name (c ∷ cs) a =
      let same = ap (λ v. same_text v.name name) (linked-old_vnode c a.0) in
      rw (same, linked-named name cs a.1)

same_text-text : (a b q : List ℕ) → text a ≡ text b → same_text a q ≡ same_text b q
same_text-text a b q h =
    ap is_zero (strcmp-lex a q ∙ ap (λ t. lex t (text q)) h ∙ sym (strcmp-lex b q))

strcpy-fits :
    (dst src : List ℕ)
    → length (text src) < length dst
    → (out : List ℕ) × (strcpy dst src ≡ some out)
strcpy-fits dst src h = (
  text src ++ (0 ∷ drop (suc (length (text src))) dst),
  strcpy-text dst src ∙ rw (lt→ltb (length (text src)) (length dst) h),
)

-- The file system once a node is taken from the pool.
abbrev allocated : ℕ → Ramfs → Ramfs
allocated fresh r = record r {
  node_pool = set r.node_pool r.pool_count fresh;
  pool_count = r.pool_count + 1;
}

alloc_node-allocated :
    (fresh : ℕ) (r : Ramfs)
    → fresh ≢ 0
    → r.pool_count < max_nodes
    → alloc_node fresh r ≡ (fresh, allocated fresh r)
unfolding alloc_node
alloc_node-allocated fresh r f room = ground arith

create_file-linked :
    (fresh parent : ℕ) (name copied : List ℕ) (r : Ramfs)
    → parent ≢ 0
    → is_dir (r.node parent).vnode.flags ≡ true
    → fresh ≢ 0
    → r.pool_count < max_nodes
    → strcpy (r.node fresh).vnode.name name ≡ some copied
    → ramfs_create_file fresh parent name r
      ≡ some (
        fresh,
        link_child fresh parent
            (put_node fresh (file_of fresh parent copied (r.node fresh)) (allocated fresh r)),
      )
unfolding ramfs_create_file
create_file-linked fresh parent name copied r p d f room e =
    let nonzero : (parent == 0) ≡ false = ground arith in
    let new : (fresh == 0) ≡ false = ground arith in
    let taken = alloc_node-allocated fresh r f room in rw (taken, nonzero, d, new, e, taken)

-- In a directory whose children are `cs`, a file made under a name that fits is found under that
-- name, and every other name is looked up as before.
pub create_file-finddir :
    (fresh parent : ℕ) (name cs : List ℕ) (r : Ramfs)
    → parent ≢ 0
    → is_dir (r.node parent).vnode.flags ≡ true
    → fresh ≢ 0
    → fresh ≢ parent
    → Away fresh cs
    → r.pool_count < max_nodes
    → length (text name) < length (r.node fresh).vnode.name
    → Chain r.node (r.node parent).first_child cs
    → length cs ≤ r.pool_count
    → (s : Ramfs) × (ramfs_create_file fresh parent name r ≡ some (fresh, s))
      × ((q : List ℕ)
          → ramfs_finddir parent q s ≡ some (if same_text name q then fresh else named r.node q cs))
unfolding Chain named file_of link_child
create_file-finddir fresh parent name cs r p d f apart away room fits chain l =
    let copy = strcpy-fits (r.node fresh).vnode.name name fits in
    let x = file_of fresh parent copy.0 (r.node fresh) in
    let s = link_child fresh parent (put_node fresh x (allocated fresh r)) in
    (
      s,
      create_file-linked fresh parent name copy.0 r p d f room copy.1,
      λ q. looked_up copy.0 (text-strcpy (r.node fresh).vnode.name name copy.1) q,
    )
  where
    newest :
        (copied : List ℕ)
        → text copied ≡ text name
        → (q : List ℕ)
        → named
            (link_child fresh parent (
              put_node fresh (file_of fresh parent copied (r.node fresh)) (allocated fresh r))).node
            q
            (fresh ∷ cs)
          ≡ (if same_text name q then fresh else named r.node q cs)
    newest copied e q =
        let x = file_of fresh parent copied (r.node fresh) in
        let t = allocated fresh r in
        let name_same =
          ap (λ v. same_text v.name q) (linked-new fresh parent x t apart)
          ∙ same_text-text copied name q e in
        rw (name_same, linked-named fresh parent x t apart q cs away)

    looked_up :
        (copied : List ℕ)
        → text copied ≡ text name
        → (q : List ℕ)
        → ramfs_finddir parent q (
            link_child fresh parent
              (put_node fresh (file_of fresh parent copied (r.node fresh)) (allocated fresh r)))
          ≡ some (if same_text name q then fresh else named r.node q cs)
    looked_up copied e q =
        let x = file_of fresh parent copied (r.node fresh) in
        let t = allocated fresh r in
        let s = link_child fresh parent (put_node fresh x t) in
        let flags = ap (λ v. is_dir v.flags) (linked-flags fresh parent x t apart) ∙ d in
        let old = linked-Chain fresh parent x t apart (r.node parent).first_child cs away chain in
        let next = subst (λ a. Chain s.node a cs) (sym (linked-next fresh parent x t apart)) old in
        let whole : Chain s.node (s.node parent).first_child (fresh ∷ cs) =
          (linked-first fresh parent x t apart, f, next) in
        finddir-named parent q s (fresh ∷ cs) p flags whole (omega arith)
        ∙ ap some (newest copied e q)
