-- ===== src/Fs/Ramfs/Data.antt =====
-- src/fs/ramfs.cpp: `ramfs_read` and `ramfs_write`.
use mathlib.Core.Path.{ap₂}
use nemo_os.Base.{
  ℕ, zero, suc, ◌+◌, ◌-◌, ◌%◌, ◌^◌, ◌≤◌, ◌<◌, ◌≡◌, ◌≢◌, refl, sym, ap, ◌∙◌, subst, true, false,
  ◌&&◌, none, some, List, [], ◌∷◌, arith, ltb, leb, ◌==◌, if◌then◌else◌, length, set, get_or, take,
  length-set, get_or-set, lt→ltb,
}
use nemo_os.Base.Int.{ℤ, pos}
use nemo_os.Fs.Ramfs.{
  Ramfs, RamfsNode, max_data, is_file, put_node, read_from, ramfs_read, write_from, write_size,
  ramfs_write,
}

read_from-same :
    (n a b : ℕ) (c d : List ℕ)
    → ((k : ℕ) → k < n → get_or c (a + k) 0 ≡ get_or d (b + k) 0)
    → read_from n a c ≡ read_from n b d
unfolding read_from
read_from-same zero a b c d h = refl
read_from-same (suc n) a b c d h =
    ap₂ (λ x xs. x ∷ xs) (later c d 0 (omega arith) (omega arith) (h 0 (omega arith)))
      (read_from-same n (a + 1) (b + 1) c d
        (λ k lt. later c d (suc k) (omega arith) (omega arith) (h (suc k) (omega arith))))
  where
    later :
        (c d : List ℕ) (k : ℕ) {i j : ℕ}
        → a + k ≡ i
        → b + k ≡ j
        → get_or c (a + k) 0 ≡ get_or d (b + k) 0
        → get_or c i 0 ≡ get_or d j 0
    later c d k p q e = ap (λ i. get_or c i 0) (sym p) ∙ e ∙ ap (λ j. get_or d j 0) q

read_from-tail : (n i x : ℕ) (xs : List ℕ) → read_from n (suc i) (x ∷ xs) ≡ read_from n i xs
unfolding read_from
read_from-tail zero i x xs = refl
read_from-tail (suc n) i x xs =
    ap (λ t. get_or xs i 0 ∷ t)
      (ap (λ j. read_from n j (x ∷ xs)) (omega arith) ∙ read_from-tail n (i + 1) x xs)

read_from-take : (n : ℕ) (xs : List ℕ) → n ≤ length xs → read_from n 0 xs ≡ take n xs
unfolding read_from
read_from-take zero xs h = refl
read_from-take (suc n) [] h = absurd (omega arith)
read_from-take (suc n) (x ∷ xs) h =
    ap (λ t. x ∷ t) (read_from-tail n 0 x xs ∙ read_from-take n xs (omega arith))

-- The array after the loop.
abbrev pub Stored : ℕ → ℕ → ℕ → List ℕ → List ℕ → List ℕ → Type 0
Stored rounds i offset buf contents c =
    (j : ℕ)
    → get_or c j 0 ≡ (
        if leb (offset + i) j && ltb j (offset + i + rounds)
        then get_or buf (j - offset) 0
        else get_or contents j 0)

write_from-step :
    (rounds i offset : ℕ) (buf contents : List ℕ)
    → offset + i < max_data
    → write_from (suc rounds) i offset buf contents
      ≡ write_from rounds (i + 1) offset buf (set contents (offset + i) (get_or buf i 0))
unfolding write_from
write_from-step rounds i offset buf contents h =
    let at : (offset + i) % 2 ^ 32 ≡ offset + i = omega arith in
    rw (at, lt→ltb (offset + i) max_data h)

Stored-step :
    (rounds i offset : ℕ) (buf contents c : List ℕ)
    → offset + i < length contents
    → Stored rounds (i + 1) offset buf (set contents (offset + i) (get_or buf i 0)) c
    → Stored (suc rounds) i offset buf contents c
Stored-step rounds i offset buf contents c h s j =
    ground (arith, s j, get_or-set contents (offset + i) j (get_or buf i 0) 0)

write_from-Stored :
    (rounds i offset : ℕ) (buf contents : List ℕ)
    → offset + i + rounds ≤ max_data
    → length contents ≡ max_data
    → (c : List ℕ) × (write_from rounds i offset buf contents ≡ some c)
      × Stored rounds i offset buf contents c
unfolding write_from
write_from-Stored zero i offset buf contents h l = (contents, refl, λ j. ground arith)
write_from-Stored (suc rounds) i offset buf contents h l =
    let next = set contents (offset + i) (get_or buf i 0) in
    let rest =
      write_from-Stored rounds (i + 1) offset buf next (omega arith)
        (length-set contents (offset + i) (get_or buf i 0) ∙ l) in
    (
      rest.0,
      write_from-step rounds i offset buf contents (omega arith) ∙ rest.1,
      Stored-step rounds i offset buf contents rest.0 (omega arith) rest.2,
    )

-- The node after a write of `n` bytes that leaves the array `c`.
abbrev written : ℕ → ℕ → List ℕ → RamfsNode → RamfsNode
written offset n c x =
    let end = (offset + n) % 2 ^ 32 in
    record x {
      vnode = record x.vnode { size = if ltb x.vnode.size end then end else x.vnode.size };
      contents = c;
    }

write-written :
    (node offset size : ℕ) (buf c : List ℕ) (r : Ramfs)
    → node ≢ 0
    → is_file (r.node node).vnode.flags ≡ true
    → write_from (write_size offset size) 0 offset buf (r.node node).contents ≡ some c
    → ramfs_write node offset size buf r
      ≡ some (
        pos (write_size offset size),
        put_node node (written offset (write_size offset size) c (r.node node)) r,
      )
unfolding ramfs_write
write-written node offset size buf c r h f e =
    let nonzero : (node == 0) ≡ false = ground arith in rw (nonzero, f, e)

write_size-fits : (offset size : ℕ) → offset + size ≤ max_data → write_size offset size ≡ size
unfolding write_size
write_size-fits offset size h = ground arith

read-nothing :
    (size offset : ℕ) (contents : List ℕ)
    → ◌≡◌ {A = ℤ × List ℕ}
        (if leb size offset
          then (pos 0, [])
          else let n = if ltb (size - offset) 0 then size - offset else 0 in
            (pos n, read_from n offset contents))
        (pos 0, read_from 0 offset contents)
unfolding read_from
read-nothing size offset contents = ground arith

read-fits :
    (node offset size : ℕ) (s : Ramfs)
    → node ≢ 0
    → is_file (s.node node).vnode.flags ≡ true
    → offset + size ≤ (s.node node).vnode.size
    → ramfs_read node offset size s ≡ (pos size, read_from size offset (s.node node).contents)
unfolding ramfs_read
read-fits node offset zero s h f fits =
    let nonzero : (node == 0) ≡ false = ground arith in
    rw (nonzero, f) (read-nothing (s.node node).vnode.size offset (s.node node).contents)
read-fits node offset (suc size) s h f fits =
    let nonzero : (node == 0) ≡ false = ground arith in
    let inside : leb (s.node node).vnode.size offset ≡ false = ground arith in
    let enough : ltb ((s.node node).vnode.size - offset) (suc size) ≡ false = ground arith in
    rw (nonzero, f, inside, enough)

node-put : (n : ℕ) (x : RamfsNode) (r : Ramfs) → (put_node n x r).node n ≡ x
node-put n x r = ground arith

-- A write that fits the array is read back whole.
pub write-read :
    (node offset size : ℕ) (buf : List ℕ) (r : Ramfs)
    → node ≢ 0
    → is_file (r.node node).vnode.flags ≡ true
    → length (r.node node).contents ≡ max_data
    → offset + size ≤ max_data
    → size ≤ length buf
    → (s : Ramfs) × (ramfs_write node offset size buf r ≡ some (pos size, s))
      × (ramfs_read node offset size s ≡ (pos size, take size buf))
unfolding ramfs_write ramfs_read
write-read node offset size buf r h f l fits enough =
    let stored = write_from-Stored size 0 offset buf (r.node node).contents (omega arith) l in
    let s = put_node node (written offset size stored.0 (r.node node)) r in
    (s, wrote stored.0 stored.1, read stored.0 stored.2)
  where
    kept :
        (c : List ℕ)
        → Stored size 0 offset buf (r.node node).contents c
        → (k : ℕ) → k < size
        → get_or c (offset + k) 0 ≡ get_or buf (0 + k) 0
    kept c s k lt = ground (arith, s (offset + k))

    wrote :
        (c : List ℕ)
        → write_from size 0 offset buf (r.node node).contents ≡ some c
        → ramfs_write node offset size buf r
          ≡ some (pos size, put_node node (written offset size c (r.node node)) r)
    wrote c e =
        let n = write_size-fits offset size fits in
        write-written node offset size buf c r h f
          (ap (λ k. write_from k 0 offset buf (r.node node).contents) n ∙ e)
        ∙ ap (λ k. some (pos k, put_node node (written offset k c (r.node node)) r)) n

    read :
        (c : List ℕ)
        → Stored size 0 offset buf (r.node node).contents c
        → ramfs_read node offset size (put_node node (written offset size c (r.node node)) r)
          ≡ (pos size, take size buf)
    read c s =
        let x = written offset size c (r.node node) in
        let here = node-put node x r in
        let large : offset + size ≤ x.vnode.size = ground arith in
        read-fits node offset size (put_node node x r) h (ap (λ y. is_file y.vnode.flags) here ∙ f)
          (subst (λ y. offset + size ≤ y.vnode.size) (sym here) large)
        ∙ ap (λ y. (pos size, read_from size offset y.contents)) here
        ∙ ap (λ bytes. (pos size, bytes))
            (read_from-same size offset 0 c buf (λ k lt. kept c s k lt)
              ∙ read_from-take size buf enough)

-- A write that starts past the end of the array, with a length that does not wrap around, leaves
-- the array: the bound that it computes is close to 2^32.
pub write-overrun :
    (node offset size : ℕ) (buf : List ℕ) (r : Ramfs)
    → node ≢ 0
    → is_file (r.node node).vnode.flags ≡ true
    → max_data < offset
    → offset + size < 2 ^ 32
    → ramfs_write node offset size buf r ≡ none
unfolding ramfs_write write_size write_from
write-overrun node offset size buf r h f far small =
    let nonzero : (node == 0) ≡ false = ground arith in rw (nonzero, f, overrun)
  where
    first : (n : ℕ) → 0 < n → write_from n 0 offset buf (r.node node).contents ≡ none
    first zero lt = absurd (omega arith)
    first (suc n) lt = ground arith

    overrun : write_from (write_size offset size) 0 offset buf (r.node node).contents ≡ none
    overrun = first (write_size offset size) (ground arith)
