-- ===== src/Fs/Vfs/Walk.antt =====
-- src/fs/vfs.cpp: the loop of `vfs_resolve` and `vfs_resolve_relative`, against the split of a
-- path at its slashes.
use nemo_os.Base.{
  ℕ, zero, suc, ◌≤◌, ◌<◌, ◌≡◌, ◌≢◌, ◌⊎◌, refl, sym, ap, ◌∙◌, subst, inl, inr, Option, none, some,
  List, [], ◌∷◌, arith, ◌==◌, if◌then◌else◌, length,
}
use nemo_os.Libk.Text.{deref}
use nemo_os.Fs.Vfs.{
  Nodes, slash, skip_slashes, component_from, max_component, enter, walk, vfs_resolve_relative, Vfs,
}

-- A component in front of others, left out if it is empty.
unfoldable pub keep : List ℕ → List (List ℕ) → List (List ℕ)
keep [] ws = ws
keep (c ∷ w) ws = (c ∷ w) ∷ ws

-- The characters up to the first slash, and the components that follow.
unfoldable pub split : List ℕ → List ℕ × List (List ℕ)
split [] = ([], [])
split (c ∷ rel) =
    let rest = split rel in
    if c == 0
    then ([], [])
    else if c == slash
    then ([], keep rest.0 rest.1)
    else (c ∷ rest.0, rest.1)

unfoldable pub components : List ℕ → List (List ℕ)
components rel = keep (split rel).0 (split rel).1

-- Into one component after the other; 0 once one cannot be entered.
unfoldable pub follow : Nodes → ℕ → List (List ℕ) → ℕ
follow nodes current [] = current
follow nodes current (c ∷ cs) = elim (enter nodes current c) [
  | none ↦ 0
  | some n ↦ follow nodes n cs
]

unfoldable pub Short : List (List ℕ) → Type 0
Short [] = Unit
Short (c ∷ cs) = (length c ≤ max_component) × Short cs

components-skip : (rel : List ℕ) → components (skip_slashes rel) ≡ components rel
unfolding components split keep skip_slashes
components-skip [] = refl
components-skip (c ∷ rel) = ground (arith, components-skip rel)

length-skip : (rel : List ℕ) → length (skip_slashes rel) ≤ length rel
unfolding skip_slashes
length-skip [] = omega arith
length-skip (c ∷ rel) = ground (arith, length-skip rel)

skip-head : (rel : List ℕ) → deref (skip_slashes rel) ≢ slash
unfolding skip_slashes
skip-head [] = λ e. omega arith
skip-head (c ∷ rel) = ground (arith, skip-head rel)

component-split :
    (room : ℕ) (rel : List ℕ)
    → length (split rel).0 ≤ room
    → (component_from room rel).0 ≡ (split rel).0
unfolding component_from split
component-split zero [] h = refl
component-split zero (c ∷ rel) h = ground arith
component-split (suc room) [] h = refl
component-split (suc room) (c ∷ rel) h = ground (arith, component-split room rel)

left-split :
    (room : ℕ) (rel : List ℕ)
    → length (split rel).0 ≤ room
    → components (component_from room rel).1 ≡ (split rel).1
unfolding component_from split components keep
left-split zero [] h = refl
left-split zero (c ∷ rel) h = ground arith
left-split (suc room) [] h = refl
left-split (suc room) (c ∷ rel) h = ground (arith, left-split room rel)

components-end : (rel : List ℕ) → deref rel ≡ 0 → components rel ≡ []
unfolding components split keep
components-end [] h = refl
components-end (c ∷ rel) h = ground arith

components-cons :
    (rel : List ℕ)
    → deref rel ≢ 0
    → deref rel ≢ slash
    → components rel ≡ (split rel).0 ∷ (split rel).1
unfolding components split keep
components-cons [] h k = absurd (h refl)
components-cons (c ∷ rel) h k = ground arith

length-left : (room : ℕ) (rel : List ℕ) → length (component_from room rel).1 ≤ length rel
unfolding component_from
length-left zero rel = omega arith
length-left (suc room) [] = omega arith
length-left (suc room) (c ∷ rel) = ground (arith, length-left room rel)

left-shorter :
    (room : ℕ) (rel : List ℕ)
    → deref rel ≢ 0
    → deref rel ≢ slash
    → length (component_from (suc room) rel).1 < length rel
unfolding component_from
left-shorter room [] h k = absurd (h refl)
left-shorter room (c ∷ rel) h k = ground (arith, length-left room rel)

-- A round of the loop that is not the last one.
walk-round :
    (fuel : ℕ) (nodes : Nodes) (current : ℕ) (rel : List ℕ)
    → deref rel ≢ 0
    → deref (skip_slashes rel) ≢ 0
    → walk (suc fuel) nodes current rel
      ≡ elim (enter nodes current (component_from max_component (skip_slashes rel)).0) [
        | none ↦ some 0
        | some node ↦ walk fuel nodes node (component_from max_component (skip_slashes rel)).1
      ]
unfolding walk
walk-round fuel nodes current rel h k = ground arith

walk-last :
    (fuel : ℕ) (nodes : Nodes) (current : ℕ) (rel : List ℕ)
    → (deref rel ≡ 0) ⊎ (deref (skip_slashes rel) ≡ 0)
    → length rel ≤ fuel
    → walk fuel nodes current rel ≡ some current
unfolding walk
walk-last zero nodes current [] h l = refl
walk-last zero nodes current (c ∷ rel) h l = absurd (omega arith)
walk-last (suc fuel) nodes current rel h l = ground arith

enter-follow :
    (fuel : ℕ) (nodes : Nodes) (entered : Option ℕ) (cs : List (List ℕ)) (left : List ℕ)
    → ((node : ℕ) → walk fuel nodes node left ≡ some (follow nodes node cs))
    → ◌≡◌ {A = Option ℕ}
        (elim entered [ none ↦ some 0 | some node ↦ walk fuel nodes node left ])
        (some (elim entered [ none ↦ 0 | some n ↦ follow nodes n cs ]))
enter-follow fuel nodes none cs left h = refl
enter-follow fuel nodes (some node) cs left h = h node

components-none :
    (rel : List ℕ) → (deref rel ≡ 0) ⊎ (deref (skip_slashes rel) ≡ 0) → components rel ≡ []
components-none rel (inl h) = components-end rel h
components-none rel (inr h) = sym (components-skip rel) ∙ components-end (skip_slashes rel) h

skip-step :
    (rel : List ℕ)
    → deref (skip_slashes rel) ≢ 0
    → components rel ≡ (split (skip_slashes rel)).0 ∷ (split (skip_slashes rel)).1
skip-step rel k = sym (components-skip rel) ∙ components-cons (skip_slashes rel) k (skip-head rel)

skip-shorter :
    (fuel : ℕ) (rel : List ℕ)
    → length rel ≤ suc fuel
    → deref (skip_slashes rel) ≢ 0
    → length (component_from max_component (skip_slashes rel)).1 ≤ fuel
skip-shorter fuel rel l k =
    let shorter = left-shorter 126 (skip_slashes rel) k (skip-head rel) in
    let skipped = length-skip rel in omega arith

-- What a round does, in the components of the path.
Short-head : (c : List ℕ) (cs : List (List ℕ)) → Short (c ∷ cs) → length c ≤ max_component
unfolding Short
Short-head c cs s = s.0

Short-tail : (c : List ℕ) (cs : List (List ℕ)) → Short (c ∷ cs) → Short cs
unfolding Short
Short-tail c cs s = s.1

follow-cons :
    (nodes : Nodes) (current : ℕ) (c : List ℕ) (cs : List (List ℕ))
    → follow nodes current (c ∷ cs)
      ≡ elim (enter nodes current c) [ none ↦ 0 | some n ↦ follow nodes n cs ]
unfolding follow
follow-cons nodes current c cs = refl

walk-ended :
    (fuel : ℕ) (nodes : Nodes) (current : ℕ) (rel : List ℕ)
    → length rel ≤ fuel
    → (deref rel ≡ 0) ⊎ (deref (skip_slashes rel) ≡ 0)
    → walk fuel nodes current rel ≡ some (follow nodes current (components rel))
unfolding follow
walk-ended fuel nodes current rel l h =
    rw (walk-last fuel nodes current rel h l, components-none rel h)

-- A round that enters a component, when the rest of the loop is right.
walk-entered :
    (fuel : ℕ) (nodes : Nodes) (current : ℕ) (rel : List ℕ)
    → deref rel ≢ 0
    → deref (skip_slashes rel) ≢ 0
    → Short (components rel)
    → ((node : ℕ) (left : List ℕ)
        → left ≡ (component_from max_component (skip_slashes rel)).1
        → Short (components left)
        → walk fuel nodes node left ≡ some (follow nodes node (components left)))
    → walk (suc fuel) nodes current rel ≡ some (follow nodes current (components rel))
walk-entered fuel nodes current rel k j s rest =
    let skipped = skip_slashes rel in
    let left = (component_from max_component skipped).1 in
    let short = subst Short (skip-step rel j) s in
    let fits = Short-head (split skipped).0 (split skipped).1 short in
    let same = left-split max_component skipped fits in
    let left_short =
      subst Short (sym same) (Short-tail (split skipped).0 (split skipped).1 short) in
    walk-round fuel nodes current rel k j
    ∙ enter-follow fuel nodes (enter nodes current (component_from max_component skipped).0)
        (split skipped).1 left
        (λ node. rest node left refl left_short ∙ ap (λ cs. some (follow nodes node cs)) same)
    ∙ ap
        (λ c.
          some
            (elim (enter nodes current c) [ none ↦ 0 | some n ↦ follow nodes n (split skipped).1 ]))
        (component-split max_component skipped fits)
    ∙ ap some (sym (follow-cons nodes current (split skipped).0 (split skipped).1))
    ∙ ap (λ cs. some (follow nodes current cs)) (sym (skip-step rel j))

ended-cases :
    (rel : List ℕ)
    → ((deref rel ≡ 0) ⊎ (deref (skip_slashes rel) ≡ 0))
      ⊎ ((deref rel ≢ 0) × (deref (skip_slashes rel) ≢ 0))
ended-cases rel = ground arith

-- With fuel for every character and components that fit the buffer, the loop takes the path apart
-- at its slashes and enters one component after the other.
pub walk-follow :
    (fuel : ℕ) (nodes : Nodes) (current : ℕ) (rel : List ℕ)
    → length rel ≤ fuel
    → Short (components rel)
    → walk fuel nodes current rel ≡ some (follow nodes current (components rel))
walk-follow zero nodes current [] l s = walk-ended zero nodes current [] l (inl refl)
walk-follow zero nodes current (c ∷ rel) l s = absurd (omega arith)
walk-follow (suc fuel) nodes current rel l s = elim (ended-cases rel) [
  | inl e ↦ walk-ended (suc fuel) nodes current rel l e
  | inr e ↦ walk-entered fuel nodes current rel e.0 e.1 s (λ node left q t.
      walk-follow fuel nodes node left
        (subst (λ r. length r ≤ fuel) (sym q) (skip-shorter fuel rel l e.1)) t)
]

-- From a node that is not null, a path that does not start with a slash leads through its
-- components one after the other, if each fits the buffer of 127 characters.
pub vfs_resolve_relative-follow :
    (nodes : Nodes) (base : ℕ) (path : List ℕ) (v : Vfs)
    → base ≢ 0
    → deref path ≢ slash
    → Short (components path)
    → vfs_resolve_relative nodes base (some path) v ≡ some (follow nodes base (components path))
unfolding vfs_resolve_relative
vfs_resolve_relative-follow nodes base path v h k s =
    ground (arith, walk-follow (length path) nodes base path (omega arith) s)
