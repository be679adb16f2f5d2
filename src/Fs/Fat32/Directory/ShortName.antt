-- ===== src/Fs/Fat32/Directory/ShortName.antt =====
-- src/fs/fat32.cpp: the names of files.
use nemo_os.Base.{
  ℕ, zero, suc, ◌+◌, ◌-◌, ◌≤◌, ◌<◌, ◌≡◌, ◌≢◌, refl, sym, ap, ◌∙◌, inl, inr, false, List, [], ◌∷◌,
  ◌++◌, arith, ltb, ◌==◌, if◌then◌else◌, Bool-cases, length, get_or, replicate, length-append,
  length-replicate, get_or-replicate,
}
use nemo_os.Libk.Text.{text}
use mathlib.Core.List.{append_assoc}
use nemo_os.Fs.Fat32.{byte_at}
use nemo_os.Fs.Fat32.Directory.{until_space, entry_name, is_directory}

-- A part of a name, padded with spaces to `n` bytes, as FAT stores it.
abbrev pub padded : ℕ → List ℕ → List ℕ
padded n xs = xs ++ replicate (n - length xs) (b' ')

-- The bytes of a name's part: no NUL and no space.
abbrev pub IsPlain : List ℕ → Type 0
IsPlain xs = (i : ℕ) → i < length xs → (get_or xs i 0 ≢ 0) × (get_or xs i 0 ≢ b' ')

until_space-padded :
    (k j : ℕ) (buf xs : List ℕ)
    → IsPlain xs
    → length xs ≤ k
    → ((i : ℕ) → i < k → byte_at buf (j + i) ≡ get_or (padded k xs) i 0)
    → until_space k j buf ≡ xs
unfolding until_space
until_space-padded zero j buf [] plain fits same = refl
until_space-padded zero j buf (x ∷ xs) plain fits same = absurd (omega arith)
until_space-padded (suc k) j buf [] plain fits same =
    let here : byte_at buf j ≡ b' ' =
      ap (byte_at buf) (omega arith)
      ∙ same 0 (omega arith)
      ∙ get_or-replicate (suc k - 0) 0 (b' ') 0 (omega arith) in
    rw here refl
until_space-padded (suc k) j buf (x ∷ xs) plain fits same =
    let here : byte_at buf j ≡ x = ap (byte_at buf) (omega arith) ∙ same 0 (omega arith) in
    let other : (x == b' ') ≡ false = ground (arith, (plain 0 (omega arith)).1) in
    rw (here, other)
      (ap (λ r. x ∷ r)
        (until_space-padded k (j + 1) buf xs (λ i lt. plain (suc i) (omega arith)) (omega arith)
          (λ i lt.
            ap (byte_at buf) (omega arith)
            ∙ same (suc i) (omega arith)
            ∙ ap (λ n. get_or (xs ++ replicate n (b' ')) i 0) (omega arith))))

text-plain : (xs ys : List ℕ) → IsPlain xs → text (xs ++ (0 ∷ ys)) ≡ xs
unfolding text
text-plain [] ys plain = refl
text-plain (x ∷ xs) ys plain =
    let other : (x == 0) ≡ false = ground (arith, (plain 0 (omega arith)).0) in
    rw other (ap (λ r. x ∷ r) (text-plain xs ys (λ i lt. plain (suc i) (omega arith))))

-- The name of a file as FAT stores it in the eleven bytes of an entry.
abbrev pub stored : List ℕ → List ℕ → List ℕ
stored base extension = padded 8 base ++ padded 3 extension

-- What the entry's name reads as.
abbrev pub shown : List ℕ → List ℕ → List ℕ
shown base [] = base
shown base (c ∷ extension) = base ++ (b'.' ∷ c ∷ extension)

get_or-append :
    (xs ys : List ℕ) (i : ℕ)
    → get_or (xs ++ ys) i 0
      ≡ (if ltb i (length xs) then get_or xs i 0 else get_or ys (i - length xs) 0)
get_or-append [] ys i = ground (arith, ap (λ j. get_or ys j 0) {x = i - 0} {y = i} (omega arith))
get_or-append (x ∷ xs) ys zero = ground arith
get_or-append (x ∷ xs) ys (suc i) =
    let shift : suc i - suc (length xs) ≡ i - length xs = omega arith in
    let same : ltb (suc i) (suc (length xs)) ≡ ltb i (length xs) = ground arith in
    rw (same, shift) (get_or-append xs ys i)

length-padded : (n : ℕ) (xs : List ℕ) → length xs ≤ n → length (padded n xs) ≡ n
length-padded n xs le = omega (
  arith,
  length-append xs (replicate (n - length xs) (b' ')),
  length-replicate {A = ℕ} (n - length xs) (b' '),
)

IsPlain-append : (xs ys : List ℕ) → IsPlain xs → IsPlain ys → IsPlain (xs ++ ys)
IsPlain-append xs ys p q i lt = elim (Bool-cases (ltb i (length xs))) [
  | inl h ↦ rw (get_or-append xs ys i, h) (p i (ground arith))
  | inr h ↦ rw (get_or-append xs ys i, h) (q (i - length xs) (ground (arith, length-append xs ys)))
]

module _ (buf base extension : List ℕ) (off : ℕ) (p : IsPlain base) (q : IsPlain extension)
    (short : length base ≤ 8) (short' : length extension ≤ 3) (file : is_directory buf off ≡ false)
    (same : (i : ℕ) → i < 11 → byte_at buf (off + i) ≡ get_or (stored base extension) i 0) where
  first_part : (i : ℕ) → i < 8 → byte_at buf (off + i) ≡ get_or (padded 8 base) i 0
  first_part i lt =
      same i (omega arith)
      ∙ get_or-append (padded 8 base) (padded 3 extension) i
      ∙ ground (arith, length-padded 8 base short)

  last_part : (i : ℕ) → i < 3 → byte_at buf (off + 8 + i) ≡ get_or (padded 3 extension) i 0
  last_part i lt =
      let index : 8 + i - length (padded 8 base) ≡ i = omega (arith, length-padded 8 base short) in
      ap (byte_at buf) (omega arith)
      ∙ same (8 + i) (omega arith)
      ∙ get_or-append (padded 8 base) (padded 3 extension) (8 + i)
      ∙ ground (arith, length-padded 8 base short, ap (λ j. get_or (padded 3 extension) j 0) index)

-- The file whose name FAT stores as a base of at most 8 and an extension of at most 3 bytes, each
-- padded with spaces, is listed as the base, and a dot and the extension if that is not empty.
pub entry_name-stored :
    (buf base extension : List ℕ) (off : ℕ)
    → IsPlain base
    → IsPlain extension
    → length base ≤ 8
    → length extension ≤ 3
    → is_directory buf off ≡ false
    → ((i : ℕ) → i < 11 → byte_at buf (off + i) ≡ get_or (stored base extension) i 0)
    → text (entry_name buf off) ≡ shown base extension
unfolding entry_name
entry_name-stored buf base [] off p q short short' file same =
    let space : byte_at buf (off + 8) ≡ b' ' =
      ap (byte_at buf) (omega arith)
      ∙ last_part buf base [] off p q short short' file same 0 (omega arith) in
    rw
      (
        file,
        space,
        until_space-padded 8 off buf base p short
            (first_part buf base [] off p q short short' file same),
      )
      (text-plain base [] p)
entry_name-stored buf base (c ∷ extension) off p q short short' file same =
    let first : byte_at buf (off + 8) ≡ c =
      ap (byte_at buf) (omega arith)
      ∙ last_part buf base (c ∷ extension) off p q short short' file same 0 (omega arith) in
    let other : (c == b' ') ≡ false = ground (arith, (q 0 (omega arith)).1) in
    rw
      (
        file,
        first,
        other,
        until_space-padded 8 off buf base p short
            (first_part buf base (c ∷ extension) off p q short short' file same),
        until_space-padded 3 (off + 8) buf (c ∷ extension) q short'
            (last_part buf base (c ∷ extension) off p q short short' file same),
      )
      (ap text (sym (append_assoc base (b'.' ∷ c ∷ extension) (0 ∷ [])))
        ∙ text-plain (base ++ (b'.' ∷ c ∷ extension)) []
            (IsPlain-append base (b'.' ∷ c ∷ extension) p dotted))
  where
    dotted : IsPlain (b'.' ∷ c ∷ extension)
    dotted zero lt = (omega arith, omega arith)
    dotted (suc i) lt = q i (omega arith)
