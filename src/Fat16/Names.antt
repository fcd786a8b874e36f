-- ===== src/Fat16/Names.antt =====
-- The two name formats of fat16.c, forth and back.
use archarch.Base.{
  ℕ, zero, suc, ◌≤◌, ◌≡◌, ◌≢◌, refl, ap, arith, true, ==_ne, ==_refl, List, [], ◌∷◌, ◌++◌, length,
}
use archarch.Fat16.Name.{
  space, dot, upper, c_string, name_part, skip_to_ext, ext_part, pad, to_fat83, fat83_cmp, trim,
  has_ext, fat83_to_str,
}

-- A character that a name may have in the directory: no space, no small letter, no NUL.
abbrev pub IsStored : ℕ → Type 0
IsStored c = (c ≢ space) × (upper c ≡ c) × (c ≢ 0)

-- The characters of an extension, and those of a name, which are no dots either.
abbrev pub IsExt : List ℕ → Type 0
IsExt [] = Unit {0}
IsExt (c ∷ s) = IsStored c × IsExt s

abbrev pub IsName : List ℕ → Type 0
IsName [] = Unit {0}
IsName (c ∷ s) = IsStored c × (c ≢ dot) × IsName s

IsName-IsExt : (s : List ℕ) → IsName s → IsExt s
IsName-IsExt [] h = tt
IsName-IsExt (c ∷ s) h = (h.0, IsName-IsExt s h.2)

pub length-pad : (n : ℕ) (xs : List ℕ) → length (pad n xs) ≡ n
unfolding pad
length-pad zero xs = refl
length-pad (suc n) [] = ap suc (length-pad n [])
length-pad (suc n) (x ∷ xs) = ap suc (length-pad n xs)

trim-pad_nil : (n : ℕ) → trim (pad n []) ≡ []
unfolding trim pad
trim-pad_nil zero = refl
trim-pad_nil (suc n) = trim-pad_nil n

trim-pad : (n : ℕ) (xs : List ℕ) → length xs ≤ n → IsExt xs → trim (pad n xs) ≡ xs
unfolding trim pad
trim-pad n [] h ok = trim-pad_nil n
trim-pad zero (x ∷ xs) h ok = absurd (omega arith)
trim-pad (suc n) (x ∷ xs) h ok =
    rw (==_ne x space ok.0.0) (ap (λ r. x ∷ r) (trim-pad n xs (omega arith) ok.1))

-- What may follow a name: nothing, or a dot and the extension.
abbrev tail_of : List ℕ → List ℕ
tail_of [] = []
tail_of (y ∷ ys) = dot ∷ y ∷ ys

name_part_lem :
    (room : ℕ) (xs ys : List ℕ)
    → length xs ≤ room
    → IsName xs
    → name_part room (xs ++ tail_of ys) ≡ (xs, tail_of ys)
unfolding name_part
name_part_lem zero [] ys h ok = refl
name_part_lem (suc room) [] [] h ok = refl
name_part_lem (suc room) [] (y ∷ ys) h ok = refl
name_part_lem zero (x ∷ xs) ys h ok = absurd (omega arith)
name_part_lem (suc room) (x ∷ xs) ys h ok =
    rw (==_ne x dot ok.1, name_part_lem room xs ys (omega arith) ok.2, ok.0.1)

ext_part_lem : (room : ℕ) (ys : List ℕ) → length ys ≤ room → IsExt ys → ext_part room ys ≡ ys
unfolding ext_part
ext_part_lem zero [] h ok = refl
ext_part_lem (suc room) [] h ok = refl
ext_part_lem zero (y ∷ ys) h ok = absurd (omega arith)
ext_part_lem (suc room) (y ∷ ys) h ok =
    rw (ok.0.1) (ap (λ r. y ∷ r) (ext_part_lem room ys (omega arith) ok.1))

skip_to_ext-tail_of : (ys : List ℕ) → skip_to_ext (tail_of ys) ≡ ys
unfolding skip_to_ext
skip_to_ext-tail_of [] = refl
skip_to_ext-tail_of (y ∷ ys) = refl

c_string_ext : (ys : List ℕ) → IsExt ys → c_string ys ≡ ys
unfolding c_string
c_string_ext [] ok = refl
c_string_ext (y ∷ ys) ok = rw (==_ne y 0 ok.0.2) (ap (λ r. y ∷ r) (c_string_ext ys ok.1))

-- A name and its extension hold no NUL.
c_string_lem :
    (xs ys : List ℕ) → IsExt xs → IsExt ys → c_string (xs ++ tail_of ys) ≡ xs ++ tail_of ys
unfolding c_string
c_string_lem [] [] ox oy = refl
c_string_lem [] (y ∷ ys) ox oy = ap (λ r. dot ∷ r) (c_string_ext (y ∷ ys) oy)
c_string_lem (x ∷ xs) ys ox oy =
    rw (==_ne x 0 ox.0.2) (ap (λ r. x ∷ r) (c_string_lem xs ys ox.1 oy))

fat83_to_str-pad :
    (xs ys : List ℕ)
    → length xs ≤ 8
    → length ys ≤ 3
    → IsExt xs
    → IsExt ys
    → fat83_to_str (pad 8 xs) (pad 3 ys) ≡ xs ++ tail_of ys
unfolding fat83_to_str pad
fat83_to_str-pad xs [] hx hy ox oy = rw (trim-pad 8 xs hx ox) (c_string_lem xs [] ox oy)
fat83_to_str-pad xs (y ∷ ys) hx hy ox oy =
    let first : has_ext (pad 3 (y ∷ ys)) ≡ true = rw (has_ext, pad, ==_ne y space oy.0.0) in
    rw (trim-pad 8 xs hx ox, first, trim-pad 3 (y ∷ ys) hy oy) (c_string_lem xs (y ∷ ys) ox oy)

-- `to_fat83` takes the printed name of a directory entry back to the entry's eleven characters, if
-- these are a name of at most eight and an extension of at most three characters, padded with
-- spaces, without small letters, spaces or NULs inside, and without a dot in the name.
pub to_fat83-fat83_to_str :
    (xs ys : List ℕ)
    → length xs ≤ 8
    → length ys ≤ 3
    → IsName xs
    → IsExt ys
    → to_fat83 (fat83_to_str (pad 8 xs) (pad 3 ys)) ≡ pad 8 xs ++ pad 3 ys
unfolding to_fat83
to_fat83-fat83_to_str xs ys hx hy ox oy = rw (
  fat83_to_str-pad xs ys hx hy (IsName-IsExt xs ox) oy,
  c_string_lem xs ys (IsName-IsExt xs ox) oy,
  name_part_lem 8 xs ys hx ox,
  skip_to_ext-tail_of ys,
  ext_part_lem 3 ys hy oy,
)

-- `fat83_cmp` decides equality.
pub fat83_cmp_sound : (xs ys : List ℕ) → fat83_cmp xs ys ≡ true → xs ≡ ys
unfolding fat83_cmp
fat83_cmp_sound [] [] h = refl
fat83_cmp_sound [] (y ∷ ys) h = cc
fat83_cmp_sound (x ∷ xs) [] h = cc
fat83_cmp_sound (x ∷ xs) (y ∷ ys) h = ground (arith, fat83_cmp_sound xs ys)

pub fat83_cmp_refl : (xs : List ℕ) → fat83_cmp xs xs ≡ true
unfolding fat83_cmp
fat83_cmp_refl [] = refl
fat83_cmp_refl (x ∷ xs) = rw (==_refl x) (fat83_cmp_refl xs)
