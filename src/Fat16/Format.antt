-- ===== src/Fat16/Format.antt =====
-- The two name formats of fat16.c once more, for all strings: what the loops make of them.
use archarch.Base.{
  ℕ, zero, suc, ◌-◌, ◌≤◌, ◌≡◌, refl, ap, arith, ◌&&◌, ◌==◌, leb, if◌then◌else◌, List, [], ◌∷◌, ◌++◌,
  map, length, take, drop, length-take,
}
use archarch.Fat16.Name.{
  c_string, upper, name_part, skip_to_ext, ext_part, pad, to_fat83, trim, has_ext, fat83_to_str,
}

-- The characters in front of the first `c`.
abbrev pub until : ℕ → List ℕ → List ℕ
until c [] = []
until c (x ∷ xs) = let rest = until c xs in if x == c then [] else x ∷ rest

abbrev pub capital : ℕ → ℕ
capital c = if leb 97 c && leb c 122 then c - 32 else c

abbrev pub spaces : ℕ → List ℕ
spaces zero = []
spaces (suc n) = 32 ∷ spaces n

abbrev pub padded : ℕ → List ℕ → List ℕ
padded n xs = xs ++ spaces (n - length xs)

-- The capitals of the first eight characters before the first dot, and of the first three behind it,
-- each filled up with spaces; the string ends at its NUL.
abbrev pub fat_name : List ℕ → List ℕ
fat_name filename =
    let s = until 0 filename in
    let base = until 46 s in
    padded 8 (map capital (take 8 base))
    ++ padded 3 (map capital (take 3 (drop (suc (length base)) s)))

-- The characters other than spaces.
abbrev pub without_spaces : List ℕ → List ℕ
without_spaces [] = []
without_spaces (x ∷ xs) = let rest = without_spaces xs in if x == 32 then rest else x ∷ rest

-- A dot and the extension, unless that begins with a space.
abbrev pub dotted : List ℕ → List ℕ
dotted [] = []
dotted (x ∷ xs) = if x == 32 then [] else 46 ∷ x ∷ without_spaces xs

abbrev pub printed : (name ext : List ℕ) → List ℕ
printed name ext = until 0 (without_spaces name ++ dotted ext)

c_string-until : (s : List ℕ) → c_string s ≡ until 0 s
unfolding c_string
c_string-until [] = refl
c_string-until (c ∷ s) = ground (arith, c_string-until s)

name_part-until :
    (room : ℕ) (s : List ℕ) → (name_part room s).0 ≡ map capital (take room (until 46 s))
unfolding name_part upper
name_part-until zero s = refl
name_part-until (suc room) [] = refl
name_part-until (suc room) (c ∷ s) = ground (arith, name_part-until room s)

skip_to_ext-drop : (s : List ℕ) → skip_to_ext s ≡ drop (suc (length (until 46 s))) s
unfolding skip_to_ext
skip_to_ext-drop [] = refl
skip_to_ext-drop (c ∷ s) = ground (arith, skip_to_ext-drop s)

skip_to_ext-name_part :
    (room : ℕ) (s : List ℕ) → skip_to_ext (name_part room s).1 ≡ drop (suc (length (until 46 s))) s
unfolding skip_to_ext name_part
skip_to_ext-name_part zero s = skip_to_ext-drop s
skip_to_ext-name_part (suc room) [] = refl
skip_to_ext-name_part (suc room) (c ∷ s) = ground (arith, skip_to_ext-name_part room s)

ext_part-take : (room : ℕ) (s : List ℕ) → ext_part room s ≡ map capital (take room s)
unfolding ext_part upper
ext_part-take zero s = refl
ext_part-take (suc room) [] = refl
ext_part-take (suc room) (c ∷ s) = ap (λ r. upper c ∷ r) (ext_part-take room s)

length-map : (f : ℕ → ℕ) (s : List ℕ) → length (map f s) ≡ length s
length-map f [] = refl
length-map f (c ∷ s) = ap suc (length-map f s)

pad-spaces : (n : ℕ) → pad n [] ≡ spaces n
unfolding pad
pad-spaces zero = refl
pad-spaces (suc n) = ap (λ r. 32 ∷ r) (pad-spaces n)

pad-padded : (n : ℕ) (xs : List ℕ) → length xs ≤ n → pad n xs ≡ padded n xs
unfolding pad
pad-padded zero [] h = refl
pad-padded zero (x ∷ xs) h = absurd (omega arith)
pad-padded (suc n) [] h = let e : suc n - 0 ≡ suc n = omega arith in rw e (pad-spaces (suc n))
pad-padded (suc n) (x ∷ xs) h =
    let e : suc n - suc (length xs) ≡ n - length xs = omega arith in
    rw e (ap (λ r. x ∷ r) (pad-padded n xs (omega arith)))

pad-capitals :
    (n : ℕ) (s : List ℕ) → pad n (map capital (take n s)) ≡ padded n (map capital (take n s))
pad-capitals n s =
    pad-padded n (map capital (take n s))
      (omega (arith, length-map capital (take n s), length-take n s))

pub to_fat83-fat_name : (filename : List ℕ) → to_fat83 filename ≡ fat_name filename
unfolding to_fat83
to_fat83-fat_name filename =
    let s = until 0 filename in
    rw (
      c_string-until filename,
      name_part-until 8 s,
      skip_to_ext-name_part 8 s,
      ext_part-take 3 (drop (suc (length (until 46 s))) s),
      pad-capitals 8 (until 46 s),
      pad-capitals 3 (drop (suc (length (until 46 s))) s),
    )

trim-without_spaces : (s : List ℕ) → trim s ≡ without_spaces s
unfolding trim
trim-without_spaces [] = refl
trim-without_spaces (c ∷ s) = ground (arith, trim-without_spaces s)

ext-dotted : (ext : List ℕ) → (if has_ext ext then 46 ∷ trim ext else []) ≡ dotted ext
unfolding has_ext trim
ext-dotted [] = refl
ext-dotted (c ∷ s) = ground (arith, trim-without_spaces s)

pub fat83_to_str-printed : (name ext : List ℕ) → fat83_to_str name ext ≡ printed name ext
unfolding fat83_to_str
fat83_to_str-printed name ext =
    rw
      (trim-without_spaces name, ext-dotted ext, c_string-until (without_spaces name ++ dotted ext))
