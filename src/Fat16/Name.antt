-- ===== src/Fat16/Name.antt =====
-- File names: `to_fat83`, `fat83_cmp` and `fat83_to_str` of fat16.c. A string in memory is a list
-- of bytes, and ends at its first NUL, or at the end of the list.
use archarch.Base.{
  ℕ, zero, suc, ◌-◌, Bool, true, false, not, ◌&&◌, ◌==◌, leb, if◌then◌else◌, List, [], ◌∷◌, ◌++◌,
}

abbrev pub space : ℕ
space = b' '

abbrev pub dot : ℕ
dot = b'.'

unfoldable pub upper : ℕ → ℕ
upper c = if leb b'a' c && leb c b'z' then c - 32 else c

-- The characters of a string: `input[i]` is the test of each loop over it.
unfoldable pub c_string : List ℕ → List ℕ
c_string [] = []
c_string (c ∷ s) = let rest = c_string s in if c == 0 then [] else c ∷ rest

-- The first loop: at most `room` characters before a dot, upper case; and what is left.
unfoldable pub name_part : ℕ → List ℕ → List ℕ × List ℕ
unfolding upper
name_part zero s = ([], s)
name_part (suc room) [] = ([], [])
name_part (suc room) (c ∷ s) =
    let (out, rest) = name_part room s in if c == dot then ([], c ∷ s) else (upper c ∷ out, rest)

-- The second loop, and the step over the dot.
unfoldable pub skip_to_ext : List ℕ → List ℕ
skip_to_ext [] = []
skip_to_ext (c ∷ s) = if c == dot then s else skip_to_ext s

-- The third loop: at most `room` characters, dots included.
unfoldable pub ext_part : ℕ → List ℕ → List ℕ
unfolding upper
ext_part zero s = []
ext_part (suc room) [] = []
ext_part (suc room) (c ∷ s) = upper c ∷ ext_part room s

-- The field of width `n` that was filled with spaces before `xs` was written.
unfoldable pub pad : ℕ → List ℕ → List ℕ
pad zero xs = []
pad (suc n) [] = space ∷ pad n []
pad (suc n) (x ∷ xs) = x ∷ pad n xs

unfoldable pub to_fat83 : List ℕ → List ℕ
unfolding c_string name_part skip_to_ext ext_part pad
to_fat83 input =
    let (name, rest) = name_part 8 (c_string input) in
    pad 8 name ++ pad 3 (ext_part 3 (skip_to_ext rest))

-- `fat83_cmp` looks at eleven characters of each.
unfoldable pub fat83_cmp : List ℕ → List ℕ → Bool
fat83_cmp [] [] = true
fat83_cmp [] (b ∷ bs) = false
fat83_cmp (a ∷ as') [] = false
fat83_cmp (a ∷ as') (b ∷ bs) = a == b && fat83_cmp as' bs

-- The characters that are not spaces, wherever they stand.
unfoldable pub trim : List ℕ → List ℕ
trim [] = []
trim (c ∷ s) = let rest = trim s in if c == space then rest else c ∷ rest

-- `de->ext[0] != ' '`
unfoldable pub has_ext : List ℕ → Bool
has_ext [] = false
has_ext (c ∷ s) = not (c == space)

-- The string that is written, which ends at a NUL among the bytes of the entry.
unfoldable pub fat83_to_str : List ℕ → List ℕ → List ℕ
unfolding c_string trim has_ext
fat83_to_str name ext = c_string (trim name ++ (if has_ext ext then dot ∷ trim ext else []))
