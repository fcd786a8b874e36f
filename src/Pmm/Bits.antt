-- ===== src/Pmm/Bits.antt =====
-- The bit operations of pmm.c, read as writes of one page's bit.
use Prim.Native.Nat.{bit_and, bit_or}
use archarch.Base.{
  ℕ, ◌-◌, ◌/◌, ◌%◌, ◌^◌, ◌<◌, ◌≡◌, refl, arith, Bool, true, false, ◌&&◌, ◌==◌, ltb, if◌then◌else◌,
  all_below, all_below_sound,
}
use archarch.Pmm.{Pmm, bit_set, bit_clear, bit_test}

bool_eq : Bool → Bool → Bool
bool_eq true b = b
bool_eq false true = false
bool_eq false false = true

bool_eq_sound : (a b : Bool) → bool_eq a b ≡ true → a ≡ b
unfolding bool_eq
bool_eq_sound a b h = ground arith

abbrev bit_of : ℕ → ℕ → Bool
bit_of b j = b / 2 ^ j % 2 == 1

-- One row of the tables: bit `j` of `b` after bit `k` is set, and after it is cleared.
row : ℕ → ℕ → ℕ → Bool
row b j k =
    bool_eq (bit_of (bit_or b (2 ^ k) % 256) j) (if k == j then true else bit_of b j)
    && bool_eq (bit_of (bit_and b (255 - 2 ^ k)) j) (if k == j then false else bit_of b j)
    && ltb (bit_and b (255 - 2 ^ k)) 256

table : all_below 256 (λ b. all_below 8 (λ j. all_below 8 (λ k. row b j k))) ≡ true
unfolding all_below row bool_eq
table = refl

row_lem : (b j k : ℕ) → b < 256 → j < 8 → k < 8 → row b j k ≡ true
row_lem b j k hb hj hk =
    all_below_sound 8 (λ k. row b j k) k
      (all_below_sound 8 (λ j. all_below 8 (λ k. row b j k)) j
        (all_below_sound 256 (λ b. all_below 8 (λ j. all_below 8 (λ k. row b j k))) b table hb) hj)
      hk

module _ (b j k : ℕ) (hb : b < 256) (hj : j < 8) (hk : k < 8) where
  bit_of-or : bit_of (bit_or b (2 ^ k) % 256) j ≡ (if k == j then true else bit_of b j)
  unfolding row
  bit_of-or = bool_eq_sound _ _ (ground (arith, row_lem b j k hb hj hk))

  bit_of-and : bit_of (bit_and b (255 - 2 ^ k)) j ≡ (if k == j then false else bit_of b j)
  unfolding row
  bit_of-and = bool_eq_sound _ _ (ground (arith, row_lem b j k hb hj hk))

  bit_and-lt : bit_and b (255 - 2 ^ k) < 256
  unfolding row
  bit_and-lt = ground (arith, row_lem b j k hb hj hk)

-- The bitmap holds bytes.
abbrev pub IsBytes : Pmm → Type 0
IsBytes p = (i : ℕ) → p.bitmap i < 256

-- Setting a page's bit is seen at that page alone.
pub bit_test-bit_set :
    (page j : ℕ) (p : Pmm)
    → IsBytes p
    → bit_test j (bit_set page p) ≡ (if page == j then true else bit_test j p)
unfolding bit_test bit_set
bit_test-bit_set page j p bytes =
    ground (arith, bit_of-or (p.bitmap (j / 8)) (j % 8) (page % 8) (bytes (j / 8)))

pub bit_test-bit_clear :
    (page j : ℕ) (p : Pmm)
    → IsBytes p
    → bit_test j (bit_clear page p) ≡ (if page == j then false else bit_test j p)
unfolding bit_test bit_clear
bit_test-bit_clear page j p bytes =
    ground (arith, bit_of-and (p.bitmap (j / 8)) (j % 8) (page % 8) (bytes (j / 8)))

pub bit_set-IsBytes : (page : ℕ) (p : Pmm) → IsBytes p → IsBytes (bit_set page p)
unfolding bit_set
bit_set-IsBytes page p bytes i = ground (arith, bytes i)

pub bit_clear-IsBytes : (page : ℕ) (p : Pmm) → IsBytes p → IsBytes (bit_clear page p)
unfolding bit_clear
bit_clear-IsBytes page p bytes i =
    ground (arith, bytes i, bit_and-lt (p.bitmap i) 0 (page % 8) (bytes i))
