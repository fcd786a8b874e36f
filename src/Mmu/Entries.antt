-- ===== src/Mmu/Entries.antt =====
-- Reading and writing table entries, and the bits of the entries that mmu.c writes.
use archarch.Base.{
  ℕ, zero, suc, ◌+◌, ◌-◌, ◌*◌, ◌/◌, ◌%◌, ◌^◌, ◌≤◌, ◌<◌, ◌≡◌, ◌≢◌, ◌⊎◌, inl, inr, refl, ◌∙◌, arith,
  true, ◌&&◌, ltb, leb, ◌==◌, if◌then◌else◌,
}
use native.Mathlib.Decide.{ℕ_discrete}
use archarch.Base.Word.{add64, mul32}
use archarch.Memory.{Memory, load_bytes-store_bytes_apart, load64-store64}
use archarch.Pmm.{page_size}
use archarch.Mmu.{
  entry, set_entry, or_bit, table_entry, page_entry, is_table, target, zero_from, zero_table,
  map_from,
}

abbrev pub IsAligned : ℕ → Type 0
IsAligned a = a % 4096 ≡ 0

pub entry-set_entry_same : (t i v : ℕ) (m : Memory) → v < 2 ^ 64 → entry t i (set_entry t i v m) ≡ v
unfolding entry set_entry
entry-set_entry_same t i v m h = load64-store64 (t + i * 8) v m h

pub entry-set_entry_other :
    (t i u j v : ℕ) (m : Memory)
    → IsAligned t
    → IsAligned u
    → i < 512
    → j < 512
    → (t ≢ u) ⊎ (i ≢ j)
    → entry u j (set_entry t i v m) ≡ entry u j m
unfolding entry set_entry
entry-set_entry_other t i u j v m ht hu hi hj apart =
    load_bytes-store_bytes_apart 8 (u + j * 8) 8 (t + i * 8) v m (ground (arith, apart))

-- What a write of one entry does to every entry.
pub entry-set_entry :
    (t i u j v : ℕ) (m : Memory)
    → IsAligned t
    → IsAligned u
    → i < 512
    → j < 512
    → v < 2 ^ 64
    → entry u j (set_entry t i v m) ≡ (if t == u && i == j then v else entry u j m)
entry-set_entry t i u j v m ht hu hi hj hv = elim (ℕ_discrete t u) [
  | no ne ↦ entry-set_entry_other t i u j v m ht hu hi hj (inl ne) ∙ ground (arith, ne)
  | yes e ↦ elim (ℕ_discrete i j) [
    | no ne ↦ entry-set_entry_other t i u j v m ht hu hi hj (inr ne) ∙ ground (arith, ne)
    | yes e' ↦ rw (e, e') (entry-set_entry_same u j v m hv ∙ ground arith)
  ]
]

-- The entries of a page, which may be the one that is cleared.
pub entry-zero_from :
    (n i t u j : ℕ) (m : Memory)
    → IsAligned t
    → IsAligned u
    → j < 512
    → i + n ≤ 512
    → entry u j (zero_from n i t m)
      ≡ (if t == u && leb i j && ltb j (i + n) then 0 else entry u j m)
unfolding zero_from
entry-zero_from zero i t u j m ht hu hj fits = ground arith
entry-zero_from (suc n) i t u j m ht hu hj fits = ground (
  arith,
  entry-zero_from n (i + 1) t u j (set_entry t i 0 m) ht hu hj (omega arith),
  entry-set_entry t i u j 0 m ht hu (omega arith) hj (omega arith),
)

pub entry-zero_table :
    (t u j : ℕ) (m : Memory)
    → IsAligned t
    → IsAligned u
    → j < 512
    → entry u j (zero_table t m) ≡ (if t == u then 0 else entry u j m)
unfolding zero_table
entry-zero_table t u j m ht hu hj =
    entry-zero_from 512 0 t u j m ht hu hj (omega arith) ∙ ground arith

or_bit_clear : (k a b : ℕ) → a / 2 ^ k % 2 ≡ 0 → a + 2 ^ k ≡ b → or_bit k a ≡ b
unfolding or_bit
or_bit_clear k a b h e = ground (arith, h, e)

table_entry_lem : (pa : ℕ) → IsAligned pa → table_entry pa ≡ pa + 3
unfolding table_entry
table_entry_lem pa h =
    rw
      (
        or_bit_clear 0 pa (pa + 1) (omega arith) (omega arith),
        or_bit_clear 1 (pa + 1) (pa + 3) (omega arith) (omega arith),
      )
      refl

page_entry_lem : (pa : ℕ) → IsAligned pa → pa < 2 ^ 48 → page_entry pa ≡ pa + 9007199254742855
unfolding page_entry
page_entry_lem pa h lo =
    rw
      (
        or_bit_clear 0 pa (pa + 1) (omega arith) (omega arith),
        or_bit_clear 1 (pa + 1) (pa + 3) (omega arith) (omega arith),
        or_bit_clear 10 (pa + 3) (pa + 1027) (omega arith) (omega arith),
        or_bit_clear 2 (pa + 1027) (pa + 1031) (omega arith) (omega arith),
        or_bit_clear 8 (pa + 1031) (pa + 1287) (omega arith) (omega arith),
        or_bit_clear 9 (pa + 1287) (pa + 1799) (omega arith) (omega arith),
        or_bit_clear 6 (pa + 1799) (pa + 1863) (omega arith) (omega arith),
        or_bit_clear 53 (pa + 1863) (pa + 9007199254742855) (omega arith) (omega arith),
      )
      refl

-- What the walk reads of an entry that names the table or the page at `pa`: bits 47 to 12.
abbrev pub out_address : ℕ → ℕ
out_address e = e / 4096 % 2 ^ 36 * 4096

-- The entry of an aligned address below 2^48 is valid and gives the address back.
pub record Names (e pa : ℕ) : Type 0 where
  pub word : e < 2 ^ 64
  pub valid : is_table e ≡ true
  pub out : out_address e ≡ pa

pub table_entry-Names :
    (pa : ℕ)
    → IsAligned pa
    → pa < 2 ^ 48
    → Names (table_entry pa) pa × (target (table_entry pa) ≡ pa)
table_entry-Names pa h lo =
    rw (table_entry_lem pa h)
      (record { word = omega arith; valid = ground arith; out = omega arith }, omega arith)

pub page_entry-Names : (pa : ℕ) → IsAligned pa → pa < 2 ^ 48 → Names (page_entry pa) pa
page_entry-Names pa h lo =
    rw (page_entry_lem pa h lo)
      (record { word = omega arith; valid = ground arith; out = omega arith })

-- What the loops that map pages leave, where page `p` has the entry `c + p`.
pub entry-map_from :
    (n p c : ℕ) (at : ℕ → ℕ) (pa t u j : ℕ) (m : Memory)
    → ((q : ℕ) → q < 512 → c + q < 512 → at q ≡ c + q)
    → IsAligned pa
    → pa + 512 * 4096 ≤ 2 ^ 48
    → IsAligned t
    → IsAligned u
    → j < 512
    → c + p + n ≤ 512
    → entry u j (map_from n p at pa t m) ≡ (
        if t == u && leb (c + p) j && ltb j (c + p + n)
        then page_entry (pa + (j - c) * 4096)
        else entry u j m)
unfolding map_from
entry-map_from zero p c at pa t u j m step hp lo ht hu hj fits = ground arith
entry-map_from (suc n) p c at pa t u j m step hp lo ht hu hj fits =
    let here : add64 pa (mul32 p page_size) ≡ pa + p * 4096 = omega arith in
    rw (here, step p (omega arith) (omega arith), map_from)
      (ground (
        arith,
        entry-map_from n (p + 1) c at pa t u j (set_entry t (c + p) (page_entry (pa + p * 4096)) m)
            step hp lo ht hu hj (omega arith),
        entry-set_entry t (c + p) u j (page_entry (pa + p * 4096)) m ht hu (omega arith) hj
            ((page_entry-Names (pa + p * 4096) (omega arith) (omega arith)).word),
      ))
