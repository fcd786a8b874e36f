-- ===== src/Memory.antt =====
-- Memory as bytes, in the current address space: 64-bit words are stored the low byte first. Every
-- page that the kernel touches here is taken as mapped.
use archarch.Base.{
  ℕ, zero, suc, ◌+◌, ◌*◌, ◌/◌, ◌%◌, ◌^◌, ◌≤◌, ◌<◌, ◌≡◌, refl, ◌∙◌, arith, upd, ◌⊎◌, inl,
}

abbrev pub Memory : Type 0
Memory = ℕ → ℕ

unfoldable pub load_bytes : ℕ → ℕ → Memory → ℕ
load_bytes zero a m = 0
load_bytes (suc n) a m = m a + 256 * load_bytes n (a + 1) m

unfoldable pub store_bytes : ℕ → ℕ → ℕ → Memory → Memory
store_bytes zero a v m = m
store_bytes (suc n) a v m = store_bytes n (a + 1) (v / 256) (upd m a (v % 256))

abbrev pub load64 : ℕ → Memory → ℕ
load64 = load_bytes 8

abbrev pub store64 : ℕ → ℕ → Memory → Memory
store64 = store_bytes 8

abbrev pub store32 : ℕ → ℕ → Memory → Memory
store32 = store_bytes 4

-- A byte outside the range that is stored keeps its value.
pub store_bytes_elsewhere :
    (n a v b : ℕ) (m : Memory) → (b < a) ⊎ (a + n ≤ b) → store_bytes n a v m b ≡ m b
unfolding store_bytes
store_bytes_elsewhere zero a v b m away = refl
store_bytes_elsewhere (suc n) a v b m away =
    store_bytes_elsewhere n (a + 1) (v / 256) b (upd m a (v % 256)) (ground arith) ∙ ground arith

pub load_bytes_same :
    (n a : ℕ) (m m' : Memory)
    → ((b : ℕ) → a ≤ b → b < a + n → m' b ≡ m b)
    → load_bytes n a m' ≡ load_bytes n a m
unfolding load_bytes
load_bytes_same zero a m m' same = refl
load_bytes_same (suc n) a m m' same = ground (
  arith,
  same a (omega arith) (omega arith),
  load_bytes_same n (a + 1) m m' (λ b h h'. same b (omega arith) (omega arith)),
)

-- A load that does not meet a store is not changed by it.
pub load_bytes-store_bytes_apart :
    (n a k b v : ℕ) (m : Memory)
    → (b + k ≤ a) ⊎ (a + n ≤ b)
    → load_bytes n a (store_bytes k b v m) ≡ load_bytes n a m
load_bytes-store_bytes_apart n a k b v m apart =
    load_bytes_same n a m (store_bytes k b v m)
      (λ c h h'. store_bytes_elsewhere k b v c m (ground arith))

power : ℕ → ℕ
power zero = 1
power (suc n) = 256 * power n

load_bytes-store_bytes :
    (n a v : ℕ) (m : Memory) → v < power n → load_bytes n a (store_bytes n a v m) ≡ v
unfolding load_bytes store_bytes power
load_bytes-store_bytes zero a v m h = omega arith
load_bytes-store_bytes (suc n) a v m h =
    let first : store_bytes n (a + 1) (v / 256) (upd m a (v % 256)) a ≡ v % 256 =
      store_bytes_elsewhere n (a + 1) (v / 256) a (upd m a (v % 256)) (inl (omega arith))
      ∙ ground arith in
    let rest = load_bytes-store_bytes n (a + 1) (v / 256) (upd m a (v % 256)) (omega arith) in
    omega (arith, first, rest)

pub load64-store64 : (a v : ℕ) (m : Memory) → v < 2 ^ 64 → load64 a (store64 a v m) ≡ v
unfolding power
load64-store64 a v m h = load_bytes-store_bytes 8 a v m h

pub load32-store32 : (a v : ℕ) (m : Memory) → v < 2 ^ 32 → load_bytes 4 a (store32 a v m) ≡ v
unfolding power
load32-store32 a v m h = load_bytes-store_bytes 4 a v m h
