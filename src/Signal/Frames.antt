-- ===== src/Signal/Frames.antt =====
-- The signal frame on the user's stack, slot by slot.
use native.Mathlib.Decide.{ℕ_discrete}
use archarch.Base.{
  ℕ, zero, suc, ◌+◌, ◌*◌, ◌^◌, ◌≤◌, ◌<◌, ◌≡◌, refl, sym, ap, ◌∙◌, arith, ltb, leb, ◌&&◌,
  if◌then◌else◌, upd, inr,
}
use archarch.Memory.{
  Memory, load_bytes, load64, store64, store_bytes_elsewhere, load_bytes-store_bytes_apart,
  load64-store64, load32-store32, load_bytes_same,
}
use archarch.Signal.Deliver.{Regs, save_regs, load_regs, push_frame, signal_return}

-- Every saved register is a 64-bit word.
abbrev pub Words : Regs → Type 0
Words regs = (i : ℕ) → i < 34 → regs i < 2 ^ 64

-- A slot of the frame in front of those that are still saved keeps its word.
save_regs_before :
    (n i j frame : ℕ) (regs : Regs) (m : Memory)
    → j < i
    → load64 (frame + j * 8) (save_regs n i frame regs m) ≡ load64 (frame + j * 8) m
unfolding save_regs
save_regs_before zero i j frame regs m h = refl
save_regs_before (suc n) i j frame regs m h =
    save_regs_before n (i + 1) j frame regs (store64 (frame + i * 8) (regs i) m) (omega arith)
    ∙ load_bytes-store_bytes_apart 8 (frame + j * 8) 8 (frame + i * 8) (regs i) m
        (inr (omega arith))

pub load64-save_regs :
    (n i j frame : ℕ) (regs : Regs) (m : Memory)
    → i ≤ j
    → j < i + n
    → regs j < 2 ^ 64
    → load64 (frame + j * 8) (save_regs n i frame regs m) ≡ regs j
unfolding save_regs
load64-save_regs zero i j frame regs m h h' word = absurd (omega arith)
load64-save_regs (suc n) i j frame regs m h h' word = elim (ℕ_discrete i j) [
  | yes same ↦
      let first : load64 (frame + i * 8) (store64 (frame + i * 8) (regs i) m) ≡ regs i =
        load64-store64 (frame + i * 8) (regs i) m (rw same word) in
      rw (sym same) (
        save_regs_before n (i + 1) i frame regs (store64 (frame + i * 8) (regs i) m) (omega arith)
        ∙ first)
  | no other ↦
      load64-save_regs n (i + 1) j frame regs (store64 (frame + i * 8) (regs i) m)
        (omega (arith, other)) (omega arith) word
]

pub load_regs_lem :
    (n i frame : ℕ) (m : Memory) (regs : Regs) (j : ℕ)
    → load_regs n i frame m regs j
      ≡ (if leb i j && ltb j (i + n) then load64 (frame + j * 8) m else regs j)
unfolding load_regs
load_regs_lem zero i frame m regs j = ground arith
load_regs_lem (suc n) i frame m regs j =
    load_regs_lem n (i + 1) frame m (upd regs i (load64 (frame + i * 8) m)) j ∙ slot
  where
    slot :
        (if leb (i + 1) j && ltb j (i + 1 + n)
          then load64 (frame + j * 8) m
          else upd regs i (load64 (frame + i * 8) m) j)
        ≡ (if leb i j && ltb j (i + suc n) then load64 (frame + j * 8) m else regs j)
    slot = elim (ℕ_discrete i j) [
      | yes same ↦
          let e : load64 (frame + i * 8) m ≡ load64 (frame + j * 8) m =
            ap (λ a. load64 (frame + a * 8) m) same in
          ground (arith, e)
      | no other ↦ ground arith
    ]

module _ (frame sig : ℕ) (regs : Regs) (m : Memory) where
  load64-push_frame :
      (j : ℕ)
      → j < 34
      → regs j < 2 ^ 64
      → load64 (frame + j * 8) (push_frame frame sig regs m) ≡ regs j
  unfolding push_frame
  load64-push_frame j h word =
      load_bytes-store_bytes_apart 8 (frame + j * 8) 4 (frame + 35 * 8 + 4) 0xd4000001 _
        (inr (omega arith))
      ∙ load_bytes-store_bytes_apart 8 (frame + j * 8) 4 (frame + 35 * 8) 0xd2800208 _
          (inr (omega arith))
      ∙ load_bytes-store_bytes_apart 8 (frame + j * 8) 8 (frame + 34 * 8) sig _ (inr (omega arith))
      ∙ load64-save_regs 34 0 j frame regs m (omega arith) (omega arith) word

  pub trampoline :
      (load_bytes 4 (frame + 35 * 8) (push_frame frame sig regs m) ≡ 0xd2800208)
      × (load_bytes 4 (frame + 35 * 8 + 4) (push_frame frame sig regs m) ≡ 0xd4000001)
  unfolding push_frame
  trampoline = (
    load_bytes-store_bytes_apart 4 (frame + 35 * 8) 4 (frame + 35 * 8 + 4) 0xd4000001 _
          (inr (omega arith))
        ∙ load32-store32 (frame + 35 * 8) 0xd2800208 _ (omega arith),
    load32-store32 (frame + 35 * 8 + 4) 0xd4000001 _ (omega arith),
  )

  -- Memory that still holds the saved registers.
  abbrev pub Keeps : Memory → Type 0
  Keeps m' = (b : ℕ) → frame ≤ b → b < frame + 34 * 8 → m' b ≡ push_frame frame sig regs m b

  pub signal_return-push_frame :
      (m' : Memory) (regs' : Regs)
      → Words regs
      → Keeps m'
      → regs' 31 ≡ frame
      → (j : ℕ) → j < 34
      → signal_return m' regs' j ≡ regs j
  unfolding signal_return
  signal_return-push_frame m' regs' words keeps at j h =
      load_regs_lem 34 0 (regs' 31) m' regs' j
      ∙ rw at (
          let same : load64 (frame + j * 8) m'
              ≡ load64 (frame + j * 8) (push_frame frame sig regs m) =
            load_bytes_same 8 (frame + j * 8) (push_frame frame sig regs m) m'
              (λ b low high. keeps b (omega arith) (omega arith)) in
          ground (arith, same, load64-push_frame j h (words j h)))

pub save_regs_elsewhere :
    (n i frame b : ℕ) (regs : Regs) (m : Memory)
    → frame + (i + n) * 8 ≤ b
    → save_regs n i frame regs m b ≡ m b
unfolding save_regs
save_regs_elsewhere zero i frame b regs m above = refl
save_regs_elsewhere (suc n) i frame b regs m above =
    save_regs_elsewhere n (i + 1) frame b regs (store64 (frame + i * 8) (regs i) m) (omega arith)
    ∙ store_bytes_elsewhere 8 (frame + i * 8) (regs i) b m (inr (omega arith))

pub push_frame_elsewhere :
    (frame sig b : ℕ) (regs : Regs) (m : Memory)
    → frame + 288 ≤ b
    → push_frame frame sig regs m b ≡ m b
unfolding push_frame
push_frame_elsewhere frame sig b regs m above =
    store_bytes_elsewhere 4 (frame + 35 * 8 + 4) 0xd4000001 b _ (inr (omega arith))
    ∙ store_bytes_elsewhere 4 (frame + 35 * 8) 0xd2800208 b _ (inr (omega arith))
    ∙ store_bytes_elsewhere 8 (frame + 34 * 8) sig b _ (inr (omega arith))
    ∙ save_regs_elsewhere 34 0 frame b regs m (omega arith)
