-- ===== src/Sched/Pick.antt =====
-- `pick_next`: which task runs next.
use native.Mathlib.Nat.{mod-lt}
use native.Mathlib.Decide.{ℕ_discrete}
use mathlib.Core.Path.{subst}
use archarch.Base.{
  ℕ, zero, suc, ◌+◌, ◌%◌, ◌≤◌, ◌<◌, ◌≡◌, refl, arith, Bool, true, false, if◌then◌else◌, Option,
  none, some, Option-cases, inl, inr, ◌⊎◌, Bool-cases,
}
use archarch.Task.{Kernel, is_ready, is_running}
use archarch.Sched.{pick_from, pick_next}

-- The task `i` places after the current one, round the table.
abbrev pub place : Kernel → ℕ → ℕ
place k i = (k.current_task + i) % k.num_tasks

abbrev pub ready_at : Kernel → ℕ → Bool
ready_at k i = is_ready (k.tasks (place k i)).state

-- Of the places from `first` to `last - 1`, `i` is the first with a task that is ready.
abbrev pub FirstReady : Kernel → ℕ → ℕ → ℕ → Type 0
FirstReady k first last i =
    (first ≤ i)
    × (i < last)
    × (ready_at k i ≡ true)
    × ((j : ℕ) → first ≤ j → j < i → ready_at k j ≡ false)

abbrev pub NoneReady : Kernel → ℕ → ℕ → Type 0
NoneReady k first last = (j : ℕ) → first ≤ j → j < last → ready_at k j ≡ false

abbrev pub Scanned : Kernel → ℕ → ℕ → Option ℕ → Type 0
Scanned k first last none = NoneReady k first last
Scanned k first last (some next) = (i : ℕ) × (next ≡ place k i) × FirstReady k first last i

Scanned-step :
    (k : Kernel) (i last : ℕ) (r : Option ℕ)
    → ready_at k i ≡ false
    → Scanned k (i + 1) last r
    → Scanned k i last r
Scanned-step k i last none e s =
    λ j h h'. elim (ℕ_discrete j i) [ yes same ↦ rw same e | no other ↦ s j (omega arith) h' ]
Scanned-step k i last (some next) e (m, is, (above, below, found, before)) = (
  m,
  is,
  (
    omega arith,
    below,
    found,
    λ j h h'. elim (ℕ_discrete j i) [ yes same ↦ rw same e | no other ↦ before j (omega arith) h' ],
  ),
)

pub pick_from-Scanned :
    (n i last : ℕ) (k : Kernel) → i + n ≡ last → Scanned k i last (pick_from n i k)
unfolding pick_from
pick_from-Scanned zero i last k e = λ j h h'. absurd (omega arith)
pick_from-Scanned (suc n) i last k e = elim (Bool-cases (ready_at k i)) [
  | inl found ↦
      rw (found, pick_from)
        (i, refl, (omega arith, omega arith, found, λ j h h'. absurd (omega arith)))
  | inr other ↦
      rw (other, pick_from)
        (Scanned-step k i last _ other (pick_from-Scanned n (i + 1) last k (omega arith)))
]

-- What `pick_next` promises.
abbrev pub Picked : Kernel → ℕ → Type 0
Picked k next =
    ((i : ℕ) × (next ≡ place k i) × FirstReady k 1 (k.num_tasks + 1) i)
    ⊎ (NoneReady k 1 (k.num_tasks + 1)
        × (next ≡ (if is_running (k.tasks k.current_task).state then k.current_task else 0)))

-- `pick_next` takes the first task that is ready in the order of the table from the one behind the
-- current task round to the current one; with none, the current task if it is running, else task 0.
pub pick_next-Picked : (k : Kernel) → Picked k (pick_next k)
unfolding pick_next
pick_next-Picked k = elim (Option-cases (pick_from k.num_tasks 1 k)) [
  | inl e ↦
      rw (e, pick_next)
        (inr (
          subst (Scanned k 1 (k.num_tasks + 1)) e
              (pick_from-Scanned k.num_tasks 1 (k.num_tasks + 1) k (omega arith)),
          refl,
        ))
  | inr (next, e) ↦
      rw (e, pick_next)
        (inl (
          subst (Scanned k 1 (k.num_tasks + 1)) e
            (pick_from-Scanned k.num_tasks 1 (k.num_tasks + 1) k (omega arith))))
]

pub pick_next-lt : (k : Kernel) → k.current_task < k.num_tasks → pick_next k < k.num_tasks
pick_next-lt k inside = elim (pick_next-Picked k) [
  | inl (i, is, f) ↦ rw is (mod-lt (k.current_task + i) (omega arith))
  | inr (none_ready, is) ↦ ground arith
]
