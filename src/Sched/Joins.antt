-- ===== src/Sched/Joins.antt =====
-- Calls after which the current task goes on: new user tasks join those there are.
use archarch.Base.{
  ℕ, ◌+◌, ◌<◌, ◌≡◌, inl, inr, refl, sym, ◌∙◌, arith, leb, ◌==◌, if◌then◌else◌, Bool-cases,
  Option-cases, List,
}
use archarch.Memory.{Memory}
use archarch.Pmm.{Pmm}
use archarch.Task.{Kernel, Image, sched_max_tasks, ready}
use archarch.Signal.Deliver.{Regs}
use archarch.Sched.Valid.{IsValid, state_of}
use archarch.Sched.User.{
  sched_create_user, sched_fork, enter_user, enter_child, user_task, put_pmm, copy_image, new_image,
  user_code_pages, load_code, space_of,
}

-- `k'` has the tasks of `k`, in the same states.
pub record SameStates (k k' : Kernel) : Type 0 where
  pub count : k'.num_tasks ≡ k.num_tasks
  pub current : k'.current_task ≡ k.current_task
  pub state : (j : ℕ) → state_of k' j ≡ state_of k j

pub SameStates-IsValid : (k k' : Kernel) → SameStates k k' → IsValid k → IsValid k'
SameStates-IsValid k k' s v = record {
  inside = rw (s.current, s.count) v.inside;
  bounded = rw s.count v.bounded;
  current_runs = rw (s.current, s.state k.current_task) v.current_runs;
  one_runs = λ j h. rw (s.current, s.state j) (v.one_runs j h);
  idle_lives = rw (s.state 0) v.idle_lives;
}

-- A kernel in which the current task goes on.
abbrev pub GoesOn : Kernel → Kernel → Type 0
GoesOn k k' = IsValid k' × (k'.current_task ≡ k.current_task)

pub SameStates-GoesOn : (k k' : Kernel) → SameStates k k' → IsValid k → GoesOn k k'
SameStates-GoesOn k k' s v = (SameStates-IsValid k k' s v, s.current)

-- The next table entry becomes a task that is ready.
pub record Joined (k k' : Kernel) : Type 0 where
  pub room : k.num_tasks < sched_max_tasks
  pub count : k'.num_tasks ≡ k.num_tasks + 1
  pub current : k'.current_task ≡ k.current_task
  pub state : (j : ℕ) → state_of k' j ≡ (if k.num_tasks == j then ready else state_of k j)

pub Joined-GoesOn : (k k' : Kernel) → Joined k k' → IsValid k → GoesOn k k'
Joined-GoesOn k k' a v = (
  record {
    inside = rw (a.current, a.count) (omega (arith, v.inside));
    bounded = rw a.count (omega (arith, a.room));
    current_runs =
        rw (a.current, a.state k.current_task) (ground (arith, v.inside, v.current_runs));
    one_runs = λ j h other.
        rw (a.state j) (ground (arith, v.one_runs j h (λ e. other (e ∙ sym a.current))));
    idle_lives = rw (a.state 0) (ground (arith, v.inside, v.idle_lives));
  },
  a.current,
)

module _ (image : Image) where
  module _ (k : Kernel) (v : IsValid k) where
    enter_user-Joined :
        (name : List ℕ) (c n st pgd : ℕ) (p : Pmm)
        → k.num_tasks < sched_max_tasks
        → Joined k (enter_user image name c n st pgd (put_pmm p k)).1
    unfolding enter_user user_task
    enter_user-Joined name c n st pgd p room = record {
      room = room;
      count = refl;
      current = refl;
      state = λ j. ground arith;
    }

    enter_child-Joined :
        (c st pgd : ℕ) (p : Pmm)
        → k.num_tasks < sched_max_tasks
        → Joined k (enter_child image c st pgd (put_pmm p k)).1
    unfolding enter_child user_task
    enter_child-Joined c st pgd p room = record {
      room = room;
      count = refl;
      current = refl;
      state = λ j. ground arith;
    }

    same : (p : Pmm) → GoesOn k (put_pmm p k)
    same p = SameStates-GoesOn k _ (record { count = refl; current = refl; state = λ j. refl }) v

    pub sched_create_user-GoesOn :
        (name : List ℕ) (code size : ℕ) (m : Memory)
        → GoesOn k (sched_create_user image name code size k m).1
    unfolding sched_create_user
    sched_create_user-GoesOn name code size m =
        let n = user_code_pages size in
        let r = new_image n (load_code code size n) (λ dst m. m) (space_of k m) in
        elim (Bool-cases (leb sched_max_tasks k.num_tasks)) [
          | inl full ↦ rw (full, sched_create_user) (v, refl)
          | inr room ↦ elim (Option-cases r.0) [
            | inl e ↦ rw (room, e, sched_create_user) (same r.1.pmm)
            | inr ((c, st, pgd), e) ↦
                rw (room, e, sched_create_user)
                  (Joined-GoesOn k _
                    (enter_user-Joined name c n st pgd r.1.pmm (ground (arith, room))) v)
          ]
        ]

    pub sched_fork-GoesOn : (regs : Regs) (m : Memory) → GoesOn k (sched_fork image regs k m).1
    unfolding sched_fork
    sched_fork-GoesOn regs m =
        let r = copy_image image k m in
        elim (Bool-cases (k.tasks k.current_task).is_user) [
          | inr kernel_task ↦ rw (kernel_task, sched_fork) (v, refl)
          | inl user ↦ elim (Bool-cases (leb sched_max_tasks k.num_tasks)) [
            | inl full ↦ rw (user, full, sched_fork) (v, refl)
            | inr room ↦ elim (Option-cases r.0) [
              | inl e ↦ rw (user, room, e, sched_fork) (same r.1.pmm)
              | inr ((c, st, pgd), e) ↦
                  rw (user, room, e, sched_fork)
                    (Joined-GoesOn k _ (enter_child-Joined c st pgd r.1.pmm (ground (arith, room)))
                      v)
            ]
          ]
        ]
