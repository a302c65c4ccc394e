-- ===== src/Sync.antt =====
-- kernel/src/sync.c: the spin lock, with any number of threads that take and release it.
pub mod Exclusion
mod Tests
use ilo_pali.Prelude.{ℕ, ◌≡◌, Bool, true, false, ◌==◌, if◌then◌else◌}

-- where a thread stands: outside, in the loop of `spin_lock`, or between it and `spin_unlock`
pub data Phase : Type 0 where
  outside trying inside : Phase

pub record System : Type 0 where
  pub lock : Bool
  pub phase : ℕ → Phase

-- `atomic_compare_exchange_weak(lock, &expected, true)` with `expected` false: whether it succeeds,
-- and the lock after it. It may fail for no reason, as `spurious` says.
unfoldable pub compare_exchange : Bool → Bool → Bool × Bool
compare_exchange spurious lock =
    if spurious then (false, lock) else if lock then (false, lock) else (true, true)

abbrev pub move : System → ℕ → Phase → ℕ → Phase
move s i p j = if i == j then p else s.phase j

-- one round of the loop of `spin_lock`
pub spin_lock_round : Bool → ℕ → System → System
unfolding compare_exchange
spin_lock_round spurious i s =
    let (done, lock') = compare_exchange spurious s.lock in
    record { lock = lock'; phase = move s i (if done then inside else trying) }

-- `atomic_exchange(lock, false)`
pub spin_unlock : ℕ → System → System
spin_unlock i s = record { lock = false; phase = move s i outside }

pub data Step (s : System) : System → Type 0 where
  call : (i : ℕ) → s.phase i ≡ outside → Step s (record s { phase = move s i trying })
  round : (spurious : Bool) (i : ℕ) → s.phase i ≡ trying → Step s (spin_lock_round spurious i s)
  release : (i : ℕ) → s.phase i ≡ inside → Step s (spin_unlock i s)

pub data Reach (s : System) : System → Type 0 where
  here : Reach s s
  then_step : {t u : System} → Reach s t → Step t u → Reach s u

-- `DEFINE_SPINLOCK`, with no thread inside
abbrev pub start : System
start = record { lock = false; phase = λ i. outside }
