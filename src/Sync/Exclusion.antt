-- ===== src/Sync/Exclusion.antt =====
-- The lock of kernel/src/sync.c excludes, and is free whenever nobody is inside.
use ilo_pali.Prelude.{ℕ, ◌≡◌, ◌⊎◌, inl, inr, refl, true, false, arith, Bool-cases}
use ilo_pali.Sync.{
  trying, inside, System, spin_lock_round, spin_unlock, Step, call, round, release, Reach, here,
  then_step, start,
}

pub record IsSafe (s : System) : Type 0 where
  pub alone : (i j : ℕ) → s.phase i ≡ inside → s.phase j ≡ inside → i ≡ j
  pub taken : (i : ℕ) → s.phase i ≡ inside → s.lock ≡ true
  pub owned : s.lock ≡ true → (i : ℕ) × (s.phase i ≡ inside)

start-IsSafe : IsSafe start
start-IsSafe = record { alone = λ i j p q. cc; taken = λ i p. cc; owned = λ e. cc }

Step-IsSafe : {s t : System} → Step s t → IsSafe s → IsSafe t
unfolding spin_lock_round spin_unlock
Step-IsSafe {s} (call i e) v = record {
  alone = λ j k p q. ground (arith, v.alone j k);
  taken = λ j p. ground (arith, v.taken j);
  owned = λ l. let (k, p) = v.owned l in (k, ground arith);
}
Step-IsSafe {s} (round spurious i e) v = record {
  alone = λ j k p q. ground (arith, v.alone j k, v.taken j, v.taken k);
  taken = λ j p. ground (arith, v.taken j);
  owned = λ l. elim (Bool-cases s.lock) [
    | inl old ↦ let (k, p) = v.owned old in (k, ground arith)
    | inr free ↦ (i, ground arith)
  ];
}
Step-IsSafe {s} (release i e) v = record {
  alone = λ j k p q. ground (arith, v.alone i j, v.alone i k);
  taken = λ j p. ground (arith, v.alone i j);
  owned = λ l. cc;
}

-- In every state that the threads can reach at most one of them is inside, one is inside exactly
-- when the lock is taken.
pub mutual_exclusion : {s : System} → Reach start s → IsSafe s
mutual_exclusion here = start-IsSafe
mutual_exclusion (then_step r st) = Step-IsSafe st (mutual_exclusion r)

-- No reachable state is stuck: a thread in the loop of `spin_lock` gets inside by one round, or
-- another thread is inside and by one step leaves the lock free.
pub can_proceed :
    {s : System} (i : ℕ)
    → Reach start s
    → s.phase i ≡ trying
    → ((t : System) × Step s t × (t.phase i ≡ inside))
      ⊎ ((j : ℕ) × (t : System) × (s.phase j ≡ inside) × Step s t × (t.lock ≡ false))
unfolding spin_lock_round spin_unlock
can_proceed {s} i r e = elim (Bool-cases s.lock) [
  | inl l ↦
      let (j, p) = (mutual_exclusion r).owned l in inr (j, spin_unlock j s, p, release j p, refl)
  | inr l ↦ inl (spin_lock_round false i s, round false i e, ground arith)
]
