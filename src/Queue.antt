-- ===== src/Queue.antt =====
-- kernel/src/queue.c: a growable ring of items. `item_size` bytes from `i * item_size` on are the
-- slot `i`; slots that were never written hold what the allocator returned, the argument `junk`.
pub mod Fifo
pub mod Order
pub mod Growth
mod Tests
use ilo_pali.Prelude.{
  ℕ, ◌-◌, ◌+◌, ◌*◌, Bool, true, false, Option, none, some, List, [], ◌∷◌, add64, mul64, leb, ltb,
  ◌==◌, if◌then◌else◌,
}

-- `struct s_queue`
pub record Queue (A : Type 0) : Type 0 where
  pub item_size : ℕ
  pub len : ℕ
  pub cap : ℕ
  pub start : ℕ
  pub end : ℕ
  pub slots : ℕ → A

abbrev pub queue_init_size : ℕ
queue_init_size = 128

pub data Op (A : Type 0) : Type 0 where
  put : A → Op A
  take : Bool → Op A

-- what `queue_dequeue` returns, and what it stores through `data`
abbrev pub Reply : Type 0 → Type 0
Reply A = Bool × Option A

module _ {A : Type 0} where
  pub create_queue : (ℕ → A) → ℕ → Queue A
  create_queue junk item_size = record {
    item_size = item_size;
    len = 0;
    cap = queue_init_size;
    start = 0;
    end = 0;
    slots = junk;
  }

  abbrev pub write_slot : (ℕ → A) → ℕ → A → ℕ → A
  write_slot f i x j = if i == j then x else f j

  -- `realloc` keeps the old slots
  pub grow_queue : (ℕ → A) → Queue A → Queue A
  grow_queue junk q = record q {
    cap = mul64 q.cap 2;
    slots = λ i. if ltb i q.cap then q.slots i else junk i;
  }

  pub queue_len : Queue A → ℕ
  queue_len q = q.len

  -- the part of `queue_enqueue` behind the test for room
  store_end : Queue A → A → Queue A
  store_end q x = record q {
    slots = write_slot q.slots q.end x;
    len = add64 q.len 1;
    end = if leb q.cap (add64 q.end 1) then 0 else add64 q.end 1;
  }

  pub queue_enqueue : (ℕ → A) → Queue A → A → Queue A
  unfolding store_end
  queue_enqueue junk q x = store_end (if leb q.cap q.len then grow_queue junk q else q) x

  -- the part of `queue_dequeue` behind the copy; `len--` runs only at `len ≢ 0`
  drop_start : Queue A → Queue A
  drop_start q = record q {
    len = q.len - 1;
    start = if leb q.cap (add64 q.start 1) then 0 else add64 q.start 1;
  }

  -- `wanted` says that `data` is not NULL
  pub queue_dequeue : Queue A → Bool → Reply A × Queue A
  unfolding drop_start
  queue_dequeue q wanted =
      if q.len == 0
      then ((false, none), q)
      else ((true, if wanted then some (q.slots q.start) else none), drop_start q)

  -- a client's calls in order, with what the dequeues return
  pub run : (ℕ → A) → Queue A → List (Op A) → List (Reply A)
  run junk q [] = []
  run junk q (put x ∷ ops) = run junk (queue_enqueue junk q x) ops
  run junk q (take w ∷ ops) = let (r, q') = queue_dequeue q w in r ∷ run junk q' ops
