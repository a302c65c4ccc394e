-- ===== src/Queue/Order.antt =====
-- Below its capacity the ring of kernel/src/queue.c is the sequence of kernel/src/queue.h.
use ilo_pali.Prelude.{
  ℕ, zero, suc, ◌+◌, ◌-◌, ◌≤◌, ◌<◌, ◌^◌, ◌≡◌, ◌≢◌, refl, Bool, some, none, true, false, none, List,
  [], ◌∷◌, ◌++◌, arith, length, ltb, if◌then◌else◌, tabulate, length-tabulate, tabulate-suc,
  tabulate_congr, ap, ap₂, ◌∙◌, ◌%◌,
}
use ilo_pali.Queue.{
  Queue, Op, put, take, create_queue, queue_len, write_slot, store_end, drop_start, queue_enqueue,
  queue_dequeue, run,
}
use ilo_pali.Queue.Fifo
use ilo_pali.Queue.Fifo.{Fits}

-- a position past the end goes on from the start
abbrev pub around : ℕ → ℕ → ℕ
around cap i = if ltb i cap then i else i - cap

module _ {A : Type 0} where
  pub record IsValid (q : Queue A) : Type 0 where
    pub room : q.len ≤ q.cap
    pub small : q.cap ≤ 2 ^ 62
    pub start_in : q.start < q.cap
    pub end_at : q.end ≡ around q.cap (q.start + q.len)

  -- the items, oldest first
  abbrev pub contents : Queue A → List A
  contents q = tabulate (λ i. q.slots (around q.cap (q.start + i))) q.len

  pub create_queue-IsValid :
      (junk : ℕ → A) (n : ℕ) → IsValid (create_queue junk n) × (contents (create_queue junk n) ≡ [])
  unfolding create_queue
  create_queue-IsValid junk n = (omega arith, refl)

  pub length-contents : (q : Queue A) → length (contents q) ≡ queue_len q
  unfolding queue_len
  length-contents q = length-tabulate _ q.len

  pub enqueue-IsValid :
      (junk : ℕ → A) {q : Queue A} (x : A)
      → IsValid q
      → q.len < q.cap
      → IsValid (queue_enqueue junk q x)
  unfolding queue_enqueue
  enqueue-IsValid junk x v h = ground arith

  pub dequeue-IsValid : {q : Queue A} (w : Bool) → IsValid q → IsValid (queue_dequeue q w).1
  unfolding queue_dequeue
  dequeue-IsValid w v = ground arith

  store_end-contents :
      {q : Queue A} (x : A)
      → IsValid q
      → q.len < q.cap
      → contents (store_end q x) ≡ contents q ++ x ∷ []
  unfolding store_end
  store_end-contents {q} x v h =
      let old : ℕ → A = λ i. q.slots (around q.cap (q.start + i)) in
      let new : ℕ → A = λ i. write_slot q.slots q.end x (around q.cap (q.start + i)) in
      let e : (q.len + 1) % 2 ^ 64 ≡ suc q.len = omega arith in
      let last : new q.len ≡ x = ground arith in
      rw e (
        tabulate-suc new q.len
        ∙ ap₂ (λ l y. l ++ y ∷ []) (tabulate_congr new old q.len (λ i lt. ground arith)) last)

  pub enqueue_refines :
      (junk : ℕ → A) {q : Queue A} (x : A)
      → IsValid q
      → q.len < q.cap
      → contents (queue_enqueue junk q x) ≡ Fifo.enqueue (contents q) x
  unfolding queue_enqueue Fifo.enqueue
  enqueue_refines junk {q} x v h = ground (arith, store_end-contents x v h)

  contents-drop_start :
      {q : Queue A} (n : ℕ)
      → IsValid q
      → q.len ≡ suc n
      → contents (drop_start q) ≡ tabulate (λ i. q.slots (around q.cap (q.start + suc i))) n
  unfolding drop_start
  contents-drop_start {q} n v e =
      let e' : q.len - 1 ≡ n = omega arith in rw e' (tabulate_congr _ _ n (λ i lt. ground arith))

  dequeue-empty : (q : Queue A) (w : Bool) → q.len ≡ 0 → queue_dequeue q w ≡ ((false, none), q)
  unfolding queue_dequeue
  dequeue-empty q w e = ground arith

  dequeue_some :
      (q : Queue A) (w : Bool)
      → q.len ≢ 0
      → queue_dequeue q w ≡ ((true, if w then some (q.slots q.start) else none), drop_start q)
  unfolding queue_dequeue
  dequeue_some q w h = ground arith

  pub dequeue_refines :
      {q : Queue A} (w : Bool)
      → IsValid q
      → let (r, q') = queue_dequeue q w in (r, contents q') ≡ Fifo.dequeue (contents q) w
  unfolding Fifo.dequeue
  dequeue_refines {q} w v = go q.len refl
    where
      first : around q.cap (q.start + 0) ≡ q.start
      first = ground arith

      go :
          (n : ℕ)
          → q.len ≡ n
          → let (r, q') = queue_dequeue q w in (r, contents q') ≡ Fifo.dequeue (contents q) w
      go zero e = rw (dequeue-empty q w e) (rw e refl)
      go (suc n) e =
          rw (dequeue_some q w (omega arith), contents-drop_start n v e) (rw e (rw first refl))

  len-enqueue :
      (junk : ℕ → A) {q : Queue A} (x : A)
      → IsValid q
      → q.len < q.cap
      → (queue_enqueue junk q x).len ≡ suc q.len
  unfolding queue_enqueue
  len-enqueue junk x v h = ground arith

  len-dequeue : (q : Queue A) (w : Bool) → (queue_dequeue q w).1.len ≡ q.len - 1
  unfolding queue_dequeue
  len-dequeue q w = ground arith

  cap-dequeue : (q : Queue A) (w : Bool) → (queue_dequeue q w).1.cap ≡ q.cap
  unfolding queue_dequeue
  cap-dequeue q w = ground arith

  cap-enqueue :
      (junk : ℕ → A) (q : Queue A) (x : A) → q.len < q.cap → (queue_enqueue junk q x).cap ≡ q.cap
  unfolding queue_enqueue
  cap-enqueue junk q x h = ground arith

  -- No sequence of calls that never holds more than the capacity tells a valid ring from the
  -- first-in first-out sequence of its items.
  pub run_refines :
      (junk : ℕ → A) (ops : List (Op A)) (q : Queue A)
      → IsValid q
      → Fits q.cap q.len ops
      → run junk q ops ≡ Fifo.run (contents q) ops
  unfolding run Fifo.run
  run_refines junk [] q v f = refl
  run_refines junk (put x ∷ ops) q v (h, f) =
      run_refines junk ops (queue_enqueue junk q x) (enqueue-IsValid junk x v h)
        (rw (len-enqueue junk x v h, cap-enqueue junk q x h) f)
      ∙ ap (λ l. Fifo.run l ops) (enqueue_refines junk x v h)
  run_refines junk (take w ∷ ops) q v f = rw (
    run_refines junk ops (queue_dequeue q w).1 (dequeue-IsValid w v)
        (rw (len-dequeue q w, cap-dequeue q w) f),
    ← dequeue_refines w v,
  )
