-- ===== src/Queue/Growth.antt =====
-- `grow_queue` of kernel/src/queue.c leaves `end` where it is, on the oldest item.
use ilo_pali.Prelude.{ℕ, ◌≡◌, true, some, arith}
use ilo_pali.Queue.{Queue, store_end, grow_queue, queue_enqueue, queue_dequeue}
use ilo_pali.Queue.Order.{IsValid}

module _ {A : Type 0} where
  -- An enqueue on a full ring writes over the oldest item: the next dequeue returns the item that
  -- was enqueued last in place of the oldest one, and the ring is no longer valid.
  pub enqueue-full :
      (junk : ℕ → A) {q : Queue A} (x : A)
      → IsValid q
      → q.len ≡ q.cap
      → ((queue_dequeue (queue_enqueue junk q x) true).0 ≡ (true, some x))
        × ((queue_dequeue q true).0 ≡ (true, some (q.slots q.start)))
        × ¬ IsValid (queue_enqueue junk q x)
  unfolding queue_enqueue queue_dequeue store_end grow_queue
  enqueue-full junk x v full = (ground arith, ground arith, λ w. ground arith)
