-- ===== src/Malloc/Unlink.antt =====
-- `free` of kernel/src/memory.c takes a bucket out of the list of used ones.
use ilo_pali.Prelude.{
  ℕ, ◌≡◌, ◌≢◌, ◌∙◌, sym, refl, true, false, List, [], ◌∷◌, ◌++◌, ◌==◌, if◌then◌else◌, arith,
  if_true, if_false,
}
use ilo_pali.Malloc.{put_at, Heap, unlink}
use ilo_pali.Malloc.Linked.{
  All, none_left, one_more, Without, Distinct, item, Linked, no_bucket, bucket, All-append_left,
  All-append_right, put-other, put_at-other, put_at-same, Linked-elsewhere, Linked-behind,
  prev-front,
}

-- where the list starts without the bucket behind `xs`
abbrev head_without : List ℕ → ℕ → ℕ → ℕ
head_without [] p after = after
head_without (x ∷ xs) p after = p

first_other :
    {next prev : ℕ → ℕ} {before p y : ℕ} (ys : List ℕ)
    → Linked next prev before p ys
    → y ≢ 0
    → Without y ys
    → p ≢ y
first_other [] (no_bucket before) nz w same = nz (sym same)
first_other (x ∷ xs) (bucket before _ q _ pz e f l) nz (one_more _ _ h w) same = h same

next-back :
    {next prev : ℕ → ℕ} {before p : ℕ} (y : ℕ) (xs : List ℕ) (q : ℕ) (ys : List ℕ)
    → Linked next prev before p (xs ++ q ∷ ys)
    → y ≢ 0
    → Without y (xs ++ q ∷ ys)
    → next q ≢ y
next-back y [] q ys (bucket before _ _ _ pz e f l) nz (one_more _ _ h w) same =
    first_other ys l nz w (sym f ∙ same)
next-back y (x ∷ xs) q ys (bucket before _ _ _ pz e f l) nz (one_more _ _ h w) same =
    next-back y xs q ys l nz w same

pub first_differs : {P : ℕ → Type 0} {q : ℕ} {ys : List ℕ} → All P (q ∷ ys) → P q
first_differs (one_more _ _ h w) = h

at_head : (q : ℕ) → (q == q) ≡ true
at_head q = ground arith

behind_head : (q x : ℕ) → q ≢ x → (q == x) ≡ false
behind_head q x ne = ground arith

pub Distinct-middle :
    (xs : List ℕ) (q : ℕ) (ys : List ℕ) → Distinct (xs ++ q ∷ ys) → Without q (xs ++ ys)
Distinct-middle [] q ys (item _ _ w d) = w
Distinct-middle (x ∷ xs) q ys (item _ _ w d) =
    one_more x _ (λ e. first_differs (All-append_right xs (q ∷ ys) w) (sym e))
      (Distinct-middle xs q ys d)

module _ (next prev : ℕ → ℕ) (q : ℕ) (ys : List ℕ) where
  abbrev next' : ℕ → ℕ
  next' = put_at next (prev q) (next q)

  abbrev prev' : ℕ → ℕ
  prev' = put_at prev (next q) (prev q)

  -- what the predecessor of the rest is linked to
  next'-head :
      {p : ℕ} (x : ℕ) (xs : List ℕ)
      → Linked next prev x p (xs ++ q ∷ ys)
      → x ≢ 0
      → next x ≡ p
      → Without x (xs ++ q ∷ ys)
      → next' x ≡ head_without xs p (next q)
  next'-head x [] (bucket _ _ _ _ pz e f l) nz n w = rw e (put_at-same next x (next q) nz)
  next'-head x (y ∷ xs) (bucket _ _ _ _ pz e f l) nz n (one_more _ _ h w) =
      put_at-other next (prev q) (next q)
        (λ eq. prev-front x xs q ys l (λ s. h (sym s)) (All-append_left xs (q ∷ ys) w) (sym eq))
      ∙ n

  unlinked :
      {before p : ℕ} (xs : List ℕ)
      → Linked next prev before p (xs ++ q ∷ ys)
      → Distinct (xs ++ q ∷ ys)
      → Without before (xs ++ q ∷ ys)
      → Linked next' prev' before (head_without xs p (next q)) (xs ++ ys)
  unlinked [] (bucket before _ r _ pz e f l) (item _ _ w d) (one_more _ _ h a) =
      rw (e, f)
        (Linked-elsewhere (λ x ne. put_at-other next before r ne) (λ x ne. refl) a
          (Linked-behind before d l))
  unlinked (x ∷ xs) (bucket before _ r _ pz e f l) (item _ _ w d) (one_more _ _ h a) =
      bucket before x _ (xs ++ ys) pz
        (put_at-other prev (next q) (prev q) (λ eq. next-back x xs q ys l pz w (sym eq)) ∙ e)
        (next'-head x xs l pz f w) (unlinked xs l d w)

  -- a bucket is not linked to itself
  away :
      {before p : ℕ} (xs : List ℕ)
      → Linked next prev before p (xs ++ q ∷ ys)
      → Distinct (xs ++ q ∷ ys)
      → q ≢ before
      → q ≢ prev q
  away xs l d ne same =
      prev-front q xs q ys l ne (All-append_left xs ys (Distinct-middle xs q ys d)) (sym same)

  new_used :
      {before p : ℕ} (xs : List ℕ)
      → Linked next prev before p (xs ++ q ∷ ys)
      → Distinct (xs ++ q ∷ ys)
      → next' q ≡ next q
      → (if q == p then next' p else p) ≡ head_without xs p (next q)
  new_used [] (bucket before _ r _ pz e f l) d same = if_true _ _ (at_head q) ∙ same
  new_used (x ∷ xs) (bucket before _ r _ pz e f l) (item _ _ w d) same =
      if_false _ _ (behind_head q x (first_differs (All-append_right xs (q ∷ ys) w)))

Linked-nonzero :
    {next prev : ℕ → ℕ} {before p : ℕ} {xs : List ℕ} → Linked next prev before p xs → Without 0 xs
Linked-nonzero (no_bucket before) = none_left
Linked-nonzero (bucket before p q xs nz e f l) = one_more p xs nz (Linked-nonzero l)

-- `unlink` of a used bucket leaves the others, in their order, linked both ways.
pub unlink_lem :
    (s : Heap) (xs : List ℕ) (q : ℕ) (ys : List ℕ)
    → Linked s.buckets.next s.buckets.prev 0 s.used (xs ++ q ∷ ys)
    → Distinct (xs ++ q ∷ ys)
    → let s' = unlink s q in Linked s'.buckets.next s'.buckets.prev 0 s'.used (xs ++ ys)
unfolding unlink
unlink_lem s xs q ys l d =
    let n = s.buckets.next in
    let v = s.buckets.prev in
    let nz = Linked-nonzero l in
    let same : put_at n (v q) (n q) q ≡ n q =
      put_at-other n (v q) (n q)
        (away n v q ys xs l d (first_differs (All-append_right xs (q ∷ ys) nz))) in
    let rest = unlinked n v q ys xs l d nz in
    rw (new_used n v q ys xs l d same, same)
      (Linked-elsewhere (λ x ne. put-other (put_at n (v q) (n q)) q 0 ne)
        (λ x ne. put-other (put_at v (n q) (v q)) q 0 ne) (Distinct-middle xs q ys d) rest)
