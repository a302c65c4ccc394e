-- ===== src/Malloc/Free.antt =====
-- `free` of kernel/src/memory.c on the lists of used and of free buckets.
use ilo_pali.Prelude.{
  ℕ, ◌+◌, ◌-◌, ◌≡◌, ◌≢◌, ◌∙◌, ap, subst, sym, refl, Bool, some, List, [], ◌∷◌, ◌++◌, arith,
  if_false,
}
use ilo_pali.Malloc.{
  put, put_at, Heap, header_size, size_class, free_buckets_alloc, unlink, push_free, free,
  free_bucket, give_back,
}
use ilo_pali.Malloc.Linked.{
  All, Without, put-other, put-same, put_at-other, Linked-elsewhere, All-append_left,
  All-append_right, All-without, All-both, All-map, Distinct-without, prev-front,
}
use ilo_pali.Malloc.Unlink.{Distinct-middle, first_differs, unlink_lem}
use ilo_pali.Malloc.Chains.{Chain, links, Chain-elsewhere, Chain-head}
use ilo_pali.Malloc.Calls.{Used, Free, not_null, malloc_lem}

-- Bucket `b` is none of the used ones, and no NULL.
abbrev pub Apart : List ℕ → ℕ → Type 0
Apart us b = (b ≢ 0) × Without b us

in_list :
    (enabled : Bool) (s : Heap) (b c : ℕ)
    → size_class (s.buckets.size b) ≡ some c
    → free enabled s (b + header_size) ≡ push_free (unlink s b) c b
unfolding free unlink
in_list enabled s b c e =
    let at : b + header_size - header_size ≡ b = omega arith in
    if_false _ _ (not_null (b + header_size) (omega arith))
    ∙ ap (free_bucket enabled s) at
    ∙ ap (give_back enabled (unlink s b) b) e

module _ (s : Heap) (c b : ℕ) (xs ys fs : List ℕ) (q : ℕ) where
  push_free-Used :
      Used s (xs ++ b ∷ ys)
      → Without (s.free c) (xs ++ b ∷ ys)
      → Used (push_free (unlink s b) c b) (xs ++ ys)
  unfolding push_free unlink
  push_free-Used (l, d) w =
      let s' = unlink s b in
      (
        Linked-elsewhere (λ x h. put-other s'.buckets.next b (s.free c) h.0)
            (λ x h. put_at-other s'.buckets.prev (s.free c) b h.1)
            (All-both (Distinct-middle xs b ys d) (All-without xs b ys w))
            (unlink_lem s xs b ys l d),
        Distinct-without xs b ys d,
      )

  -- The links of what is apart from the used buckets stay.
  abbrev links_after : ℕ → ℕ
  links_after =
      put (put (put_at s.buckets.next (s.buckets.prev b) (s.buckets.next b)) b 0) b (s.free c)

  stays-Apart :
      Used s (xs ++ b ∷ ys) → (x : ℕ) → Apart (xs ++ b ∷ ys) x → links_after x ≡ s.buckets.next x
  stays-Apart (l, d) x (nz, w) =
      let n = s.buckets.next in
      let n' = put_at n (s.buckets.prev b) (n b) in
      let ne : x ≢ b = λ eq. first_differs (All-append_right xs (b ∷ ys) w) (sym eq) in
      put-other (put n' b 0) b (s.free c) ne
      ∙ put-other n' b 0 ne
      ∙ put_at-other n (s.buckets.prev b) (n b)
          (λ eq. prev-front x xs b ys l nz (All-append_left xs (b ∷ ys) w) (sym eq))

  push_free-Free :
      Used s (xs ++ b ∷ ys)
      → s.buckets.size b ≡ c
      → Free s c fs q
      → All (Apart (xs ++ b ∷ ys)) fs
      → Free (push_free (unlink s b) c b) c (b ∷ fs) q
  unfolding push_free unlink
  push_free-Free used e chain apart =
      let n' = put_at s.buckets.next (s.buckets.prev b) (s.buckets.next b) in
      subst (λ (p : ℕ). Chain links_after s.buckets.size c p (b ∷ fs) q) (sym (put-same s.free c b))
        (links b (s.free c) q fs e (put-same (put n' b 0) b (s.free c))
          (Chain-elsewhere (stays-Apart used) (λ x h. refl) apart chain))

  push_free-other :
      (d : ℕ)
      → d ≢ c
      → Used s (xs ++ b ∷ ys)
      → Free s d fs q
      → All (Apart (xs ++ b ∷ ys)) fs
      → Free (push_free (unlink s b) c b) d fs q
  unfolding push_free unlink
  push_free-other d other used chain apart =
      subst (λ (p : ℕ). Chain links_after s.buckets.size d p fs q)
        (sym (put-other s.free c b other))
        (Chain-elsewhere (stays-Apart used) (λ x h. refl) apart chain)

-- The list of another size, apart from the used buckets, stays as it is.
pub free-other_list :
    (enabled : Bool) (s : Heap) (c d b : ℕ) (xs ys zs : List ℕ) (q : ℕ)
    → Used s (xs ++ b ∷ ys)
    → s.buckets.size b ≡ c
    → size_class c ≡ some c
    → d ≢ c
    → Free s d zs q
    → All (Apart (xs ++ b ∷ ys)) zs
    → Free (free enabled s (b + header_size)) d zs q
free-other_list enabled s c d b xs ys zs q used e class other list apart =
    subst (λ (s' : Heap). Free s' d zs q) (sym (in_list enabled s b c (ap size_class e ∙ class)))
      (push_free-other s c b xs ys zs q d other used list apart)

-- `free` of a used bucket `b` of one of the seven sizes, while the list of that size and its end
-- are apart from the used ones, puts it in front of the list; the other used buckets stay in their
-- order, linked both ways.
pub free_lem :
    (enabled : Bool) (s : Heap) (c b : ℕ) (xs ys fs : List ℕ) (q : ℕ)
    → Used s (xs ++ b ∷ ys)
    → s.buckets.size b ≡ c
    → size_class c ≡ some c
    → Free s c fs q
    → All (Apart (xs ++ b ∷ ys)) fs
    → Without q (xs ++ b ∷ ys)
    → let s' = free enabled s (b + header_size) in Used s' (xs ++ ys) × Free s' c (b ∷ fs) q
free_lem enabled s c b xs ys fs q used e class chain apart w =
    let outside = Chain-head chain (All-map (λ x h. h.1) apart) w in
    subst (λ (s' : Heap). Used s' (xs ++ ys) × Free s' c (b ∷ fs) q)
      (sym (in_list enabled s b c (ap size_class e ∙ class)))
      (
        push_free-Used s c b xs ys fs q used outside,
        push_free-Free s c b xs ys fs q used e chain apart,
      )

-- A request from a list that with its end is apart from the used buckets, and then `free` of what
-- it gave, leave the used buckets and the list of that size as they were.
pub free-malloc :
    (enabled : Bool) (s : Heap) (size origin c b : ℕ) (fs us : List ℕ) (q : ℕ)
    → size ≢ 0
    → size_class size ≡ some c
    → size_class c ≡ some c
    → b ≢ 0
    → Free s c (b ∷ fs) q
    → Used s us
    → Without b us
    → All (Apart (b ∷ us)) fs
    → Without q (b ∷ us)
    → let r = free_buckets_alloc enabled s size origin in
      let s' = free enabled r.1 r.0 in Used s' us × Free s' c (b ∷ fs) q
free-malloc enabled s size origin c b fs us q nz e class bz chain used w apart end =
    let others = All-map (λ x h eq. first_differs h.1 (sym eq)) apart in
    let ((place, used', list, fits, who), le) =
      malloc_lem enabled s size origin c b fs us q nz e bz chain used w others in
    let r = free_buckets_alloc enabled s size origin in
    subst (λ (a : ℕ). Used (free enabled r.1 a) us × Free (free enabled r.1 a) c (b ∷ fs) q)
      (sym place) (free_lem enabled r.1 c b [] us fs q used' fits class list apart end)
