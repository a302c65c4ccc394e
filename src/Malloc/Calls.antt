-- ===== src/Malloc/Calls.antt =====
-- `malloc` of kernel/src/memory.c on the lists of used and of free buckets.
use ilo_pali.Prelude.{
  ℕ, ◌+◌, ◌≤◌, ◌≡◌, ◌≢◌, ◌∙◌, ap, subst, sym, refl, Bool, false, Option, none, some, List, ◌∷◌,
  ◌==◌, if◌then◌else◌, arith, if_false,
}
use ilo_pali.Malloc.{
  put, put_at, Heap, header_size, size_class, refill, take_bucket, take_large, push_used,
  free_buckets_alloc,
}
use ilo_pali.Malloc.Linked.{
  Without, Distinct, item, Linked, bucket, put-other, put-same, Linked-elsewhere, Linked-behind,
}
use ilo_pali.Malloc.Chains.{Chain, Chain-elsewhere, Chain-first, size_class-fits}

-- the used buckets
abbrev pub Used : Heap → List ℕ → Type 0
Used s us = Linked s.buckets.next s.buckets.prev 0 s.used us × Distinct us

-- the list of free buckets of one size, up to the place `q`
abbrev pub Free : Heap → ℕ → List ℕ → ℕ → Type 0
Free s c fs q = Chain s.buckets.next s.buckets.size c (s.free c) fs q

push_used-Used :
    (s : Heap) (b origin : ℕ) (us : List ℕ)
    → b ≢ 0
    → Used s us
    → Without b us
    → Used (push_used s b origin) (b ∷ us)
push_used-Used s b origin us nz (l, d) w =
    let v = s.buckets.prev in
    let v' = put_at v s.used b in
    (
      bucket 0 b s.used us nz (put-same v' b 0) (put-same s.buckets.next b s.used) (
          Linked-elsewhere (λ x ne. put-other s.buckets.next b s.used ne)
            (λ x ne. put-other v' b 0 ne) w (Linked-behind b d l)),
      item b us w d,
    )

pub not_null : (x : ℕ) → x ≢ 0 → (x == 0) ≡ false
not_null x ne = ground arith

-- what is done with a class
abbrev in_class : Bool → Heap → ℕ → ℕ → Option ℕ → ℕ × Heap
in_class enabled s size origin o = elim o [
  | none ↦ take_large enabled s size origin
  | some c ↦ let (got, s') = refill enabled s c in if got then take_bucket s' c origin else (0, s')
]

-- the heap without the first bucket of a list
abbrev pub without_first : Heap → ℕ → Heap
without_first s c = record s { free = put s.free c (s.buckets.next (s.free c)) }

-- what a call does while the list is not empty
pub from_list :
    (enabled : Bool) (s : Heap) (size origin c : ℕ)
    → size ≢ 0
    → size_class size ≡ some c
    → s.free c ≢ 0
    → free_buckets_alloc enabled s size origin
      ≡ (s.free c + header_size, push_used (without_first s c) (s.free c) origin)
unfolding free_buckets_alloc
from_list enabled s size origin c nz e some_left =
    if_false _ _ (not_null size nz)
    ∙ ap (in_class enabled s size origin) e
    ∙ ap (λ (r : Bool × Heap). if r.0 then take_bucket r.1 c origin else (0, r.1))
        (if_false _ _ (not_null (s.free c) some_left))
    ∙ if_false _ _ (not_null (s.free c) some_left)

-- Bucket `b` has gone from a list of free buckets to the used ones.
abbrev pub Given : ℕ × Heap → ℕ → ℕ → ℕ → List ℕ → List ℕ → ℕ → Type 0
Given r origin c b fs us q =
    (r.0 ≡ b + header_size)
    × Used r.1 (b ∷ us)
    × Free r.1 c fs q
    × (r.1.buckets.size b ≡ c)
    × (r.1.buckets.origin b ≡ origin)

-- A request while the list of its size has a bucket gives its first bucket, of a size that the
-- request fits in: the bucket becomes the first of the used ones, and the rest of the list stays.
pub malloc_lem :
    (enabled : Bool) (s : Heap) (size origin c b : ℕ) (fs us : List ℕ) (q : ℕ)
    → size ≢ 0
    → size_class size ≡ some c
    → b ≢ 0
    → Free s c (b ∷ fs) q
    → Used s us
    → Without b us
    → Without b fs
    → Given (free_buckets_alloc enabled s size origin) origin c b fs us q × (size ≤ c)
malloc_lem enabled s size origin c b fs us q nz e bz chain used w w' =
    let (first, fits, rest) = Chain-first chain in
    let next = s.buckets.next in
    let some_left : s.free c ≢ 0 = λ z. bz (sym first ∙ z) in
    let run =
      from_list enabled s size origin c nz e some_left
      ∙ ap (λ a. (a + header_size, push_used (record s { free = put s.free c (next a) }) a origin))
          first in
    let s' : Heap = record s { free = put s.free c (next b) } in
    let list : Chain (put next b s.used) s.buckets.size c (put s.free c (next b) c) fs q =
      rw (put-same s.free c (next b))
        (Chain-elsewhere (λ x ne. put-other next b s.used ne) (λ x ne. refl) w' rest) in
    (
      subst (λ r. Given r origin c b fs us q) (sym run)
          (
            refl,
            push_used-Used s' b origin us bz used w,
            list,
            fits,
            put-same s.buckets.origin b origin,
          ),
      size_class-fits size c e,
    )

-- The list of another size, without the bucket that is given, stays as it is.
pub malloc-other_list :
    (enabled : Bool) (s : Heap) (size origin c d : ℕ) (zs : List ℕ) (q : ℕ)
    → size ≢ 0
    → size_class size ≡ some c
    → s.free c ≢ 0
    → d ≢ c
    → Without (s.free c) zs
    → Free s d zs q
    → Free (free_buckets_alloc enabled s size origin).1 d zs q
malloc-other_list enabled s size origin c d zs q nz e some_left other w list =
    let next = s.buckets.next in
    let b = s.free c in
    subst (λ (r : ℕ × Heap). Free r.1 d zs q)
      (sym (from_list enabled s size origin c nz e some_left))
      (subst (λ (p : ℕ). Chain (put next b s.used) s.buckets.size d p zs q)
        (sym (put-other s.free c (next b) other))
        (Chain-elsewhere (λ x ne. put-other next b s.used ne) (λ x ne. refl) w list))
