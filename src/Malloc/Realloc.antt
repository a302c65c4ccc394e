-- ===== src/Malloc/Realloc.antt =====
-- `realloc` of kernel/src/memory.c keeps what a bucket holds.
use ilo_pali.Prelude.{
  ℕ, ◌+◌, ◌-◌, leb, ltb, ◌&&◌, Bool-cases, ◌<◌, ◌≡◌, ◌≢◌, ◌≤◌, ◌⊎◌, ◌∙◌, ap, sym, refl, Bool, true,
  false, Option, none, some, List, ◌∷◌, ◌==◌, arith, if_true, if_false, inl, inr,
}
use ilo_pali.Malloc.{
  Heap, header_size, size_class, push_used, unlink, push_free, free, give_back, move_to, realloc,
}
use ilo_pali.Bytes.{memcpy_within, memcpy_within_lem}
use ilo_pali.Malloc.Chains.{Chain-first}
use ilo_pali.Malloc.Calls.{Free, not_null, from_list, without_first}

give_back-bytes :
    (enabled : Bool) (s : Heap) (b : ℕ) (o : Option ℕ) → (give_back enabled s b o).bytes ≡ s.bytes
unfolding push_free
give_back-bytes enabled s b (some c) = refl
give_back-bytes enabled s b none = refl

free-bytes : (enabled : Bool) (s : Heap) (p : ℕ) → (free enabled s p).bytes ≡ s.bytes
unfolding free unlink
free-bytes enabled s p = elim (Bool-cases (p == 0)) [
  | inl null ↦ ap (λ (g : Heap). g.bytes) (if_true _ _ null)
  | inr at ↦
      let b = p - header_size in
      ap (λ (g : Heap). g.bytes) (if_false _ _ at)
      ∙ give_back-bytes enabled (unlink s b) b (size_class (s.buckets.size b))
]

inside : (a i n : ℕ) → i < n → (leb a (a + i) && ltb (a + i) (a + n)) ≡ true
inside a i n lt = ground arith

too_small : (a b : ℕ) → a < b → leb b a ≡ false
too_small a b lt = ground arith

-- the `n` bytes behind the header at `a` are apart from the `k` behind the one at `b`, headers included
abbrev pub Apart : ℕ → ℕ → ℕ → ℕ → Type 0
Apart a n b k = (a + header_size + n ≤ b) ⊎ (b + header_size + k ≤ a)

-- `realloc` of a bucket that is too small, while the list of the new size has a bucket that, with its
-- header, lies apart from the old one with its header, gives the first of that list, and it holds
-- what the old one held. The headers are apart from the bytes of every bucket.
pub realloc_lem :
    (enabled : Bool) (s : Heap) (p size origin c b : ℕ) (fs : List ℕ) (q i : ℕ)
    → p ≢ 0
    → s.buckets.size (p - header_size) < size
    → size_class size ≡ some c
    → b ≢ 0
    → Free s c (b ∷ fs) q
    → header_size ≤ p
    → Apart b c (p - header_size) (s.buckets.size (p - header_size))
    → i < s.buckets.size (p - header_size)
    → ((realloc enabled s p size origin).0 ≡ b + header_size)
      × ((realloc enabled s p size origin).1.bytes (b + header_size + i) ≡ s.bytes (p + i))
unfolding realloc
realloc_lem enabled s p size origin c b fs q i nz lt e bz chain behind apart in_old =
    let old = s.buckets.size (p - header_size) in
    let (first, fits, rest) = Chain-first chain in
    let some_left : s.free c ≢ 0 = λ z. bz (sym first ∙ z) in
    let a = s.free c + header_size in
    let g = push_used (without_first s c) (s.free c) origin in
    let run : realloc enabled s p size origin ≡ move_to enabled p (a, g) =
      if_false _ _ (not_null p nz)
      ∙ if_false _ _ (too_small old size lt)
      ∙ ap (move_to enabled p) (from_list enabled s size origin c (omega arith) e some_left) in
    let run' = run ∙ if_false _ _ (not_null a (omega arith)) in
    let copied =
      memcpy_within_lem s.bytes a p old (a + i) (elim apart [
        | inl le ↦ inl (omega (arith, first))
        | inr le ↦ inr (omega (arith, first))
      ]) in
    let place : b + header_size + i ≡ a + i = omega arith in
    let offset : a + i - a ≡ i = omega arith in
    let kept = record g { bytes = memcpy_within s.bytes a p old } in
    (
      ap (λ (r : ℕ × Heap). r.0) run' ∙ ap (λ x. x + header_size) first,
      ap (λ (r : ℕ × Heap). r.1.bytes (b + header_size + i)) run'
          ∙ ap (λ (f : ℕ → ℕ). f (b + header_size + i)) (free-bytes enabled kept p)
          ∙ ap (memcpy_within s.bytes a p old) place
          ∙ copied
          ∙ if_true _ _ (inside a i old in_old)
          ∙ ap (λ x. s.bytes (p + x)) offset,
    )
