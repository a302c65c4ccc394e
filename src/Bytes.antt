-- ===== src/Bytes.antt =====
-- memcpy, memset and memeq of kernel/src/memory.c on regions of bytes: `f i` is the byte at offset
-- `i` from a pointer.
use ilo_pali.Prelude.{
  ℕ, zero, suc, ◌+◌, ◌-◌, ◌≤◌, ◌<◌, ◌%◌, ◌≡◌, ◌⊎◌, ◌↔◌, refl, Bool, true, false, ◌&&◌, arith, ltb,
  leb, ◌==◌, if◌then◌else◌, Bool-cases, inl, inr, ap, sym, if_true, if_false, ◌∙◌, List, [], ◌∷◌,
}

abbrev pub Region : Type 0
Region = ℕ → ℕ

abbrev pub from : Region → ℕ → Region
from f offset i = f (offset + i)

-- the loop of `memcpy` with `n` rounds to go, in regions that do not overlap
copy : Region → ℕ → Region → ℕ → ℕ → Region
copy dest offset src i zero = dest
copy dest offset src i (suc n) =
    copy (λ a. if offset + i == a then src i else dest a) offset src (i + 1) n

-- `memcpy(dest + offset, src, n)` between two regions that do not overlap
unfoldable pub memcpy : Region → ℕ → Region → ℕ → Region
unfolding copy
memcpy dest offset src n = copy dest offset src 0 n

-- `memcpy(m + to, m + start, n)` in one memory: each round reads what the rounds before it left.
unfoldable pub memcpy_within : Region → ℕ → ℕ → ℕ → Region
memcpy_within m to start zero = m
memcpy_within m to start (suc n) =
    memcpy_within (λ a. if to == a then m start else m a) (to + 1) (start + 1) n

unfoldable pub memset : Region → ℕ → ℕ → Region
unfolding copy
memset p value n = copy p 0 (λ i. value % 256) 0 n

unfoldable pub memeq_from : Region → Region → ℕ → ℕ → Bool
memeq_from p q i zero = true
memeq_from p q i (suc n) = if p i == q i then memeq_from p q (i + 1) n else false

unfoldable pub memeq : Region → Region → ℕ → Bool
unfolding memeq_from
memeq p q size = memeq_from p q 0 size

-- the first `n` bytes of two regions agree
abbrev pub Agree : ℕ → Region → Region → Type 0
Agree n p q = (i : ℕ) → i < n → p i ≡ q i

copy_lem :
    (dest : Region) (offset : ℕ) (src : Region) (i n a : ℕ)
    → copy dest offset src i n a
      ≡ (if leb (offset + i) a && ltb a (offset + i + n) then src (a - offset) else dest a)
unfolding copy
copy_lem dest offset src i zero a = ground arith
copy_lem dest offset src i (suc n) a =
    let dest' : Region = λ b. if offset + i == b then src i else dest b in
    elim (Bool-cases (offset + i == a)) [
      | inl e ↦
          let same : i ≡ a - offset = ground arith in
          ground (arith, copy_lem dest' offset src (i + 1) n a, ap src same)
      | inr e ↦ ground (arith, copy_lem dest' offset src (i + 1) n a)
    ]

-- A copy in one memory, to a place that does not begin inside the source, leaves the bytes of the
-- source at the new place and every other byte as it was.
pub memcpy_within_lem :
    (m : Region) (to start n a : ℕ)
    → (to ≤ start) ⊎ (start + n ≤ to)
    → memcpy_within m to start n a
      ≡ (if leb to a && ltb a (to + n) then m (start + (a - to)) else m a)
unfolding memcpy_within
memcpy_within_lem m to start zero a apart = ground arith
memcpy_within_lem m to start (suc n) a apart =
    let m' : Region = λ b. if to == b then m start else m b in
    let rest =
      memcpy_within_lem m' (to + 1) (start + 1) n a
        (elim apart [ inl le ↦ inl (omega arith) | inr le ↦ inr (omega arith) ]) in
    elim (Bool-cases (leb (to + 1) a && ltb a (to + 1 + n))) [
      | inl inside ↦
          let there : start + 1 + (a - (to + 1)) ≡ start + (a - to) = ground arith in
          let other : (to == start + (a - to)) ≡ false = elim apart [
            | inl le ↦ ground arith
            | inr le ↦ ground arith
          ] in
          let in_all : (leb to a && ltb a (to + suc n)) ≡ true = ground arith in
          rest ∙ if_true _ _ inside ∙ ap m' there ∙ if_false _ _ other ∙ sym (if_true _ _ in_all)
      | inr out ↦ elim (Bool-cases (to == a)) [
        | inl e ↦
            let here : start ≡ start + (a - to) = ground arith in
            let in_all : (leb to a && ltb a (to + suc n)) ≡ true = ground arith in
            rest ∙ if_false _ _ out ∙ if_true _ _ e ∙ ap m here ∙ sym (if_true _ _ in_all)
        | inr ne ↦
            let out_of_all : (leb to a && ltb a (to + suc n)) ≡ false = ground arith in
            rest ∙ if_false _ _ out ∙ if_false _ _ ne ∙ sym (if_false _ _ out_of_all)
      ]
    ]

pub memcpy_lem :
    (dest : Region) (offset : ℕ) (src : Region) (n a : ℕ)
    → memcpy dest offset src n a
      ≡ (if leb offset a && ltb a (offset + n) then src (a - offset) else dest a)
unfolding memcpy
memcpy_lem dest offset src n a = ground (arith, copy_lem dest offset src 0 n a)

-- `memset` fills exactly the first `n` bytes with the low byte of the value.
pub memset_lem :
    (p : Region) (value n a : ℕ) → memset p value n a ≡ (if ltb a n then value % 256 else p a)
unfolding memset
memset_lem p value n a = ground (arith, copy_lem p 0 (λ (i : ℕ). value % 256) 0 n a)

memeq_from-Agree :
    (p q : Region) (i n : ℕ) → memeq_from p q i n ≡ true → (j : ℕ) → i ≤ j → j < i + n → p j ≡ q j
unfolding memeq_from
memeq_from-Agree p q i zero e j lo hi = absurd (omega arith)
memeq_from-Agree p q i (suc n) e j lo hi = elim (Bool-cases (i == j)) [
  | inl here ↦ ground arith
  | inr on ↦ memeq_from-Agree p q (i + 1) n (ground arith) j (ground arith) (ground arith)
]

Agree-memeq_from :
    (p q : Region) (i n : ℕ) → ((j : ℕ) → i ≤ j → j < i + n → p j ≡ q j) → memeq_from p q i n ≡ true
unfolding memeq_from
Agree-memeq_from p q i zero h = refl
Agree-memeq_from p q i (suc n) h =
    ground (arith, h i, Agree-memeq_from p q (i + 1) n (λ j lo hi. h j (omega arith) (omega arith)))

-- `memeq` is true exactly when the bytes are the same.
pub memeq_iff : (p q : Region) (n : ℕ) → (memeq p q n ≡ true) ↔ Agree n p q
unfolding memeq
memeq_iff p q n = (
  λ e i lt. memeq_from-Agree p q 0 n e i (omega arith) (omega arith),
  λ h. Agree-memeq_from p q 0 n (λ j lo hi. h j (omega arith)),
)

-- What `memcpy` wrote reads back as the source, and bytes outside are as they were.
pub memcpy_self :
    (dest : Region) (offset : ℕ) (src : Region) (n : ℕ)
    → Agree n (from (memcpy dest offset src n) offset) src
memcpy_self dest offset src n i lt =
    let e : offset + i - offset ≡ i = omega arith in
    ground (arith, memcpy_lem dest offset src n (offset + i), e)

pub memcpy_apart :
    (dest : Region) (offset : ℕ) (src : Region) (n other k : ℕ)
    → (offset + n ≤ other) ⊎ (other + k ≤ offset)
    → Agree k (from (memcpy dest offset src n) other) (from dest other)
memcpy_apart dest offset src n other k h i lt =
    ground (arith, memcpy_lem dest offset src n (other + i))

-- the bytes of a list, and zeros behind them
abbrev pub byte_at : List ℕ → Region
byte_at [] i = 0
byte_at (x ∷ xs) i = let rest = byte_at xs (i - 1) in if i == 0 then x else rest

abbrev pub all_bytes : List ℕ → Bool
all_bytes [] = true
all_bytes (x ∷ xs) = ltb x 256 && all_bytes xs

pub byte_at-bytes : (xs : List ℕ) → all_bytes xs ≡ true → (i : ℕ) → byte_at xs i < 256
byte_at-bytes [] h i = omega arith
byte_at-bytes (x ∷ xs) h i = let rest = byte_at-bytes xs (ground arith) (i - 1) in ground arith
