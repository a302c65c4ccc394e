-- ===== src/HashMap/Held.antt =====
-- How many entries of a bucket of kernel/src/hashmap.c are under one key, and that count after an
-- entry is added.
use native.Mathlib.Numerals.{add-one}
use ilo_pali.Prelude.{
  ℕ, zero, suc, ◌+◌, ◌*◌, ◌≤◌, ◌<◌, ◌≡◌, refl, Bool, true, false, ◌==◌, arith, inl, inr, Bool-cases,
  ap,
}
use ilo_pali.Bytes.{Region, memcpy, memeq, memeq_iff, memcpy_self, memcpy_apart}
use ilo_pali.HashMap.{Bucket, HashMap, open_bucket, append_entry, add_entry, key_at, slot_of}
use ilo_pali.HashMap.Slots.{memeq_congr, entry_before, slot_of_congr}

abbrev pub to_nat : Bool → ℕ
to_nat true = 1
to_nat false = 0

-- how many of the `n` entries from entry `i` on pass the test
unfoldable pub count : (ℕ → Bool) → ℕ → ℕ → ℕ
count t i zero = 0
count t i (suc n) = to_nat (t i) + count t (i + 1) n

-- how many entries of the bucket are under the key
unfoldable pub held : HashMap → Bucket → Region → ℕ
unfolding count
held m b key = count (key_at m.key_size b.keys key) 0 b.len

-- how many entries under the key stand in the bucket that is searched for it
abbrev pub held_at : HashMap → Region → ℕ
held_at m key = held m (m.ring (slot_of m key)) key

count-suc : (t : ℕ → Bool) (i n : ℕ) → count t i (suc n) ≡ count t i n + to_nat (t (i + n))
unfolding count
count-suc t i zero = let e : i + 0 ≡ i = omega arith in rw e (omega arith)
count-suc t i (suc n) =
    let e : i + 1 + n ≡ i + suc n = omega arith in omega (arith, rw e at (count-suc t (i + 1) n))

count_congr :
    (t u : ℕ → Bool) (i n : ℕ)
    → ((j : ℕ) → i ≤ j → j < i + n → t j ≡ u j)
    → count t i n ≡ count u i n
unfolding count
count_congr t u i zero h = refl
count_congr t u i (suc n) h = rw (
  h i (omega arith) (omega arith),
  count_congr t u (i + 1) n (λ j lo hi. h j (omega arith) (omega arith)),
)

pub count-le : (t : ℕ → Bool) (i n : ℕ) → count t i n ≤ n
unfolding count
count-le t i zero = omega arith
count-le t i (suc n) = ground (arith, count-le t (i + 1) n)

held-open :
    (junk : Region) (m : HashMap) (b : Bucket) (key : Region)
    → held m (open_bucket junk b) key ≡ held m b key
unfolding held open_bucket
held-open junk m b key = elim (Bool-cases (b.len == 0)) [
  | inl e ↦ let z : b.len ≡ 0 = ground arith in rw e (rw z refl)
  | inr e ↦ rw e refl
]

held-append :
    (m : HashMap) (b : Bucket) (key value key' : Region)
    → held m (append_entry m b key value) key' ≡ held m b key' + to_nat (memeq key key' m.key_size)
unfolding held append_entry
held-append m b key value key' =
    let keys : Region = memcpy b.keys (b.len * m.key_size) key m.key_size in
    let earlier =
      count_congr (key_at m.key_size keys key') (key_at m.key_size b.keys key') 0 b.len (λ j lo hi.
        memeq_congr _ _ _ _ m.key_size
          (memcpy_apart b.keys (b.len * m.key_size) key m.key_size (j * m.key_size) m.key_size
            (inr (entry_before j b.len m.key_size (omega arith))))
          (λ i lt. refl)) in
    let last : key_at m.key_size keys key' b.len ≡ memeq key key' m.key_size =
      memeq_congr _ _ _ _ m.key_size (memcpy_self b.keys (b.len * m.key_size) key m.key_size)
        (λ i lt. refl) in
    let z : 0 + b.len ≡ b.len = omega arith in
    rw add-one (rw (count-suc, earlier) (rw (z, last) refl))

-- An added entry counts where it belongs, and nothing is lost.
pub held-add :
    (junk : Region) (m : HashMap) (k value key : Region)
    → held m (m.ring (slot_of m key)) key + to_nat (memeq k key m.key_size)
      ≤ held m ((add_entry junk m (slot_of m k) k value).ring (slot_of m key)) key
held-add junk m k value key =
    let b = m.ring (slot_of m k) in
    elim (Bool-cases (slot_of m k == slot_of m key)) [
      | inl e ↦
          let here : slot_of m k ≡ slot_of m key = ground arith in
          rw e (
            omega (
              arith,
              held-append m (open_bucket junk b) k value key,
              held-open junk m b key,
              ap (λ (i : ℕ). held m (m.ring i) key) here,
            ))
      | inr e ↦ elim (Bool-cases (memeq k key m.key_size)) [
        | inl same ↦
            absurd (ground (arith, slot_of_congr m k key ((memeq_iff k key m.key_size).0 same)))
        | inr other ↦ rw (e, other) (omega arith)
      ]
    ]
