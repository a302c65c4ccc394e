-- ===== src/HashMap/Growth.antt =====
-- `hashmap_grow` of kernel/src/hashmap.c keeps the entries of one key together, and so
-- `hashmap_insert` does not come to an end where five entries of a key fill its bucket.
use native.Mathlib.Nat.{pow-suc, one-le-pow}
use Prim.Native.Nat.{bit_and}
use ilo_pali.Prelude.{
  ◌-◌, ◌^◌, ℕ, zero, suc, ◌+◌, ◌*◌, ◌≤◌, ◌<◌, ◌≡◌, refl, ◌==◌, arith, inl, inr, Bool-cases, ap, ◌∙◌,
  bit_and-le, mul64, none,
}
use ilo_pali.Bytes.{Region, from}
use ilo_pali.HashMap.{
  Bucket, HashMap, add_entry, key_at, slot_of, move_bucket, move_ring, hashmap_grow, hashmap_insert,
  hash_key, empty_bucket, hashmap_max_collision_count,
}
use ilo_pali.HashMap.Held.{count, held, held_at, held-add, count-le}

held-move_bucket :
    (junk : Region) (new : HashMap) (b : Bucket) (j n : ℕ) (key : Region)
    → held new (new.ring (slot_of new key)) key + count (key_at new.key_size b.keys key) j n
      ≤ held new ((move_bucket junk new b j n).ring (slot_of new key)) key
unfolding move_bucket count held
held-move_bucket junk new b j zero key = omega arith
held-move_bucket junk new b j (suc n) key =
    let k = from b.keys (j * new.key_size) in
    let value = from b.values (j * new.key_size) in
    omega (
      arith,
      held-add junk new k value key,
      held-move_bucket junk (add_entry junk new (slot_of new k) k value) b (j + 1) n key,
    )

-- Neither the number of buckets nor the size of keys changes on the way.
module _ {A : Type 0} (f : ℕ → ℕ → A) where
  sizes-move_bucket :
      (junk : Region) (new : HashMap) (b : Bucket) (j n : ℕ)
      → let new' = move_bucket junk new b j n in f new'.cap new'.key_size ≡ f new.cap new.key_size
  unfolding move_bucket
  sizes-move_bucket junk new b j zero = refl
  sizes-move_bucket junk new b j (suc n) =
      let key = from b.keys (j * new.key_size) in
      sizes-move_bucket junk
        (add_entry junk new (slot_of new key) key (from b.values (j * new.key_size))) b (j + 1) n

  sizes-move_ring :
      (junk : Region) (new : HashMap) (ring : ℕ → Bucket) (i n : ℕ)
      → let new' = move_ring junk new ring i n in f new'.cap new'.key_size ≡ f new.cap new.key_size
  unfolding move_ring
  sizes-move_ring junk new ring i zero = refl
  sizes-move_ring junk new ring i (suc n) =
      sizes-move_ring junk (move_bucket junk new (ring i) 0 (ring i).len) ring (i + 1) n
      ∙ sizes-move_bucket junk new (ring i) 0 (ring i).len

-- `held_at` with the two sizes spelt out
abbrev held_in : (ℕ → Bucket) → Region → ℕ → ℕ → ℕ
held_in ring key width key_size =
    let b = ring (bit_and (hash_key key_size key) (width - 1)) in
    count (key_at key_size b.keys key) 0 b.len

held_at-move_bucket :
    (junk : Region) (new : HashMap) (b : Bucket) (key : Region)
    → held_at new key + held new b key ≤ held_at (move_bucket junk new b 0 b.len) key
unfolding held
held_at-move_bucket junk new b key = omega (
  arith,
  held-move_bucket junk new b 0 b.len key,
  sizes-move_bucket (held_in (move_bucket junk new b 0 b.len).ring key) junk new b 0 b.len,
)

held_at-move_ring :
    (junk : Region) (new : HashMap) (ring : ℕ → Bucket) (i n : ℕ) (key : Region)
    → held_at new key ≤ held_at (move_ring junk new ring i n) key
unfolding move_ring
held_at-move_ring junk new ring i zero key = omega arith
held_at-move_ring junk new ring i (suc n) key = omega (
  arith,
  held_at-move_bucket junk new (ring i) key,
  held_at-move_ring junk (move_bucket junk new (ring i) 0 (ring i).len) ring (i + 1) n key,
)

held-sizes :
    (junk : Region) (new : HashMap) (b c : Bucket) (key : Region)
    → held (move_bucket junk new b 0 b.len) c key ≡ held new c key
unfolding held
held-sizes junk new b c key =
    sizes-move_bucket (λ width size. count (key_at size c.keys key) 0 c.len) junk new b 0 b.len

-- Every bucket that is moved counts.
moved :
    (junk : Region) (new : HashMap) (ring : ℕ → Bucket) (i n r : ℕ) (key : Region)
    → i ≤ r
    → r < i + n
    → held new (ring r) key ≤ held_at (move_ring junk new ring i n) key
unfolding move_ring
moved junk new ring i zero r key lo hi = absurd (omega arith)
moved junk new ring i (suc n) r key lo hi =
    let new' = move_bucket junk new (ring i) 0 (ring i).len in
    elim (Bool-cases (i == r)) [
      | inl e ↦
          let here : i ≡ r = ground arith in
          omega (
            arith,
            held_at-move_bucket junk new (ring i) key,
            held_at-move_ring junk new' ring (i + 1) n key,
            ap (λ (k : ℕ). held new (ring k) key) here,
          )
      | inr e ↦ omega (
        arith,
        held-sizes junk new (ring i) (ring r) key,
        moved junk new' ring (i + 1) n r key (ground arith) (ground arith),
      )
    ]

-- After a growth the bucket that is searched for a key holds at least the entries that it held
-- under that key before.
pub hashmap_grow-held :
    (junk : Region) (m : HashMap) (key : Region)
    → 0 < m.cap
    → held_at m key ≤ held_at (hashmap_grow junk m) key
unfolding hashmap_grow held
hashmap_grow-held junk m key pos =
    moved junk (record m { cap = mul64 m.cap 2; ring = λ i. empty_bucket }) m.ring 0 m.cap
      (slot_of m key) key (omega arith)
      (omega (arith, bit_and-le (hash_key m.key_size key) (m.cap - 1)))

cap-hashmap_grow : (junk : Region) (m : HashMap) → (hashmap_grow junk m).cap ≡ mul64 m.cap 2
unfolding hashmap_grow
cap-hashmap_grow junk m =
    sizes-move_ring (λ width size. width) junk
      (record m { cap = mul64 m.cap 2; ring = λ i. empty_bucket }) m.ring 0 m.cap

held_at-le-len : (m : HashMap) (key : Region) → held_at m key ≤ (m.ring (slot_of m key)).len
unfolding held
held_at-le-len m key = count-le _ 0 (m.ring (slot_of m key)).len

-- With five entries under one key in its bucket, an insertion under that key grows the map in
-- every round and returns in none of them, for as many rounds as the capacity can be doubled.
pub insert-never_returns :
    (rounds : ℕ) (junk : Region) (m : HashMap) (key value : Region)
    → 0 < m.cap
    → m.cap * 2 ^ rounds ≤ 2 ^ 63
    → hashmap_max_collision_count ≤ held_at m key
    → hashmap_insert rounds junk m key value ≡ none
unfolding hashmap_insert
insert-never_returns zero junk m key value pos fits full = refl
insert-never_returns (suc rounds) junk m key value pos fits full =
    let grown = hashmap_grow junk m in
    let power : m.cap * 2 ^ suc rounds ≡ m.cap * 2 * 2 ^ rounds =
      omega (arith, ap (λ (t : ℕ). m.cap * t) (pow-suc 2 rounds)) in
    let wide : m.cap * 2 ≤ m.cap * 2 * 2 ^ rounds = grind (arith, one-le-pow rounds 2) in
    let width : grown.cap ≡ m.cap * 2 = omega (arith, cap-hashmap_grow junk m) in
    ground (
      arith,
      held_at-le-len m key,
      insert-never_returns rounds junk grown key value (omega arith) (rw width (omega arith))
          (omega (arith, hashmap_grow-held junk m key pos)),
    )
