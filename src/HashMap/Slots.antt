-- ===== src/HashMap/Slots.antt =====
-- Searching a bucket of kernel/src/hashmap.c, and adding an entry to it.
use native.Mathlib.Numerals.{add-one}
use ilo_pali.Prelude.{
  ℕ, zero, suc, ◌+◌, ◌*◌, ◌≤◌, ◌<◌, ◌≡◌, refl, Bool, true, false, Option, none, some, ◌==◌,
  if◌then◌else◌, arith, inl, inr, Bool-cases, ◌∙◌, sym, tabulate_congr,
}
use ilo_pali.Bytes.{Region, Agree, from, memcpy, memeq, memeq_iff, memcpy_self, memcpy_apart}
use ilo_pali.HashMap.{
  Bucket, HashMap, open_bucket, append_entry, find_entry, key_at, find_key, slot_of,
}

-- the found entry, or else what the next entry gives
abbrev pub or_next : Option ℕ → Bool → ℕ → Option ℕ
or_next none b i = if b then some i else none
or_next (some r) b i = some r

pub find_entry-suc :
    (t : ℕ → Bool) (i n : ℕ)
    → find_entry t i (suc n) ≡ or_next (find_entry t i n) (t (i + n)) (i + n)
unfolding find_entry
find_entry-suc t i zero = let e : i + 0 ≡ i = omega arith in rw e (ground arith)
find_entry-suc t i (suc n) =
    let e : i + 1 + n ≡ i + suc n = omega arith in
    let ih = find_entry-suc t (i + 1) n in
    elim (Bool-cases (t i)) [ inl h ↦ rw h refl | inr h ↦ rw h (rw e at ih) ]

pub find_entry_congr :
    (t u : ℕ → Bool) (i n : ℕ)
    → ((j : ℕ) → i ≤ j → j < i + n → t j ≡ u j)
    → find_entry t i n ≡ find_entry u i n
unfolding find_entry
find_entry_congr t u i zero h = refl
find_entry_congr t u i (suc n) h = rw (
  h i (omega arith) (omega arith),
  find_entry_congr t u (i + 1) n (λ j lo hi. h j (omega arith) (omega arith)),
)

pub find_entry-some :
    (t : ℕ → Bool) (i n : ℕ) {r : ℕ}
    → find_entry t i n ≡ some r
    → (i ≤ r) × (r < i + n) × (t r ≡ true)
unfolding find_entry
find_entry-some t i zero e = cc
find_entry-some t i (suc n) {r} e = elim (Bool-cases (t i)) [
  | inl h ↦ ground arith
  | inr h ↦ ground (arith, find_entry-some t (i + 1) n {r = r})
]

Bool-eq_of_iff : (a b : Bool) → (a ≡ true → b ≡ true) → (b ≡ true → a ≡ true) → a ≡ b
Bool-eq_of_iff true b f g = sym (f refl)
Bool-eq_of_iff false true f g = g refl
Bool-eq_of_iff false false f g = refl

pub memeq_congr :
    (p p' q q' : Region) (n : ℕ) → Agree n p p' → Agree n q q' → memeq p q n ≡ memeq p' q' n
memeq_congr p p' q q' n h k =
    Bool-eq_of_iff _ _
      (λ e. (memeq_iff p' q' n).1 (λ i lt. sym (h i lt) ∙ (memeq_iff p q n).0 e i lt ∙ k i lt))
      (λ e. (memeq_iff p q n).1 (λ i lt. h i lt ∙ (memeq_iff p' q' n).0 e i lt ∙ sym (k i lt)))

-- an entry lies before those behind it
pub entry_before : (j n size : ℕ) → j < n → j * size + size ≤ n * size
entry_before j n size h = grind arith

pub find_key-open :
    (junk : Region) (m : HashMap) (b : Bucket) (key : Region)
    → find_key m (open_bucket junk b) key ≡ find_key m b key
unfolding open_bucket find_entry
find_key-open junk m b key = elim (Bool-cases (b.len == 0)) [
  | inl e ↦ let z : b.len ≡ 0 = ground arith in rw e (rw z refl)
  | inr e ↦ rw e refl
]

pub find_key-append :
    (m : HashMap) (b : Bucket) (key value key' : Region)
    → find_key m (append_entry m b key value) key'
      ≡ or_next (find_key m b key') (memeq key key' m.key_size) b.len
unfolding append_entry
find_key-append m b key value key' =
    let keys : Region = memcpy b.keys (b.len * m.key_size) key m.key_size in
    let earlier =
      find_entry_congr (key_at m.key_size keys key') (key_at m.key_size b.keys key') 0 b.len
        (λ j lo hi.
          memeq_congr _ _ _ _ m.key_size
            (memcpy_apart b.keys (b.len * m.key_size) key m.key_size (j * m.key_size) m.key_size
              (inr (entry_before j b.len m.key_size (omega arith))))
            (λ i lt. refl)) in
    let last : key_at m.key_size keys key' b.len ≡ memeq key key' m.key_size =
      memeq_congr _ _ _ _ m.key_size (memcpy_self b.keys (b.len * m.key_size) key m.key_size)
        (λ i lt. refl) in
    let z : 0 + b.len ≡ b.len = omega arith in
    rw add-one (rw (find_entry-suc, earlier) (rw (z, last) refl))

pub value-append :
    (m : HashMap) (b : Bucket) (key value : Region) (r : ℕ)
    → r < b.len
    → Agree m.val_size
        (from (append_entry m b key value).values (r * m.val_size))
        (from b.values (r * m.val_size))
unfolding append_entry
value-append m b key value r h =
    memcpy_apart b.values (b.len * m.val_size) value m.val_size (r * m.val_size) m.val_size
      (inr (entry_before r b.len m.val_size h))

pub value-append_last :
    (m : HashMap) (b : Bucket) (key value : Region)
    → Agree m.val_size (from (append_entry m b key value).values (b.len * m.val_size)) value
unfolding append_entry
value-append_last m b key value = memcpy_self b.values (b.len * m.val_size) value m.val_size

pub slot_of_congr :
    (m : HashMap) (key key' : Region) → Agree m.key_size key key' → slot_of m key ≡ slot_of m key'
slot_of_congr m key key' h = rw (tabulate_congr key key' m.key_size h) refl

-- Keys in different buckets differ.
pub elsewhere :
    (m : HashMap) (key key' : Region)
    → (slot_of m key == slot_of m key') ≡ false
    → memeq key key' m.key_size ≡ false
elsewhere m key key' e = elim (Bool-cases (memeq key key' m.key_size)) [
  | inr h ↦ h
  | inl h ↦ ground (arith, slot_of_congr m key key' ((memeq_iff key key' m.key_size).0 h))
]
