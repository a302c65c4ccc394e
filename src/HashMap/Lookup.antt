-- ===== src/HashMap/Lookup.antt =====
-- What `hashmap_get` of kernel/src/hashmap.c finds after an insertion.
use ilo_pali.Prelude.{
  ℕ, suc, ◌<◌, ◌≡◌, refl, Bool, false, Option, none, some, ◌==◌, if◌then◌else◌, arith, inl, inr,
  Bool-cases,
}
use ilo_pali.Bytes.{Region, Agree, memeq}
use ilo_pali.HashMap.{
  Bucket, HashMap, hashmap_max_collision_count, open_bucket, append_entry, add_entry, find_entry,
  find_key, slot_of, hashmap_get, get_in, entry_value, key_at, hashmap_insert,
}
use ilo_pali.HashMap.Slots.{
  or_next, find_entry-some, find_key-append, value-append, value-append_last, elsewhere,
}

-- the same answer: both NULL, or both pointers to the same `n` bytes
abbrev pub SameAnswer : ℕ → Option Region → Option Region → Type 0
SameAnswer n none none = Unit
SameAnswer n none (some q) = ⊥
SameAnswer n (some p) none = ⊥
SameAnswer n (some p) (some q) = Agree n p q

-- an old binding, or else the new one
abbrev pub or_new : Option Region → Bool → Region → Option Region
or_new none new value = if new then some value else none
or_new (some p) new value = some p

get_in-open :
    (m : HashMap) (junk : Region) (b : Bucket) (key : Region)
    → get_in m (open_bucket junk b) key ≡ get_in m b key
unfolding open_bucket find_entry
get_in-open m junk b key = elim (Bool-cases (b.len == 0)) [
  | inl e ↦ let z : b.len ≡ 0 = ground arith in rw e (rw z refl)
  | inr e ↦ rw e refl
]

get_in-append :
    (m : HashMap) (b : Bucket) (key value key' : Region)
    → SameAnswer m.val_size
        (get_in m (append_entry m b key value) key')
        (or_new (get_in m b key') (memeq key key' m.key_size) value)
get_in-append m b key value key' =
    rw (find_key-append m b key value key') (go (find_key m b key') refl)
  where
    go :
        (o : Option ℕ)
        → find_key m b key' ≡ o
        → SameAnswer m.val_size
            (entry_value m.val_size
              (append_entry m b key value)
              (or_next o (memeq key key' m.key_size) b.len))
            (or_new (entry_value m.val_size b o) (memeq key key' m.key_size) value)
    go (some r) e =
        value-append m b key value r (
          let (lo, hi, t) = find_entry-some (key_at m.key_size b.keys key') 0 b.len e in
          omega arith)
    go none e = elim (Bool-cases (memeq key key' m.key_size)) [
      | inl same ↦ rw same (value-append_last m b key value)
      | inr other ↦ rw other tt
    ]

-- An insertion into a bucket with room returns at once, and afterwards every key has the value
-- that it had, if it had one; otherwise the inserted key has the inserted value and any other key
-- none. So a second insertion under a key changes nothing that `hashmap_get` returns.
pub insert-get :
    (rounds : ℕ) (junk : Region) (m : HashMap) (key value : Region)
    → (m.ring (slot_of m key)).len < hashmap_max_collision_count
    → (m' : HashMap) × (hashmap_insert (suc rounds) junk m key value ≡ some m')
      × ((key' : Region)
          → SameAnswer m.val_size
              (hashmap_get m' key')
              (or_new (hashmap_get m key') (memeq key key' m.key_size) value))
unfolding hashmap_insert hashmap_get
insert-get rounds junk m key value room =
    (add_entry junk m (slot_of m key) key value, ground arith, reads)
  where
    unchanged : (a : Option Region) → SameAnswer m.val_size a (or_new a false value)
    unchanged none = tt
    unchanged (some p) = λ i lt. refl

    reads :
        (key' : Region)
        → SameAnswer m.val_size
            (hashmap_get (add_entry junk m (slot_of m key) key value) key')
            (or_new (hashmap_get m key') (memeq key key' m.key_size) value)
    reads key' = elim (Bool-cases (slot_of m key == slot_of m key')) [
      | inr e ↦ rw (e, elsewhere m key key' e) (unchanged (hashmap_get m key'))
      | inl e ↦
          let here : slot_of m key' ≡ slot_of m key = ground arith in
          let b = m.ring (slot_of m key) in
          let added = get_in-append m (open_bucket junk b) key value key' in
          rw e (rw here (rw (get_in-open m junk b key') at added))
    ]
