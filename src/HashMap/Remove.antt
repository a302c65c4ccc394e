-- ===== src/HashMap/Remove.antt =====
-- What `hashmap_get` of kernel/src/hashmap.c finds after `hashmap_remove`.
use ilo_pali.Prelude.{
  ℕ, suc, ◌+◌, ◌-◌, ◌≤◌, ◌<◌, ◌≡◌, refl, sym, ◌∙◌, true, false, Option, none, some, ltb, ◌==◌,
  if◌then◌else◌, arith, inl, inr, Bool-cases, ◌≢◌,
}
use ilo_pali.Bytes.{Region, memeq, memeq_iff}
use ilo_pali.HashMap.{
  Bucket, HashMap, find_entry, find_key, slot_of, hashmap_get, get_in, entry_value, key_at,
  remove_entry, close_bucket, hashmap_remove,
}
use ilo_pali.HashMap.Slots.{elsewhere, memeq_congr, find_entry_congr, find_entry-some}
use ilo_pali.HashMap.Lookup.{SameAnswer}
use ilo_pali.HashMap.Shift.{
  shift_down-low, shift_down-high, moved_down, find_entry-skip, find_entry-fails,
}

get_in-close :
    (m : HashMap) (b : Bucket) (key : Region) → get_in m (close_bucket b) key ≡ get_in m b key
unfolding close_bucket find_entry
get_in-close m b key = elim (Bool-cases (b.len == 0)) [
  | inl e ↦ let z : b.len ≡ 0 = ground arith in rw e (rw z refl)
  | inr e ↦ rw e refl
]

-- At most one entry of the bucket is under the key.
abbrev pub IsSingle : HashMap → Bucket → Region → Type 0
IsSingle m b key =
    (i j : ℕ)
    → i < b.len
    → j < b.len
    → key_at m.key_size b.keys key i ≡ true
    → key_at m.key_size b.keys key j ≡ true
    → i ≡ j

-- A bucket without its entry `j`, and the search in it for `key'`.
module _ (m : HashMap) (b : Bucket) (j : ℕ) (inside : j < b.len) (key' : Region) where
  keys-below :
      (r : ℕ)
      → r < j
      → key_at m.key_size (remove_entry m b j).keys key' r ≡ key_at m.key_size b.keys key' r
  unfolding remove_entry
  keys-below r h =
      memeq_congr _ _ _ _ m.key_size (shift_down-low m.key_size b.keys j (b.len - j) r h)
        (λ i lt. refl)

  keys-above :
      (r : ℕ)
      → j ≤ r
      → r < b.len - 1
      → key_at m.key_size (remove_entry m b j).keys key' r ≡ key_at m.key_size b.keys key' (r + 1)
  unfolding remove_entry
  keys-above r lo hi =
      memeq_congr _ _ _ _ m.key_size
        (shift_down-high m.key_size b.keys j (b.len - j) r lo (omega arith)) (λ i lt. refl)

  get_in-other :
      key_at m.key_size b.keys key' j ≡ false
      → SameAnswer m.val_size (get_in m (remove_entry m b j) key') (get_in m b key')
  unfolding remove_entry
  get_in-other other = rw search (go (find_key m b key') refl)
    where
      search : find_key m (remove_entry m b j) key' ≡ moved_down j (find_key m b key')
      search =
          let whole : suc (b.len - 1) ≡ b.len = omega arith in
          let skip =
            find_entry-skip (key_at m.key_size b.keys key')
              (key_at m.key_size (remove_entry m b j).keys key') j 0 (b.len - 1) (omega arith)
              (omega arith) other (λ r lo h. keys-below r h)
              (λ r lo hi. keys-above r lo (omega arith)) in
          rw whole at skip

      go :
          (o : Option ℕ)
          → find_key m b key' ≡ o
          → SameAnswer m.val_size
              (entry_value m.val_size (remove_entry m b j) (moved_down j o))
              (entry_value m.val_size b o)
      go none e = tt
      go (some r) e =
          let (lo, hi, hit) = find_entry-some (key_at m.key_size b.keys key') 0 b.len e in
          elim (Bool-cases (ltb r j)) [
            | inl h ↦ rw h (shift_down-low m.val_size b.values j (b.len - j) r (ground arith))
            | inr h ↦ elim (Bool-cases (r == j)) [
              | inl q ↦ let here : r ≡ j = ground arith in absurd (let hit' = rw here at hit in cc)
              | inr q ↦
                  let up : r - 1 + 1 ≡ r = ground arith in
                  let moved =
                    shift_down-high m.val_size b.values j (b.len - j) (r - 1) (ground arith)
                      (omega arith) in
                  rw h (rw up at moved)
            ]
          ]

  get_in-none :
      ((r : ℕ) → r < b.len → r ≢ j → key_at m.key_size b.keys key' r ≡ false)
      → get_in m (remove_entry m b j) key' ≡ none
  unfolding remove_entry
  get_in-none alone =
      let search : find_key m (remove_entry m b j) key' ≡ none =
        find_entry-fails (key_at m.key_size (remove_entry m b j).keys key') 0
          (remove_entry m b j).len
          (λ r lo hi. elim (Bool-cases (ltb r j)) [
            | inl e ↦ keys-below r (ground arith) ∙ alone r (ground arith) (λ h. ground arith)
            | inr e ↦
                keys-above r (ground arith) (omega arith)
                ∙ alone (r + 1) (omega arith) (λ h. ground arith)
          ]) in
      rw search refl

SameAnswer-refl : (n : ℕ) (a : Option Region) → SameAnswer n a a
SameAnswer-refl n none = tt
SameAnswer-refl n (some p) = λ i lt. refl

-- the search in the bucket that `hashmap_remove` leaves
removed-get :
    (m : HashMap) (b : Bucket) (key key' : Region) (o : Option ℕ)
    → find_key m b key ≡ o
    → IsSingle m b key
    → SameAnswer m.val_size
        (get_in m (close_bucket (elim o [ none ↦ b | some j ↦ remove_entry m b j ])) key')
        (if memeq key key' m.key_size then none else get_in m b key')
removed-get m b key key' none e single =
    rw (get_in-close m b key') (elim (Bool-cases (memeq key key' m.key_size)) [
      | inr other ↦ rw other (SameAnswer-refl m.val_size (get_in m b key'))
      | inl same ↦
          let none' : find_key m b key' ≡ none =
            sym (
              find_entry_congr _ _ 0 b.len (λ r lo hi.
                memeq_congr _ _ _ _ m.key_size (λ i lt. refl)
                  ((memeq_iff key key' m.key_size).0 same)))
            ∙ e in
          rw (same, none') tt
    ])
removed-get m b key key' (some j) e single =
    let (lo, inside, hit) = find_entry-some (key_at m.key_size b.keys key) 0 b.len e in
    rw (get_in-close m (remove_entry m b j) key') (elim (Bool-cases (memeq key key' m.key_size)) [
      | inr other ↦ rw other (
          get_in-other m b j (omega arith) key' (
            memeq_congr _ _ _ _ m.key_size ((memeq_iff _ key m.key_size).0 hit) (λ i lt. refl)
            ∙ other))
      | inl same ↦
          let alike : (r : ℕ) → key_at m.key_size b.keys key r ≡ key_at m.key_size b.keys key' r =
            λ r.
              memeq_congr _ _ _ _ m.key_size (λ i lt. refl)
                ((memeq_iff key key' m.key_size).0 same) in
          rw
            (
              same,
              get_in-none m b j (omega arith) key' (λ r lt ne.
                  elim (Bool-cases (key_at m.key_size b.keys key' r)) [
                    | inl h ↦ absurd (ne (single r j lt (omega arith) (alike r ∙ h) hit))
                    | inr h ↦ h
                  ]),
            )
            tt
    ])

-- When at most one entry of its bucket is under the key, `hashmap_get` finds nothing for the key after
-- `hashmap_remove`, and for every other key what it found before.
pub remove-get :
    (m : HashMap) (key : Region)
    → IsSingle m (m.ring (slot_of m key)) key
    → (key' : Region)
    → SameAnswer m.val_size
        (hashmap_get (hashmap_remove m key) key')
        (if memeq key key' m.key_size then none else hashmap_get m key')
unfolding hashmap_remove hashmap_get
remove-get m key single key' = elim (Bool-cases (slot_of m key == slot_of m key')) [
  | inl e ↦
      let here : slot_of m key' ≡ slot_of m key = ground arith in
      rw e (
        rw here (
          removed-get m (m.ring (slot_of m key)) key key' (find_key m (m.ring (slot_of m key)) key)
            refl single))
  | inr e ↦ rw (e, elsewhere m key key' e) (SameAnswer-refl m.val_size (hashmap_get m key'))
]
