-- ===== src/HashMap/Find.antt =====
-- `hashmap_find` of kernel/src/hashmap.c. The pointers `ip` and `jp` are NULL or point to the
-- place at which to start.
use ilo_pali.Prelude.{
  ℕ, zero, suc, ◌+◌, ◌-◌, ◌*◌, ◌≤◌, ◌<◌, ◌≡◌, Bool, true, false, Option, none, some, arith, inl,
  inr, Bool-cases, Option-cases, ◌==◌,
}
use ilo_pali.Bytes.{Region, from}
use ilo_pali.HashMap.{HashMap, find_entry}
use ilo_pali.HashMap.Slots.{find_entry-some}

-- `found i j p` is the pointer `p`, with `i` and `j` stored; the code stores also where `ip` or
-- `jp` is NULL.
pub data FindResult : Type 0 where
  not_found null_store : FindResult
  found : ℕ → ℕ → Region → FindResult

abbrev pub or_zero : Option ℕ → ℕ
or_zero none = 0
or_zero (some i) = i

abbrev pub stored : Option ℕ → Option ℕ → ℕ → ℕ → Region → FindResult
stored none jp i j p = null_store
stored (some a) none i j p = null_store
stored (some a) (some b) i j p = found i j p

-- `fn(data, key, value)` for entry `j`
abbrev pub accepts : (Region → Region → Bool) → HashMap → ℕ → ℕ → Bool
accepts fn m i j =
    let b = m.ring i in fn (from b.keys (j * m.key_size)) (from b.values (j * m.val_size))

-- the `n` buckets from bucket `i` on, each from entry `j` on
unfoldable pub find_from :
    (Region → Region → Bool) → HashMap → Option ℕ → Option ℕ → ℕ → ℕ → FindResult
unfolding find_entry
find_from fn m ip jp i zero = not_found
find_from fn m ip jp i (suc n) =
    let rest = find_from fn m ip jp (i + 1) n in
    elim (find_entry (accepts fn m i) (or_zero jp) ((m.ring i).len - or_zero jp)) [
      | none ↦ rest
      | some j ↦ stored ip jp i j (from (m.ring i).values (j * m.val_size))
    ]

unfoldable pub hashmap_find : HashMap → (Region → Region → Bool) → Option ℕ → Option ℕ → FindResult
unfolding find_from
hashmap_find m fn ip jp = find_from fn m ip jp (or_zero ip) (m.cap - or_zero ip)

find_entry-before :
    (t : ℕ → Bool) (i n : ℕ) {r : ℕ}
    → find_entry t i n ≡ some r
    → (j : ℕ) → i ≤ j
    → j < r
    → t j ≡ false
unfolding find_entry
find_entry-before t i zero e j lo hi = cc
find_entry-before t i (suc n) {r} e j lo hi = elim (Bool-cases (t i)) [
  | inl h ↦ ground arith
  | inr h ↦ elim (Bool-cases (i == j)) [
    | inl q ↦ let here : j ≡ i = ground arith in rw here h
    | inr q ↦ find_entry-before t (i + 1) n {r = r} (ground arith) j (ground arith) hi
  ]
]

find_entry-none :
    (t : ℕ → Bool) (i n : ℕ) → find_entry t i n ≡ none → (j : ℕ) → i ≤ j → j < i + n → t j ≡ false
unfolding find_entry
find_entry-none t i zero e j lo hi = absurd (omega arith)
find_entry-none t i (suc n) e j lo hi = elim (Bool-cases (t i)) [
  | inl h ↦ ground arith
  | inr h ↦ elim (Bool-cases (i == j)) [
    | inl q ↦ let here : j ≡ i = ground arith in rw here h
    | inr q ↦ find_entry-none t (i + 1) n (ground arith) j (ground arith) (omega arith)
  ]
]

-- No entry of bucket `i` from entry `j` on is accepted.
abbrev pub Passed : (Region → Region → Bool) → HashMap → ℕ → ℕ → Type 0
Passed fn m j i = (k : ℕ) → j ≤ k → k < (m.ring i).len → accepts fn m i k ≡ false

-- What a search from bucket `i` on in the `n` buckets there comes to.
pub data Answer (fn : Region → Region → Bool) (m : HashMap) (i n j : ℕ) : FindResult → Type 0 where
  absent : ((k : ℕ) → i ≤ k → k < i + n → Passed fn m j k) → Answer fn m i n j not_found
  present :
      (r e : ℕ)
      → i ≤ r
      → r < i + n
      → j ≤ e
      → e < (m.ring r).len
      → accepts fn m r e ≡ true
      → ((k : ℕ) → i ≤ k → k < r → Passed fn m j k)
      → ((k : ℕ) → j ≤ k → k < e → accepts fn m r k ≡ false)
      → Answer fn m i n j (found r e (from (m.ring r).values (e * m.val_size)))

module _ (fn : Region → Region → Bool) (m : HashMap) (a j : ℕ) where
  widen :
      (i bound : ℕ)
      → Passed fn m j i
      → ((k : ℕ) → i + 1 ≤ k → k < bound → Passed fn m j k)
      → (k : ℕ) → i ≤ k
      → k < bound
      → Passed fn m j k
  widen i bound here beyond k lo hi = elim (Bool-cases (i == k)) [
    | inl e ↦ let same : k ≡ i = ground arith in rw same here
    | inr e ↦ beyond k (ground arith) hi
  ]

  later :
      (i n : ℕ) {x : FindResult}
      → Passed fn m j i
      → Answer fn m (i + 1) n j x
      → Answer fn m i (suc n) j x
  later i n none_here (absent h) =
      absent (λ k lo hi. widen i (i + 1 + n) none_here h k lo (omega arith))
  later i n none_here (present r e lo hi lo' hi' hit before first) =
      present r e (omega arith) (omega arith) lo' hi' hit (widen i r none_here before) first

  find_from_lem : (i n : ℕ) → Answer fn m i n j (find_from fn m (some a) (some j) i n)
  unfolding find_from
  find_from_lem i zero = absent (λ k lo hi. absurd (omega arith))
  find_from_lem i (suc n) =
      elim (Option-cases (find_entry (accepts fn m i) j ((m.ring i).len - j))) [
        | inl q ↦
            rw (q, find_from)
              (later i n
                (λ k lo hi.
                  find_entry-none (accepts fn m i) j ((m.ring i).len - j) q k lo (omega arith))
                (find_from_lem (i + 1) n))
        | inr (e, q) ↦
            let (lo, hi, hit) = find_entry-some (accepts fn m i) j ((m.ring i).len - j) q in
            rw (q, find_from)
              (present i e (omega arith) (omega arith) lo (omega arith) hit
                (λ k below above. absurd (omega arith))
                (find_entry-before (accepts fn m i) j ((m.ring i).len - j) q))
      ]

-- With both pointers given, `hashmap_find` returns the first entry in the order of buckets, from
-- the bucket `*ip` on, that is accepted among the entries from `*jp` on of every bucket, or NULL
-- when there is none.
pub hashmap_find_lem :
    (m : HashMap) (fn : Region → Region → Bool) (i j : ℕ)
    → Answer fn m i (m.cap - i) j (hashmap_find m fn (some i) (some j))
unfolding hashmap_find
hashmap_find_lem m fn i j = find_from_lem fn m i j i (m.cap - i)
