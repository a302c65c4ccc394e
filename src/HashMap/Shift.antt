-- ===== src/HashMap/Shift.antt =====
-- The entries of a bucket of kernel/src/hashmap.c that `hashmap_remove` moves down, and the search
-- among them.
use ilo_pali.Prelude.{
  ℕ, zero, suc, ◌+◌, ◌-◌, ◌*◌, ◌≤◌, ◌<◌, ◌≡◌, refl, sym, ◌∙◌, Bool, false, Option, none, some, ltb,
  ◌==◌, if◌then◌else◌, arith, inl, inr, Bool-cases,
}
use ilo_pali.Bytes.{Region, Agree, from, memcpy, memcpy_self, memcpy_apart}
use ilo_pali.HashMap.{find_entry, shift_down}
use ilo_pali.HashMap.Slots.{entry_before}

-- The entries below the removed one stay, and the others move down by one.
pub shift_down-low :
    (size : ℕ) (p : Region) (j n r : ℕ)
    → r < j
    → Agree size (from (shift_down size p j n) (r * size)) (from p (r * size))
unfolding shift_down
shift_down-low size p j zero r h i lt = refl
shift_down-low size p j (suc n) r h i lt =
    let p' : Region = memcpy p (j * size) (from p ((j + 1) * size)) size in
    shift_down-low size p' (j + 1) n r (omega arith) i lt
    ∙ memcpy_apart p (j * size) (from p ((j + 1) * size)) size (r * size) size
        (inr (entry_before r j size h)) i lt

pub shift_down-high :
    (size : ℕ) (p : Region) (j n r : ℕ)
    → j ≤ r
    → r < j + n
    → Agree size (from (shift_down size p j n) (r * size)) (from p ((r + 1) * size))
unfolding shift_down
shift_down-high size p j zero r lo hi i lt = absurd (omega arith)
shift_down-high size p j (suc n) r lo hi i lt =
    let src : Region = from p ((j + 1) * size) in
    let p' : Region = memcpy p (j * size) src size in
    elim (Bool-cases (j == r)) [
      | inl e ↦
          let here : r ≡ j = ground arith in
          rw here (
            shift_down-low size p' (j + 1) n j (omega arith) i lt
            ∙ memcpy_self p (j * size) src size i lt)
      | inr e ↦
          shift_down-high size p' (j + 1) n r (ground arith) (ground arith) i lt
          ∙ memcpy_apart p (j * size) src size ((r + 1) * size) size
              (inl (entry_before j (r + 1) size (omega arith))) i lt
    ]

-- where an entry goes when entry `j` is removed
abbrev pub moved_down : ℕ → Option ℕ → Option ℕ
moved_down j none = none
moved_down j (some r) = some (if ltb r j then r else r - 1)

find_entry-later :
    (t u : ℕ → Bool) (j i n : ℕ)
    → j ≤ i
    → ((r : ℕ) → i ≤ r → r < i + n → u r ≡ t (r + 1))
    → find_entry u i n ≡ moved_down j (find_entry t (i + 1) n)
unfolding find_entry
find_entry-later t u j i zero le h = refl
find_entry-later t u j i (suc n) le h =
    let ih =
      find_entry-later t u j (i + 1) n (omega arith) (λ r lo hi. h r (omega arith) (omega arith)) in
    ground (arith, h i (omega arith) (omega arith), ih)

-- Without entry `j`, which does not pass, the search finds the same entry.
pub find_entry-skip :
    (t u : ℕ → Bool) (j i n : ℕ)
    → i ≤ j
    → j < i + suc n
    → t j ≡ false
    → ((r : ℕ) → i ≤ r → r < j → u r ≡ t r)
    → ((r : ℕ) → j ≤ r → r < i + n → u r ≡ t (r + 1))
    → find_entry u i n ≡ moved_down j (find_entry t i (suc n))
unfolding find_entry
find_entry-skip t u j i zero le lt fails below above =
    let here : j ≡ i = omega arith in let no : t i ≡ false = rw (sym here) fails in rw no refl
find_entry-skip t u j i (suc n) le lt fails below above = elim (Bool-cases (i == j)) [
  | inl e ↦
      let here : j ≡ i = ground arith in
      let no : t i ≡ false = rw (sym here) fails in
      rw no (find_entry-later t u j i (suc n) (omega arith) (λ r lo hi. above r (omega arith) hi))
  | inr e ↦
      let ih =
        find_entry-skip t u j (i + 1) n (ground arith) (omega arith) fails
          (λ r lo hi. below r (omega arith) hi) (λ r lo hi. above r lo (omega arith)) in
      ground (arith, below i (omega arith) (ground arith), ih)
]

pub find_entry-fails :
    (t : ℕ → Bool) (i n : ℕ) → ((r : ℕ) → i ≤ r → r < i + n → t r ≡ false) → find_entry t i n ≡ none
unfolding find_entry
find_entry-fails t i zero h = refl
find_entry-fails t i (suc n) h = ground (
  arith,
  h i (omega arith) (omega arith),
  find_entry-fails t (i + 1) n (λ r lo hi. h r (omega arith) (omega arith)),
)
