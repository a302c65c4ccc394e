-- ===== src/Fat/Directory/Names.antt =====
-- The comparison of names in `find_file_in_root_directory` of kernel/src/fat16.c.
use ilo_pali.Prelude.{
  ℕ, zero, suc, ◌+◌, ◌≡◌, ◌≢◌, ◌∙◌, subst, sym, true, not, List, [], ◌∷◌, ◌++◌, ◌==◌, arith,
  Bool-cases, if_true, if_false, inl, inr,
}
use ilo_pali.Bytes.{Region}
use ilo_pali.Fat.{read_8, read_16}
use ilo_pali.Fat.Directory.{
  PartEnd, differs, ended, goes_on, compare_part, next_part, compare_entry,
}

-- the places of `n` characters of two bytes
abbrev pub chars : ℕ → ℕ → List ℕ
chars a zero = []
chars a (suc n) = a ∷ chars (a + 2) n

-- The characters at the places are those of `name` from `k` on, up to and with its zero or as far
-- as there are places.
pub data Spells (m : Region) (name : ℕ) : List ℕ → ℕ → Type 0 where
  no_more : (k : ℕ) → Spells m name [] k
  both_end :
      (a k : ℕ) (places : List ℕ)
      → read_16 m a ≡ read_8 m (name + k)
      → read_8 m (name + k) ≡ 0
      → Spells m name (a ∷ places) k
  same_char :
      (a k : ℕ) (places : List ℕ)
      → read_16 m a ≡ read_8 m (name + k)
      → read_8 m (name + k) ≢ 0
      → Spells m name places (k + 1)
      → Spells m name (a ∷ places) k

module _ {m : Region} {name a k : ℕ} {places : List ℕ} where
  same_first : Spells m name (a ∷ places) k → read_16 m a ≡ read_8 m (name + k)
  same_first (both_end _ _ _ e z) = e
  same_first (same_char _ _ _ e nz s) = e

  rest-Spells :
      Spells m name (a ∷ places) k → read_8 m (name + k) ≢ 0 → Spells m name places (k + 1)
  rest-Spells (both_end _ _ _ e z) nz = absurd (nz z)
  rest-Spells (same_char _ _ _ e nz s) nz' = s

-- What a comparison says of the characters at some places, when `rest` are those behind it.
pub data Judges (m : Region) (name : ℕ) (places rest : List ℕ) (k : ℕ) : PartEnd → Type 0 where
  other_name : ¬ Spells m name places k → Judges m name places rest k differs
  same_name : Spells m name places k → Judges m name places rest k ended
  so_far :
      (k' : ℕ)
      → (Spells m name rest k' → Spells m name places k)
      → (Spells m name places k → Spells m name rest k')
      → Judges m name places rest k (goes_on k')

one_char :
    {m : Region} {name a k : ℕ} {places rest : List ℕ} {r : PartEnd}
    → read_16 m a ≡ read_8 m (name + k)
    → read_8 m (name + k) ≢ 0
    → Judges m name places rest (k + 1) r
    → Judges m name (a ∷ places) rest k r
one_char e nz (other_name n) = other_name (λ s. n (rest-Spells s nz))
one_char e nz (same_name s) = same_name (same_char _ _ _ e nz s)
one_char e nz (so_far k' f g) =
    so_far k' (λ s. same_char _ _ _ e nz (f s)) (λ s. g (rest-Spells s nz))

different : {x y : ℕ} → not (x == y) ≡ true → x ≢ y
different ne e = ground arith

pub part_lem :
    (m : Region) (name a n k : ℕ) (rest : List ℕ)
    → Judges m name (chars a n ++ rest) rest k (compare_part m name a n k)
unfolding compare_part
part_lem m name a zero k rest = so_far k (λ s. s) (λ s. s)
part_lem m name a (suc n) k rest =
    let J = Judges m name (a ∷ (chars (a + 2) n ++ rest)) rest k in
    elim (Bool-cases (not (read_16 m a == read_8 m (name + k)))) [
      | inl ne ↦ subst J (sym (if_true _ _ ne)) (other_name (λ s. different ne (same_first s)))
      | inr eq ↦
          let e : read_16 m a ≡ read_8 m (name + k) = ground arith in
          elim (Bool-cases (read_8 m (name + k) == 0)) [
            | inl z ↦
                subst J (sym (if_false _ _ eq ∙ if_true _ _ z))
                  (same_name (both_end _ _ _ e (ground arith)))
            | inr nz ↦
                subst J (sym (if_false _ _ eq ∙ if_false _ _ nz))
                  (one_char e (λ z. ground arith) (part_lem m name (a + 2) n (k + 1) rest))
          ]
    ]

further :
    {m : Region} {name k k' : ℕ} {places rest rest' : List ℕ} {r : PartEnd}
    → (Spells m name rest k' → Spells m name places k)
    → (Spells m name places k → Spells m name rest k')
    → Judges m name rest rest' k' r
    → Judges m name places rest' k r
further h h' (other_name n) = other_name (λ s. n (h' s))
further h h' (same_name s) = same_name (h s)
further h h' (so_far k f g) = so_far k (λ s. h (f s)) (λ s. g (h' s))

pub next_part_lem :
    {m : Region} {name k : ℕ} {places rest rest' : List ℕ} {r : PartEnd} (f : ℕ → PartEnd)
    → Judges m name places rest k r
    → ((k' : ℕ) → Judges m name rest rest' k' (f k'))
    → Judges m name places rest' k (next_part r f)
next_part_lem f (other_name n) g = other_name n
next_part_lem f (same_name s) g = same_name s
next_part_lem f (so_far k' h h') g = further h h' (g k')

-- the places of the characters of the entry at `e`
abbrev pub name_chars : ℕ → List ℕ
name_chars e = chars (e + 1) 5 ++ (chars (e + 14) 6 ++ chars (e + 28) 2)

-- The comparison with an entry.
pub entry_lem :
    (m : Region) (name e k : ℕ) → Judges m name (name_chars e) [] k (compare_entry m name e k)
entry_lem m name e k =
    next_part_lem (compare_part m name (e + 28) 2)
      (next_part_lem (compare_part m name (e + 14) 6)
        (part_lem m name (e + 1) 5 k (chars (e + 14) 6 ++ chars (e + 28) 2))
        (λ k'. part_lem m name (e + 14) 6 k' (chars (e + 28) 2)))
      (λ k'. part_lem m name (e + 28) 2 k' [])
