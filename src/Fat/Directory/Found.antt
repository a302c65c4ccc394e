-- ===== src/Fat/Directory/Found.antt =====
-- `find_file_in_root_directory` of kernel/src/fat16.c finds the first file with a name.
use ilo_pali.Prelude.{
  ℕ, zero, suc, ◌+◌, ◌%◌, ◌^◌, ◌<◌, ◌≤◌, ◌≡◌, ◌∙◌, ap, refl, Bool, true, false, Option, none, some,
  List, [], ◌∷◌, ltb, if◌then◌else◌, arith, Bool-cases, if_true, if_false, inl, inr, First,
  no_first, first_here, first_later,
}
use ilo_pali.Bytes.{Region}
use ilo_pali.Fat.{Fat16Fs}
use ilo_pali.Fat.Directory.{
  PartEnd, differs, ended, goes_on, compare_long, entry, is_long, is_last, find_file,
  find_file_in_root_directory,
}
use ilo_pali.Fat.Directory.Names.{
  Spells, no_more, Judges, other_name, same_name, so_far, name_chars, entry_lem,
}

-- The directory from entry `i` on, where every long name has one entry: the entries of long names,
-- each with the entry of its file behind it, and `k` rounds to the end.
pub data Directory (m : Region) (fs : Fat16Fs) : ℕ → ℕ → List ℕ → Type 0 where
  directory_end : (i : ℕ) → fs.root_entry_count ≤ i → Directory m fs i 0 []
  short_name :
      (i k : ℕ) (ns : List ℕ)
      → i < fs.root_entry_count
      → is_long m (entry fs i) ≡ false
      → Directory m fs (i + 1) k ns
      → Directory m fs i (suc k) ns
  long_name :
      (i k : ℕ) (ns : List ℕ)
      → i < fs.root_entry_count
      → is_long m (entry fs i) ≡ true
      → is_last m (entry fs i) ≡ true
      → Directory m fs (i + 2) k ns
      → Directory m fs i (suc k) (i ∷ ns)

within : {a b : ℕ} → a < b → ltb a b ≡ true
within lt = ground arith

at_end : {a b : ℕ} → b ≤ a → ltb a b ≡ false
at_end le = ground arith

module _ (m : Region) (fs : Fat16Fs) (name : ℕ) where
  -- the name of the entry is `name`
  abbrev pub HasName : ℕ → Type 0
  HasName i = Spells m name (name_chars (entry fs i)) 0

  -- What the loop over the entries of one name comes to.
  abbrev Equal : ℕ → ℕ → Type 0
  Equal limit i =
      (b : Bool) × (compare_long limit m fs name i 0 ≡ some b)
      × (b ≡ true → HasName i)
      × (b ≡ false → ¬ HasName i)

  abbrev after_entry : ℕ → ℕ → PartEnd → Option Bool
  after_entry limit i r = elim r [
    | differs ↦ some false
    | ended ↦ some true
    | goes_on k' ↦
        if is_last m (entry fs i)
        then some true
        else compare_long limit m fs name ((i + 1) % 2 ^ 16) k'
  ]

  judged :
      (limit i : ℕ) {r : PartEnd}
      → is_last m (entry fs i) ≡ true
      → Judges m name (name_chars (entry fs i)) [] 0 r
      → (b : Bool) × (after_entry limit i r ≡ some b)
        × (b ≡ true → HasName i)
        × (b ≡ false → ¬ HasName i)
  judged limit i last (other_name n) = (false, refl, λ e. absurd (cc), λ e. n)
  judged limit i last (same_name s) = (true, refl, λ e. s, λ e. absurd (cc))
  judged limit i last (so_far k f g) =
      (true, if_true _ _ last, λ e. f (no_more k), λ e. absurd (cc))

  long_lem : (limit i : ℕ) → is_last m (entry fs i) ≡ true → Equal (suc limit) i
  unfolding compare_long
  long_lem limit i last = judged limit i last (entry_lem m name (entry fs i) 0)

  -- what the search does behind a name
  abbrev after_name : ℕ → ℕ → ℕ → Option Bool → Option (Option ℕ)
  after_name rounds limit i o = elim o [
    | none ↦ none
    | some equals ↦
        if equals
        then some (some (entry fs (i + 1)))
        else find_file rounds limit m fs name (((i + 1) % 2 ^ 16 + 1) % 2 ^ 16)
  ]

  -- the entry behind a place
  abbrev pub file_behind : Option ℕ → Option ℕ
  file_behind none = none
  file_behind (some i) = some (entry fs (i + 1))

  abbrev Finds : ℕ → ℕ → ℕ → List ℕ → Type 0
  Finds rounds limit i ns =
      (r : Option ℕ) × (find_file rounds limit m fs name i ≡ some (file_behind r))
      × First HasName ns r

  -- The search comes to an end, at the first long name that is `name`.
  find_file_lem :
      (rounds limit : ℕ) {i k : ℕ} {ns : List ℕ}
      → Directory m fs i k ns
      → k < rounds
      → fs.root_entry_count + 2 < 2 ^ 16
      → Finds rounds (suc limit) i ns
  unfolding find_file
  find_file_lem zero limit d lt small = absurd (omega arith)
  find_file_lem (suc rounds) limit (directory_end i le) lt small =
      (none, if_false _ _ (at_end le), no_first)
  find_file_lem (suc rounds) limit (short_name i k ns inside short d) lt small =
      let (r, run, is) = find_file_lem rounds limit d (omega arith) small in
      let next : (i + 1) % 2 ^ 16 ≡ i + 1 = omega arith in
      (
        r,
        if_true _ _ (within inside)
            ∙ if_false _ _ short
            ∙ ap (find_file rounds (suc limit) m fs name) next
            ∙ run,
        is,
      )
  find_file_lem (suc rounds) limit (long_name i k ns inside long last d) lt small =
      let (b, equal, is_named, is_other) = long_lem limit i last in
      let start =
        if_true _ _ (within inside)
        ∙ if_true _ _ long
        ∙ ap (after_name rounds (suc limit) i) equal in
      elim (Bool-cases b) [
        | inl t ↦ (some i, start ∙ if_true _ _ t, first_here i ns (is_named t))
        | inr f ↦
            let (r, run, is) = find_file_lem rounds limit d (omega arith) small in
            let next : ((i + 1) % 2 ^ 16 + 1) % 2 ^ 16 ≡ i + 2 = omega arith in
            (
              r,
              start ∙ if_false _ _ f ∙ ap (find_file rounds (suc limit) m fs name) next ∙ run,
              first_later i ns r (is_other f) is,
            )
      ]

-- In a root directory of fewer than 65534 entries where every long name has one entry, `find_file_in_root_directory` comes to an
-- end within a round for every name and one more. Its result is the entry behind the first long name
-- that is `name` in its 13 characters, or up to its end, and NULL where there is none.
pub find_file_in_root_directory_lem :
    (m : Region) (fs : Fat16Fs) (name rounds limit : ℕ) {k : ℕ} {ns : List ℕ}
    → Directory m fs 0 k ns
    → k < rounds
    → 0 < limit
    → fs.root_entry_count + 2 < 2 ^ 16
    → (r : Option ℕ) × (find_file_in_root_directory rounds limit m fs name
        ≡ some (file_behind m fs name r))
      × First (HasName m fs name) ns r
unfolding find_file_in_root_directory
find_file_in_root_directory_lem m fs name rounds zero d lt pos small = absurd (omega arith)
find_file_in_root_directory_lem m fs name rounds (suc limit) d lt pos small =
    find_file_lem m fs name rounds limit d lt small
