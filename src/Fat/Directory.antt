-- ===== src/Fat/Directory.antt =====
-- `find_file_in_root_directory` and `read_file_full` of kernel/src/fat16.c. `limit` bounds the rounds
-- of the loop over the entries of one name, and `rounds` those of the loop over the directory.
pub mod Names
pub mod Found
pub mod Read
mod Tests
use ilo_pali.Prelude.{
  ℕ, zero, suc, ◌+◌, ◌*◌, ◌/◌, ◌%◌, ◌^◌, Bool, true, false, not, Option, none, some, ltb, ◌==◌,
  if◌then◌else◌,
}
use ilo_pali.Bytes.{Region}
use ilo_pali.Fat.{Fat16Fs, read_8, read_16, read_32, read_clusters}

-- What the comparison with a part of a name comes to: the names differ, both end, or it goes on at a
-- place of the name.
pub data PartEnd : Type 0 where
  differs ended : PartEnd
  goes_on : ℕ → PartEnd

-- `n` characters of a long name at `a`, and those of `name` from `k` on
unfoldable pub compare_part : Region → ℕ → ℕ → ℕ → ℕ → PartEnd
compare_part m name a zero k = goes_on k
compare_part m name a (suc n) k =
    let rest = compare_part m name (a + 2) n (k + 1) in
    if not (read_16 m a == read_8 m (name + k))
    then differs
    else if read_8 m (name + k) == 0
    then ended
    else rest

-- one part and, when it does not stop, the next
abbrev pub next_part : PartEnd → (ℕ → PartEnd) → PartEnd
next_part differs f = differs
next_part ended f = ended
next_part (goes_on k) f = f k

-- name1, name2 and name3 of the entry at `e`
abbrev pub compare_entry : Region → ℕ → ℕ → ℕ → PartEnd
compare_entry m name e k =
    next_part (next_part (compare_part m name (e + 1) 5 k) (compare_part m name (e + 14) 6))
      (compare_part m name (e + 28) 2)

abbrev pub entry : Fat16Fs → ℕ → ℕ
entry fs i = fs.root_dir + i * 32

-- (attributes & ATTR_LONG_NAME) == ATTR_LONG_NAME
abbrev pub is_long : Region → ℕ → Bool
is_long m e = read_8 m (e + 11) % 16 == 15

-- (order & 0x40) != 0
abbrev pub is_last : Region → ℕ → Bool
is_last m e = not (read_8 m e / 64 % 2 == 0)

-- The loop over the entries of one name, from entry `j` on: whether the names are equal.
unfoldable pub compare_long : ℕ → Region → Fat16Fs → ℕ → ℕ → ℕ → Option Bool
unfolding compare_part
compare_long zero m fs name j k = none
compare_long (suc limit) m fs name j k = elim (compare_entry m name (entry fs j) k) [
  | differs ↦ some false
  | ended ↦ some true
  | goes_on k' ↦
      if is_last m (entry fs j)
      then some true
      else compare_long limit m fs name ((j + 1) % 2 ^ 16) k'
]

-- The loop over the directory, from entry `i` on; the inner `none` is NULL.
unfoldable pub find_file : ℕ → ℕ → Region → Fat16Fs → ℕ → ℕ → Option (Option ℕ)
unfolding compare_long
find_file zero limit m fs name i = none
find_file (suc rounds) limit m fs name i =
    if ltb i fs.root_entry_count
    then (if is_long m (entry fs i)
        then elim (compare_long limit m fs name i 0) [
          | none ↦ none
          | some equals ↦
              if equals
              then some (some (entry fs (i + 1)))
              else find_file rounds limit m fs name (((i + 1) % 2 ^ 16 + 1) % 2 ^ 16)
        ]
        else find_file rounds limit m fs name ((i + 1) % 2 ^ 16))
    else some none

unfoldable pub find_file_in_root_directory : ℕ → ℕ → Region → Fat16Fs → ℕ → Option (Option ℕ)
unfolding find_file
find_file_in_root_directory rounds limit m fs name = find_file rounds limit m fs name 0

-- the file of the entry at `e`, in what `malloc` returned
abbrev pub read_into : ℕ → Region → Fat16Fs → ℕ → Option Region → Option (Option (Region × ℕ))
read_into rounds m fs e none = some none
read_into rounds m fs e (some buffer) =
    elim (read_clusters rounds m fs buffer 0 (read_16 m (e + 26))) [
      | none ↦ none
      | some buffer' ↦ some (some (buffer', read_32 m (e + 28)))
    ]

abbrev pub read_entry :
    (ℕ → Option Region) → ℕ → Region → Fat16Fs → Option (Option ℕ) → Option (Option (Region × ℕ))
read_entry malloc rounds m fs none = none
read_entry malloc rounds m fs (some none) = some none
read_entry malloc rounds m fs (some (some e)) =
    read_into rounds m fs e (malloc (read_32 m (e + 28)))

-- What `read_file_full` comes to; `malloc` is what `malloc` returns for a size, `none` for NULL.
-- `cluster_rounds` bounds the loop over the clusters.
unfoldable pub read_file_full :
    (ℕ → Option Region) → ℕ → ℕ → ℕ → Region → Fat16Fs → ℕ → Option (Option (Region × ℕ))
unfolding find_file_in_root_directory read_clusters
read_file_full malloc rounds limit cluster_rounds m fs name =
    read_entry malloc cluster_rounds m fs (find_file_in_root_directory rounds limit m fs name)
