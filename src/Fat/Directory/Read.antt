-- ===== src/Fat/Directory/Read.antt =====
-- `read_file_full` of kernel/src/fat16.c from the name to the bytes.
use ilo_pali.Prelude.{ℕ, ◌+◌, ◌<◌, ◌≡◌, ◌∙◌, ap, refl, Option, none, some, List}
use ilo_pali.Bytes.{Region}
use ilo_pali.Fat.{Fat16Fs, read_16, read_32, get_fat_cluster_data, get_next_cluster, cluster_size}
use ilo_pali.Fat.Chain.{Chain, Copied, read_clusters_lem}
use ilo_pali.Fat.Directory.{read_into, read_entry, read_file_full, find_file_in_root_directory}

-- the buffer and the size, when the loop has come to its end
abbrev with_size : ℕ → Option Region → Option (Option (Region × ℕ))
with_size size o = elim o [ none ↦ none | some buffer ↦ some (some (buffer, size)) ]

module _ (malloc : ℕ → Option Region) (rounds limit : ℕ) (m : Region) (fs : Fat16Fs) (name : ℕ)
    (rank : ℕ → ℕ) where
  -- What `read_file_full` is to come to for the entry at `e`, by what `malloc` returned.
  abbrev pub EntryOutcome : ℕ → Option Region → Type 0
  EntryOutcome e none = (r : ℕ) → read_file_full malloc rounds limit r m fs name ≡ some none
  EntryOutcome e (some buffer) =
      (ps : List ℕ) × Chain m fs (read_16 m (e + 26)) ps
      × (buffer' : Region) × (read_file_full malloc rounds limit (rank (read_16 m (e + 26)) + 1) m
            fs name
          ≡ some (some (buffer', read_32 m (e + 28))))
      × Copied m (cluster_size fs) ps 0 buffer buffer'

  -- What it is to come to, by the entry that was found.
  abbrev pub Outcome : Option ℕ → Type 0
  Outcome none = (r : ℕ) → read_file_full malloc rounds limit r m fs name ≡ some none
  Outcome (some e) = EntryOutcome e (malloc (read_32 m (e + 28)))

  read_into_lem :
      ((c p : ℕ) → get_fat_cluster_data fs c ≡ some p → rank (get_next_cluster m fs c) < rank c)
      → (e : ℕ) → find_file_in_root_directory rounds limit m fs name ≡ some (some e)
      → (given : Option Region) → malloc (read_32 m (e + 28)) ≡ given
      → EntryOutcome e given
  unfolding read_file_full
  read_into_lem lowers e there none g =
      λ r. ap (read_entry malloc r m fs) there ∙ ap (read_into r m fs e) g
  read_into_lem lowers e there (some buffer) g =
      let c = read_16 m (e + 26) in
      let (ps, chain, short, buffer', run, filled) =
        read_clusters_lem m fs rank lowers c 0 buffer in
      (
        ps,
        chain,
        buffer',
        ap (read_entry malloc (rank c + 1) m fs) there
            ∙ ap (read_into (rank c + 1) m fs e) g
            ∙ ap (with_size (read_32 m (e + 28))) run,
        filled,
      )

-- `read_file_full`, where the search in the directory comes to an end and every link between clusters
-- lowers a measure: it returns NULL for a file that is not there, or when `malloc` returns NULL. Else
-- it returns, within one round more than the measure, the size in the file's entry and the buffer,
-- which holds the clusters from the file's first one on in their order, and what it held before
-- behind them.
pub read_file_full_lem :
    (malloc : ℕ → Option Region) (rounds limit : ℕ) (m : Region) (fs : Fat16Fs) (name : ℕ)
    (rank : ℕ → ℕ)
    → ((c p : ℕ) → get_fat_cluster_data fs c ≡ some p → rank (get_next_cluster m fs c) < rank c)
    → (found : Option ℕ) → find_file_in_root_directory rounds limit m fs name ≡ some found
    → Outcome malloc rounds limit m fs name rank found
unfolding read_file_full
read_file_full_lem malloc rounds limit m fs name rank lowers none missing =
    λ r. ap (read_entry malloc r m fs) missing
read_file_full_lem malloc rounds limit m fs name rank lowers (some e) there =
    read_into_lem malloc rounds limit m fs name rank lowers e there (malloc (read_32 m (e + 28)))
      refl
