-- ===== src/Fat/Chain.antt =====
-- The chain of clusters that `read_file_full` of kernel/src/fat16.c copies.
use ilo_pali.Prelude.{
  ℕ, zero, suc, ◌+◌, ◌*◌, ◌≤◌, ◌<◌, ◌≡◌, ◌∙◌, refl, none, some, List, [], ◌∷◌, length, get_or,
  arith, inl, inr, Option-cases,
}
use ilo_pali.Bytes.{Region, from, memcpy, Agree, memcpy_self, memcpy_lem}
use ilo_pali.Fat.{Fat16Fs, get_fat_cluster_data, get_next_cluster, cluster_size, read_clusters}

-- The data of the clusters from one on, in order.
pub data Chain (m : Region) (fs : Fat16Fs) : ℕ → List ℕ → Type 0 where
  chain_end : (c : ℕ) → get_fat_cluster_data fs c ≡ none → Chain m fs c []
  link :
      (c p : ℕ) (ps : List ℕ)
      → get_fat_cluster_data fs c ≡ some p
      → Chain m fs (get_next_cluster m fs c) ps
      → Chain m fs c (p ∷ ps)

-- `buffer'` holds the clusters at `ps` from cluster `i` on, and is `buffer` elsewhere.
pub record Copied (m : Region) (size : ℕ) (ps : List ℕ) (i : ℕ) (buffer buffer' : Region)
    : Type 0 where
  pub inside :
      (k : ℕ) → k < length ps → Agree size (from buffer' ((i + k) * size)) (from m (get_or ps k 0))
  pub before : Agree (i * size) buffer' buffer
  pub behind : (a : ℕ) → (i + length ps) * size ≤ a → buffer' a ≡ buffer a

-- One more cluster at the front.
one_more :
    {m : Region} {size : ℕ} (p : ℕ) (ps : List ℕ) (i : ℕ) (buffer buffer' : Region)
    → Copied m size ps (i + 1) (memcpy buffer (i * size) (from m p) size) buffer'
    → Copied m size (p ∷ ps) i buffer buffer'
one_more {m} {size} p ps i buffer buffer' rest = record {
  inside = inside;
  before = λ a h.
      rest.before a (omega (arith, next))
      ∙ ground (arith, memcpy_lem buffer (i * size) (from m p) size a);
  behind = λ a h.
      ground
        (arith, rest.behind a (rw up h), memcpy_lem buffer (i * size) (from m p) size a, spans);
}
  where
    next : (i + 1) * size ≡ i * size + size
    next = grind arith

    up : i + 1 + length ps ≡ i + suc (length ps)
    up = omega arith

    spans : i * size + size ≤ (i + suc (length ps)) * size
    spans = grind arith

    inside :
        (k : ℕ)
        → k < suc (length ps)
        → Agree size (from buffer' ((i + k) * size)) (from m (get_or (p ∷ ps) k 0))
    inside zero h j lt =
        let here : i + 0 ≡ i = omega arith in
        rw here (
          rest.before (i * size + j) (omega (arith, next))
          ∙ memcpy_self buffer (i * size) (from m p) size j lt)
    inside (suc k) h j lt =
        let on : i + suc k ≡ i + 1 + k = omega arith in rw on (rest.inside k (omega arith) j lt)

module _ (m : Region) (fs : Fat16Fs) where
  -- Where every link lowers a measure there is a chain, no longer than the measure.
  bounded_links :
      (rank : ℕ → ℕ)
      → ((c p : ℕ) → get_fat_cluster_data fs c ≡ some p → rank (get_next_cluster m fs c) < rank c)
      → (bound c : ℕ) → rank c ≤ bound
      → (ps : List ℕ) × Chain m fs c ps × (length ps ≤ rank c)
  bounded_links rank lowers zero c le = elim (Option-cases (get_fat_cluster_data fs c)) [
    | inl e ↦ ([], chain_end c e, omega arith)
    | inr (p, e) ↦ absurd (omega (arith, lowers c p e))
  ]
  bounded_links rank lowers (suc bound) c le = elim (Option-cases (get_fat_cluster_data fs c)) [
    | inl e ↦ ([], chain_end c e, omega arith)
    | inr (p, e) ↦
        let lower = lowers c p e in
        let (ps, next, short) =
          bounded_links rank lowers bound (get_next_cluster m fs c) (omega arith) in
        (p ∷ ps, link c p ps e next, omega arith)
  ]

  copied :
      (rounds i : ℕ) (buffer : Region) {c : ℕ} {ps : List ℕ}
      → Chain m fs c ps
      → length ps < rounds
      → (buffer' : Region) × (read_clusters rounds m fs buffer i c ≡ some buffer')
        × Copied m (cluster_size fs) ps i buffer buffer'
  unfolding read_clusters
  copied zero i buffer ch lt = absurd (omega arith)
  copied (suc rounds) i buffer (chain_end c e) lt = (
    buffer,
    rw (e, read_clusters) refl,
    record { inside = λ k h. absurd (omega arith); before = λ a h. refl; behind = λ a h. refl },
  )
  copied (suc rounds) i buffer (link c p ps e next) lt =
      let size = cluster_size fs in
      let filled : Region = memcpy buffer (i * size) (from m p) size in
      let (buffer', run, rest) = copied rounds (i + 1) filled next (omega arith) in
      (buffer', rw (e, read_clusters) run, one_more p ps i buffer buffer' rest)

-- Where every link lowers a measure, the loop of `read_file_full` returns within one round more than
-- the measure of the first cluster. It has copied the clusters of the chain, whole and in order, to
-- the buffer, and written nothing behind the last of them, or in front of cluster `i`.
pub read_clusters_lem :
    (m : Region) (fs : Fat16Fs) (rank : ℕ → ℕ)
    → ((c p : ℕ) → get_fat_cluster_data fs c ≡ some p → rank (get_next_cluster m fs c) < rank c)
    → (c i : ℕ) (buffer : Region)
    → (ps : List ℕ) × Chain m fs c ps
      × (length ps ≤ rank c)
      × (buffer' : Region) × (read_clusters (rank c + 1) m fs buffer i c ≡ some buffer')
      × Copied m (cluster_size fs) ps i buffer buffer'
read_clusters_lem m fs rank lowers c i buffer =
    let (ps, chain, short) = bounded_links m fs rank lowers (rank c) c (omega arith) in
    let (buffer', run, filled) = copied m fs (rank c + 1) i buffer chain (omega arith) in
    (ps, chain, short, buffer', run, filled)

-- From a cluster whose links never leave a set of clusters, such as one that is linked to itself,
-- the loop of `read_file_full` does not return, whatever the number of rounds.
pub read_clusters-never_returns :
    (m : Region) (fs : Fat16Fs) (Cycle : ℕ → Type 0)
    → ((c : ℕ)
        → Cycle c
        → (p : ℕ) × (get_fat_cluster_data fs c ≡ some p) × Cycle (get_next_cluster m fs c))
    → (c : ℕ) → Cycle c
    → (rounds i : ℕ) (buffer : Region) → read_clusters rounds m fs buffer i c ≡ none
unfolding read_clusters
read_clusters-never_returns m fs Cycle stays c on zero i buffer = refl
read_clusters-never_returns m fs Cycle stays c on (suc rounds) i buffer =
    let (p, e, on') = stays c on in
    rw (e, read_clusters)
      (read_clusters-never_returns m fs Cycle stays (get_next_cluster m fs c) on' rounds (i + 1) _)
