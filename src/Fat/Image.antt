-- ===== src/Fat/Image.antt =====
-- Where the clusters of an image lie that `verify_initrd` of kernel/src/fat16.c accepts.
use ilo_pali.Prelude.{
  ◌%◌, ℕ, ◌+◌, ◌*◌, ◌-◌, not, if_true, if_false, Bool-cases, inl, inr, ◌≢◌, ◌^◌, ◌≤◌, ◌<◌, ◌≡◌, ap,
  sym, ◌∙◌, refl, Bool, true, false, some, if◌then◌else◌, arith, ltb, leb, ◌||◌, ◌==◌,
}
use ilo_pali.Bytes.{Region}
use ilo_pali.Fat.{
  read_boot_sector, layout, signature, Fat16Fs, Verified, rejected, divided_by_zero, accepted,
  fat12_limit, fat16_limit, fat_end, check_end, verify_initrd, get_fat_cluster_data, cluster_size,
  add64,
}

abbrev found : Fat16Fs → Verified → Fat16Fs
found d (accepted fs) = fs
found d rejected = d
found d divided_by_zero = d

rejected-accepted : {fs : Fat16Fs} → rejected ≢ accepted fs
rejected-accepted e = cc

after_rejection :
    (b : Bool) (x : Verified) {fs : Fat16Fs}
    → (if b then rejected else x) ≡ accepted fs
    → (b ≡ false) × (x ≡ accepted fs)
after_rejection false x e = (refl, e)
after_rejection true x e = absurd (rejected-accepted e)

after_division :
    (b : Bool) (x : Verified) {fs : Fat16Fs}
    → (if b then divided_by_zero else x) ≡ accepted fs
    → (b ≡ false) × (x ≡ accepted fs)
after_division false x e = (refl, e)
after_division true x e = absurd (cc)

-- What the tests of `verify_initrd` let through.
checked :
    (end : ℕ) (fs fs' : Fat16Fs)
    → check_end end fs ≡ accepted fs'
    → (fs' ≡ fs)
      × (fat12_limit ≤ fs'.cluster_count)
      × (fs'.cluster_count < fat16_limit)
      × (fat_end fs' ≡ end)
checked end fs fs' e =
    let small = ltb fs.cluster_count fat12_limit || leb fat16_limit fs.cluster_count in
    let (limits, e₁) =
      after_rejection small (if fat_end fs == end then accepted fs else rejected) e in
    elim (Bool-cases (fat_end fs == end)) [
      | inl at_end ↦
          let same : fs ≡ fs' = ap (found fs) (sym (if_true _ _ at_end) ∙ e₁) in
          (
            sym same,
            rw (sym same) (ground (arith, limits)),
            rw (sym same) (ground (arith, limits)),
            rw (sym same) (ground arith),
          )
      | inr not_end ↦ absurd (rejected-accepted (sym (if_false _ _ not_end) ∙ e₁))
    ]

verified :
    (m : Region) (start end : ℕ) (fs : Fat16Fs)
    → verify_initrd m start end ≡ accepted fs
    → let b = read_boot_sector m start in
      (0 < b.bytes) × (0 < b.per_cluster) × (check_end end (layout start b) ≡ accepted fs)
unfolding verify_initrd
verified m start end fs e =
    let b = read_boot_sector m start in
    let last = check_end end (layout start b) in
    let divide = if b.bytes == 0 || b.per_cluster == 0 then divided_by_zero else last in
    let (a, e₁) =
      after_rejection (not (b.signature_word == signature))
        (if b.fat_size == 0 || b.total == 0 then rejected else divide) e in
    let (z, e₂) = after_rejection (b.fat_size == 0 || b.total == 0) divide e₁ in
    let (d, e₃) = after_division (b.bytes == 0 || b.per_cluster == 0) last e₂ in
    (ground (arith, d), ground (arith, d), e₃)

cluster_start :
    (fs : Fat16Fs) (c p : ℕ)
    → fs.cluster_count * cluster_size fs < 2 ^ 32
    → fs.data_start + fs.cluster_count * cluster_size fs < 2 ^ 64
    → get_fat_cluster_data fs c ≡ some p
    → (2 ≤ c) × (c ≤ fs.cluster_count) × (p ≡ fs.data_start + (c - 2) * cluster_size fs)
unfolding get_fat_cluster_data
cluster_start fs c p h k e = elim (Bool-cases (ltb fs.cluster_count c || ltb c 2)) [
  | inl out ↦ let null = sym (if_true _ _ out) ∙ e in absurd (cc)
  | inr ok ↦
      let inside : (2 ≤ c) × (c ≤ fs.cluster_count) = ground (arith, ok) in
      let offset = (c - 2) * fs.sectors_per_cluster * fs.bytes_per_sector in
      let place : some (add64 fs.data_start (offset % 2 ^ 32)) ≡ some p =
        sym (if_false _ _ ok) ∙ e in
      let start : add64 fs.data_start (offset % 2 ^ 32) ≡ p = cc in
      let product : offset ≡ (c - 2) * cluster_size fs = grind arith in
      let below : (c - 2) * cluster_size fs ≤ fs.cluster_count * cluster_size fs = grind arith in
      (inside.0, inside.1, omega arith)
]

entry_within : (i n size : ℕ) → i < n → i * size + size ≤ n * size
entry_within i n size h = grind arith

within : (i n size : ℕ) → i + 2 ≤ n → i * size + size + size ≤ n * size
within i n size h =
    omega
      (arith, entry_within i (i + 1) size (omega arith), entry_within (i + 1) n size (omega arith))

-- In an image that `verify_initrd` accepts, of sizes for which no address wraps around, every
-- cluster that `get_fat_cluster_data` hands out lies between the start of the data and the end of
-- the image, and ends a cluster or more before that end: the last cluster is never handed out.
-- Clusters of different ids do not overlap.
pub clusters_in_image :
    (m : Region) (start end : ℕ) (fs : Fat16Fs)
    → verify_initrd m start end ≡ accepted fs
    → fs.cluster_count * cluster_size fs < 2 ^ 32
    → fs.data_start + fs.cluster_count * cluster_size fs < 2 ^ 64
    → (0 < cluster_size fs)
      × ((c p : ℕ)
          → get_fat_cluster_data fs c ≡ some p
          → (fs.data_start ≤ p) × (p + cluster_size fs + cluster_size fs ≤ end))
      × ((c d p q : ℕ)
          → get_fat_cluster_data fs c ≡ some p
          → get_fat_cluster_data fs d ≡ some q
          → c < d
          → p + cluster_size fs ≤ q)
clusters_in_image m start end fs e h k =
    let (bytes, clusters, last) = verified m start end fs e in
    let (same, low, high, at_end) = checked end (layout start (read_boot_sector m start)) fs last in
    let whole : fs.cluster_count * fs.sectors_per_cluster * fs.bytes_per_sector
        ≡ fs.cluster_count * cluster_size fs =
      grind arith in
    (
      rw same (grind (arith, bytes, clusters)),
      λ c p at.
          let (lo, hi, place) = cluster_start fs c p h k at in
          let below = within (c - 2) fs.cluster_count (cluster_size fs) (omega arith) in
          (omega arith, omega (arith, at_end, whole, below, rw whole at at_end)),
      λ c d p q at at' lt.
          let (lo, hi, place) = cluster_start fs c p h k at in
          let (lo', hi', place') = cluster_start fs d q h k at' in
          let below = entry_within (c - 2) (d - 2) (cluster_size fs) (omega arith) in omega arith,
    )
