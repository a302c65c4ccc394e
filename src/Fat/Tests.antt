-- ===== src/Fat/Tests.antt =====
-- A small image, and the chain of one file in it.
use ilo_pali.Prelude.{◌/◌, ℕ, ◌+◌, ◌-◌, ◌≤◌, ◌<◌, ◌≡◌, refl, some, none, ◌==◌, if◌then◌else◌, arith}
use ilo_pali.Bytes.{Region, memcpy}
use ilo_pali.Fat.{
  Fat16Fs, accepted, verify_initrd, get_fat_cluster_data, get_next_cluster, cluster_size,
  read_clusters, Option,
}
use ilo_pali.Fat.Chain.{read_clusters-never_returns}
use ilo_pali.Fat.Image.{clusters_in_image}

-- Sectors of 512 bytes, one to a cluster, one sector before a table of 17 sectors, 16 entries in
-- the root directory, 4104 sectors in all. In the table cluster 2 leads to cluster 3, cluster 3
-- leads nowhere, and cluster 4 leads to itself.
abbrev boot_byte : ℕ → ℕ
boot_byte a =
    if a == 12
    then 2
    else if a == 13
    then 1
    else if a == 14
    then 1
    else if a == 16
    then 1
    else if a == 17
    then 16
    else if a == 19
    then 8
    else if a == 20
    then 16
    else if a == 22
    then 17
    else if a == 0x1fe
    then 0x55
    else if a == 0x1ff
    then 0xaa
    else if a == 0x204
    then 3
    else if a == 0x206
    then 0xff
    else if a == 0x207
    then 0xff
    else if a == 0x208
    then 4
    else 0

abbrev image : Region
image a = boot_byte (a - 0x10000)

abbrev image_fs : Fat16Fs
image_fs = record {
  bytes_per_sector = 512;
  sectors_per_cluster = 1;
  cluster_count = 4085;
  root_entry_count = 16;
  boot_sector = 0x10000;
  fat = 0x10200;
  root_dir = 0x12400;
  data_start = 0x12600;
}

image_accepted : verify_initrd image 0x10000 0x211000 ≡ accepted image_fs
unfolding verify_initrd
image_accepted = refl

clusters_in_image_example :
    (0 < cluster_size image_fs)
    × ((c p : ℕ)
        → get_fat_cluster_data image_fs c ≡ some p
        → (0x12600 ≤ p) × (p + 512 + 512 ≤ 0x211000))
    × ((c d p q : ℕ)
        → get_fat_cluster_data image_fs c ≡ some p
        → get_fat_cluster_data image_fs d ≡ some q
        → c < d
        → p + 512 ≤ q)
clusters_in_image_example =
    clusters_in_image image 0x10000 0x211000 image_fs image_accepted (omega arith) (omega arith)

abbrev InCycle : ℕ → Type 0
InCycle c = c ≡ 4

cycle_stays :
    (c : ℕ)
    → InCycle c
    → (p : ℕ) × (get_fat_cluster_data image_fs c ≡ some p)
      × InCycle (get_next_cluster image image_fs c)
unfolding get_fat_cluster_data get_next_cluster
cycle_stays c e = rw e (0x12a00, refl, refl)

read_clusters-never_returns_example : read_clusters 100 image image_fs (λ a. 0) 0 4 ≡ none
read_clusters-never_returns_example =
    read_clusters-never_returns image image_fs InCycle cycle_stays 4 refl 100 0 (λ a. 0)

-- A file of the clusters 2 and 3 of four, with the table at address 0.
abbrev two_clusters : Region
two_clusters a = if a == 4 then 3 else a / 100

abbrev two_fs : Fat16Fs
two_fs = record image_fs { bytes_per_sector = 16; cluster_count = 4; fat = 0; data_start = 1000 }

abbrev left_from : ℕ → ℕ
left_from c = if c == 2 then 2 else if c == 0 then 0 else 1

left_lowers :
    (c p : ℕ)
    → get_fat_cluster_data two_fs c ≡ some p
    → left_from (get_next_cluster two_clusters two_fs c) < left_from c
unfolding get_fat_cluster_data get_next_cluster
left_lowers c p e = ground arith

abbrev byte_of : Option Region → ℕ → ℕ
byte_of none a = 0
byte_of (some p) a = p a

-- The second cluster comes behind the first.
read_two : byte_of (read_clusters 3 two_clusters two_fs (λ a. 0) 0 2) 17 ≡ two_clusters 1017
unfolding read_clusters memcpy get_fat_cluster_data get_next_cluster
read_two = refl
