-- ===== src/Fat.antt =====
-- kernel/src/fat16.c and fat16.h: the FAT16 image that holds the first program. `m a` is the byte at
-- the address `a`.
pub mod Chain
pub mod Image
pub mod Directory
mod Tests
use ilo_pali.Prelude.{
  ℕ, zero, suc, ◌+◌, ◌-◌, ◌*◌, ◌/◌, ◌%◌, ◌^◌, Bool, true, false, ◌||◌, not, Option, none, some, ltb,
  leb, ◌==◌, if◌then◌else◌, add64,
}
use ilo_pali.Bytes.{Region, from, memcpy}

abbrev pub signature : ℕ
signature = 0xaa55

abbrev pub fat12_limit : ℕ
fat12_limit = 4085

abbrev pub fat16_limit : ℕ
fat16_limit = 65525

abbrev pub read_8 : Region → ℕ → ℕ
read_8 m a = m a % 2 ^ 8

abbrev pub read_16 : Region → ℕ → ℕ
read_16 m a = read_8 m a + 2 ^ 8 * read_8 m (a + 1)

abbrev pub read_32 : Region → ℕ → ℕ
read_32 m a = read_16 m a + 2 ^ 16 * read_16 m (a + 2)

-- `fat16_fs_t`; the pointers are addresses, and `data_start` is `data`.
pub record Fat16Fs : Type 0 where
  pub bytes_per_sector : ℕ
  pub sectors_per_cluster : ℕ
  pub cluster_count : ℕ
  pub root_entry_count : ℕ
  pub boot_sector : ℕ
  pub fat : ℕ
  pub root_dir : ℕ
  pub data_start : ℕ

-- What `verify_initrd` comes to: the structure of zeros, the structure that it found, or a division
-- by zero, which the code does not test for.
pub data Verified : Type 0 where
  rejected divided_by_zero : Verified
  accepted : Fat16Fs → Verified

-- a product of type `int` as an offset of 64 bits; beyond 2^31 it wraps around
abbrev pub int_offset : ℕ → ℕ
int_offset x = if ltb (x % 2 ^ 32) (2 ^ 31) then x % 2 ^ 32 else x % 2 ^ 32 + (2 ^ 64 - 2 ^ 32)

-- twice the half of such a product, which C rounds towards zero
abbrev pub even_offset : ℕ → ℕ
even_offset x =
    if ltb (x % 2 ^ 32) (2 ^ 31) then x % 2 ^ 32 / 2 * 2 else 2 ^ 64 - (2 ^ 32 - x % 2 ^ 32) / 2 * 2

-- the fields of the boot sector
pub record BootSector : Type 0 where
  pub signature_word : ℕ
  pub bytes : ℕ
  pub per_cluster : ℕ
  pub reserved : ℕ
  pub fats : ℕ
  pub entries : ℕ
  pub total : ℕ
  pub fat_size : ℕ

abbrev pub read_boot_sector : Region → ℕ → BootSector
read_boot_sector m start = record {
  signature_word = read_16 m (start + 0x1fe);
  bytes = read_16 m (start + 11);
  per_cluster = read_8 m (start + 13);
  reserved = read_16 m (start + 14);
  fats = read_8 m (start + 16);
  entries = read_16 m (start + 17);
  total = if read_16 m (start + 19) == 0 then read_32 m (start + 32) else read_16 m (start + 19);
  fat_size = read_16 m (start + 22);
}

-- (root_entry_count * 32 + (bytes_per_sector - 1)) / bytes_per_sector
abbrev pub root_sectors : BootSector → ℕ
root_sectors b = (b.entries * 32 + (b.bytes - 1)) / b.bytes

-- total_sector_count - (...), of 32 bits
abbrev pub data_sectors : BootSector → ℕ
data_sectors b = (b.total + 2 ^ 32 - (b.reserved + b.fats * b.fat_size + root_sectors b)) % 2 ^ 32

abbrev pub layout : ℕ → BootSector → Fat16Fs
layout start b =
    let fat = add64 start (int_offset (b.reserved * b.bytes)) in
    let root_dir = add64 fat (even_offset (b.fats * b.fat_size * b.bytes)) in
    record {
      bytes_per_sector = b.bytes;
      sectors_per_cluster = b.per_cluster;
      cluster_count = data_sectors b / b.per_cluster;
      root_entry_count = b.entries;
      boot_sector = start;
      fat = fat;
      root_dir = root_dir;
      data_start = add64 root_dir (32 * b.entries);
    }

abbrev pub fat_end : Fat16Fs → ℕ
fat_end fs =
    add64 fs.data_start (fs.cluster_count * fs.sectors_per_cluster * fs.bytes_per_sector % 2 ^ 32)

-- the part of `verify_initrd` behind the count of the clusters
abbrev pub check_end : ℕ → Fat16Fs → Verified
check_end end fs =
    if ltb fs.cluster_count fat12_limit || leb fat16_limit fs.cluster_count
    then rejected
    else if fat_end fs == end
    then accepted fs
    else rejected

unfoldable pub verify_initrd : Region → ℕ → ℕ → Verified
verify_initrd m start end =
    let b = read_boot_sector m start in
    if not (b.signature_word == signature)
    then rejected
    else if b.fat_size == 0 || b.total == 0
    then rejected
    else if b.bytes == 0 || b.per_cluster == 0
    then divided_by_zero
    else check_end end (layout start b)

-- `none` is NULL.
unfoldable pub get_fat_cluster_data : Fat16Fs → ℕ → Option ℕ
get_fat_cluster_data fs cluster_id =
    if ltb fs.cluster_count cluster_id || ltb cluster_id 2
    then none
    else some (
        add64 fs.data_start
          ((cluster_id - 2) * fs.sectors_per_cluster * fs.bytes_per_sector % 2 ^ 32))

unfoldable pub get_next_cluster : Region → Fat16Fs → ℕ → ℕ
get_next_cluster m fs cluster_id =
    if ltb fs.cluster_count cluster_id || ltb cluster_id 2
    then 0
    else if ltb ((fs.cluster_count + 2) % 2 ^ 32) (read_16 m (fs.fat + 2 * cluster_id))
    then 0
    else read_16 m (fs.fat + 2 * cluster_id)

abbrev pub cluster_size : Fat16Fs → ℕ
cluster_size fs = fs.sectors_per_cluster * fs.bytes_per_sector

-- The loop of `read_file_full` with a bound on its rounds, `none` when they run out. `buffer` is the
-- region that `malloc` returned, apart from the image, of which `i` clusters are filled.
unfoldable pub read_clusters : ℕ → Region → Fat16Fs → Region → ℕ → ℕ → Option Region
unfolding get_fat_cluster_data get_next_cluster
read_clusters zero m fs buffer i cluster_id = none
read_clusters (suc rounds) m fs buffer i cluster_id = elim (get_fat_cluster_data fs cluster_id) [
  | none ↦ some buffer
  | some p ↦
      read_clusters rounds m fs (memcpy buffer (i * cluster_size fs) (from m p) (cluster_size fs))
        (i + 1) (get_next_cluster m fs cluster_id)
]
