-- ===== src/Fat/Directory/Tests.antt =====
-- A root directory with one file.
use ilo_pali.Prelude.{
  ℕ, ◌%◌, ◌<◌, ◌≡◌, refl, ◌&&◌, ◌||◌, Option, none, some, [], ◌∷◌, First, ltb, leb, ◌==◌,
  if◌then◌else◌, arith,
}
use ilo_pali.Bytes.{Region}
use ilo_pali.Fat.{Fat16Fs, get_fat_cluster_data, get_next_cluster}
use ilo_pali.Fat.Directory.{find_file_in_root_directory}
use ilo_pali.Fat.Directory.Found.{
  Directory, directory_end, long_name, HasName, file_behind, find_file_in_root_directory_lem,
}
use ilo_pali.Fat.Directory.Read.{Outcome, read_file_full_lem}

-- The name "ab" is at 200; the file has three bytes in cluster 2.
abbrev disk : Region
disk a =
    if a == 0
    then 0x41
    else if a == 1
    then b'a'
    else if a == 3
    then b'b'
    else if a == 11
    then 15
    else if a == 58
    then 2
    else if a == 60
    then 3
    else if a == 150
    then 7
    else if a == 200
    then b'a'
    else if a == 201
    then b'b'
    else 0

abbrev disk_fs : Fat16Fs
disk_fs = record {
  bytes_per_sector = 4;
  sectors_per_cluster = 1;
  cluster_count = 4;
  root_entry_count = 2;
  boot_sector = 300;
  fat = 100;
  root_dir = 0;
  data_start = 150;
}

disk-Directory : Directory disk disk_fs 0 1 (0 ∷ [])
disk-Directory = long_name 0 0 [] (omega arith) refl refl (directory_end 2 (omega arith))

found_file : find_file_in_root_directory 2 1 disk disk_fs 200 ≡ some (some 32)
unfolding find_file_in_root_directory
found_file = refl

find_file_in_root_directory_lem_example :
    (r : Option ℕ) × (find_file_in_root_directory 2 1 disk disk_fs 200
      ≡ some (file_behind disk disk_fs 200 r))
    × First (HasName disk disk_fs 200) (0 ∷ []) r
find_file_in_root_directory_lem_example =
    find_file_in_root_directory_lem disk disk_fs 200 2 1 disk-Directory (omega arith) (omega arith)
      (omega arith)

abbrev rank : ℕ → ℕ
rank c = if c == 0 then 0 else 1

abbrev malloc : ℕ → Option Region
malloc size = if leb size 16 then some (λ i. 0) else none

lowers :
    (c p : ℕ)
    → get_fat_cluster_data disk_fs c ≡ some p
    → rank (get_next_cluster disk disk_fs c) < rank c
unfolding get_fat_cluster_data get_next_cluster
lowers c p e = ground arith

read_file_full_lem_example : Outcome malloc 2 1 disk disk_fs 200 rank (some 32)
read_file_full_lem_example =
    read_file_full_lem malloc 2 1 disk disk_fs 200 rank lowers (some 32) found_file

-- The long name is 13 times `a`, and the name at 200 has a `b` behind as many.
long_disk : Region
long_disk a =
    if a == 0
    then 0x41
    else if a == 11
    then 15
    else if (ltb a 11 && (a % 2 == 1)) || (leb 14 a && ltb a 32 && (a % 2 == 0))
    then b'a'
    else if leb 200 a && ltb a 213
    then b'a'
    else if a == 213
    then b'b'
    else 0

prefix_found : find_file_in_root_directory 2 1 long_disk disk_fs 200 ≡ some (some 32)
unfolding find_file_in_root_directory long_disk
prefix_found = refl
