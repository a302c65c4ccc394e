-- ===== src/HashMap.antt =====
-- kernel/src/hashmap.c: an array of buckets of at most five entries, doubled when one is full.
-- Keys and values are the bytes at the pointers that the functions are given.
pub mod Hash
pub mod Slots
pub mod Lookup
pub mod Find
pub mod Shift
pub mod Remove
pub mod Held
pub mod Growth
mod Tests
use Prim.Native.Nat.{bit_and}
use ilo_pali.Prelude.{
  ℕ, zero, suc, ◌+◌, ◌-◌, ◌*◌, ◌≤◌, ◌<◌, Bool, true, false, Option, none, some, List, [], ◌∷◌, ltb,
  leb, ◌==◌, if◌then◌else◌, tabulate, mul64,
}
use ilo_pali.Bytes.{Region, from, memcpy, memeq}
use Hash.{hash_write}

-- `struct s_hashmap_bucket`
pub record Bucket : Type 0 where
  pub keys : Region
  pub values : Region
  pub len : ℕ

-- `struct s_hashmap`; `ring i` is the bucket `i`, of which there are `cap`.
pub record HashMap : Type 0 where
  pub cap : ℕ
  pub key_size : ℕ
  pub val_size : ℕ
  pub ring : ℕ → Bucket

abbrev pub initial_hashmap_size : ℕ
initial_hashmap_size = 16

abbrev pub hashmap_max_collision_count : ℕ
hashmap_max_collision_count = 5

-- NULL is never read; it stands as a region of zeros.
abbrev pub empty_bucket : Bucket
empty_bucket = record { keys = λ i. 0; values = λ i. 0; len = 0 }

pub create_hashmap : ℕ → ℕ → HashMap
create_hashmap key_size val_size = record {
  cap = initial_hashmap_size;
  key_size = key_size;
  val_size = val_size;
  ring = λ i. empty_bucket;
}

-- the bytes of a key
abbrev pub hash_key : ℕ → Region → ℕ
hash_key key_size key = hash_write 0 (tabulate key key_size)

-- hash & (cap - 1)
abbrev pub slot_of : HashMap → Region → ℕ
slot_of m key = bit_and (hash_key m.key_size key) (m.cap - 1)

abbrev pub set_bucket : (ℕ → Bucket) → ℕ → Bucket → ℕ → Bucket
set_bucket ring i b j = if i == j then b else ring j

-- `malloc` for the arrays of a bucket that holds nothing yet; `junk` is what it returns
pub open_bucket : Region → Bucket → Bucket
open_bucket junk b = if b.len == 0 then record b { keys = junk; values = junk } else b

-- the copies behind the `malloc`, from the regions at `key` and `value`
pub append_entry : HashMap → Bucket → Region → Region → Bucket
append_entry m b key value = record {
  keys = memcpy b.keys (b.len * m.key_size) key m.key_size;
  values = memcpy b.values (b.len * m.val_size) value m.val_size;
  len = b.len + 1;
}

abbrev pub add_entry : Region → HashMap → ℕ → Region → Region → HashMap
add_entry junk m i key value = record m {
  ring = set_bucket m.ring i (append_entry m (open_bucket junk (m.ring i)) key value);
}

-- `hashmap_grow`, for the `n` entries of a bucket from entry `j` on. The values are read at
-- `j * key_size`.
pub move_bucket : Region → HashMap → Bucket → ℕ → ℕ → HashMap
unfolding open_bucket append_entry
move_bucket junk new b j zero = new
move_bucket junk new b j (suc n) =
    let key = from b.keys (j * new.key_size) in
    move_bucket junk (add_entry junk new (slot_of new key) key (from b.values (j * new.key_size))) b
      (j + 1) n

-- for the `n` buckets from bucket `i` on
pub move_ring : Region → HashMap → (ℕ → Bucket) → ℕ → ℕ → HashMap
unfolding move_bucket
move_ring junk new ring i zero = new
move_ring junk new ring i (suc n) =
    move_ring junk (move_bucket junk new (ring i) 0 (ring i).len) ring (i + 1) n

pub hashmap_grow : Region → HashMap → HashMap
unfolding move_ring
hashmap_grow junk m =
    move_ring junk (record m { cap = mul64 m.cap 2; ring = λ i. empty_bucket }) m.ring 0 m.cap

-- The `while (true)` of `hashmap_insert` with a bound on its rounds; `none` when they run out.
pub hashmap_insert : ℕ → Region → HashMap → Region → Region → Option HashMap
unfolding hashmap_grow open_bucket append_entry
hashmap_insert zero junk m key value = none
hashmap_insert (suc rounds) junk m key value =
    let again = hashmap_insert rounds junk (hashmap_grow junk m) key value in
    if ltb (m.ring (slot_of m key)).len hashmap_max_collision_count
    then some (add_entry junk m (slot_of m key) key value)
    else again

-- the `n` buckets from bucket `i` on are empty
pub all_empty : (ℕ → Bucket) → ℕ → ℕ → Bool
all_empty ring i zero = true
all_empty ring i (suc n) = if (ring i).len == 0 then all_empty ring (i + 1) n else false

pub hashmap_empty : HashMap → Bool
unfolding all_empty
hashmap_empty m = all_empty m.ring 0 m.cap

-- the first of the `n` entries from entry `i` on that passes the test
pub find_entry : (ℕ → Bool) → ℕ → ℕ → Option ℕ
find_entry test i zero = none
find_entry test i (suc n) = if test i then some i else find_entry test (i + 1) n

-- memeq(bucket->keys + i * key_size, key, key_size)
abbrev pub key_at : ℕ → Region → Region → ℕ → Bool
key_at key_size keys key i = memeq (from keys (i * key_size)) key key_size

abbrev pub find_key : HashMap → Bucket → Region → Option ℕ
find_key m b key = find_entry (key_at m.key_size b.keys key) 0 b.len

-- `bucket->values + i * val_size`, or NULL
abbrev pub entry_value : ℕ → Bucket → Option ℕ → Option Region
entry_value val_size b none = none
entry_value val_size b (some i) = some (from b.values (i * val_size))

-- the search in one bucket
abbrev pub get_in : HashMap → Bucket → Region → Option Region
get_in m b key = entry_value m.val_size b (find_key m b key)

-- The bytes from the pointer that is returned on; `none` is NULL.
pub hashmap_get : HashMap → Region → Option Region
unfolding find_entry
hashmap_get m key = get_in m (m.ring (slot_of m key)) key

-- `for (j = i; j < len; j++) memcpy(p + j * size, p + (j + 1) * size, size)`, `n` rounds
pub shift_down : ℕ → Region → ℕ → ℕ → Region
shift_down size p j zero = p
shift_down size p j (suc n) =
    shift_down size (memcpy p (j * size) (from p ((j + 1) * size)) size) (j + 1) n

-- the bucket without its entry `i`
pub remove_entry : HashMap → Bucket → ℕ → Bucket
unfolding shift_down
remove_entry m b i = record {
  keys = shift_down m.key_size b.keys i (b.len - i);
  values = shift_down m.val_size b.values i (b.len - i);
  len = b.len - 1;
}

-- the `free` of the arrays of a bucket that holds nothing any more
pub close_bucket : Bucket → Bucket
close_bucket b = if b.len == 0 then empty_bucket else b

pub hashmap_remove : HashMap → Region → HashMap
unfolding find_entry remove_entry close_bucket
hashmap_remove m key =
    let i = slot_of m key in
    let b = m.ring i in
    let b' : Bucket = elim (find_key m b key) [ none ↦ b | some j ↦ remove_entry m b j ] in
    record m { ring = set_bucket m.ring i (close_bucket b') }
