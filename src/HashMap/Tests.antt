-- ===== src/HashMap/Tests.antt =====
-- Runs of the hash map, and its theorems at small maps.
use ilo_pali.Prelude.{ℕ, ◌+◌, ◌≡◌, refl, Option, some, none, arith, Bool, if◌then◌else◌, ltb, ◌==◌}
use ilo_pali.Bytes.{memeq_iff, from, Region, memcpy, memeq}
use ilo_pali.HashMap.Hash.{hash_write}
use ilo_pali.HashMap.{
  HashMap, create_hashmap, slot_of, hashmap_grow, hashmap_insert, hashmap_get, hashmap_remove,
}
use ilo_pali.HashMap.Lookup.{SameAnswer, or_new, insert-get}
use ilo_pali.HashMap.Remove.{IsSingle, remove-get}
use ilo_pali.HashMap.Find.{Answer, found, hashmap_find, hashmap_find_lem}
use ilo_pali.HashMap.Held.{held, held_at}
use ilo_pali.HashMap.Growth.{insert-never_returns}

abbrev junk : Region
junk i = 255

-- one byte for a key, two for a value
abbrev fresh : HashMap
fresh = record {
  cap = 16;
  key_size = 1;
  val_size = 2;
  ring = λ i. record { keys = λ j. 0; values = λ j. 0; len = 0 };
}

abbrev key : Region
key i = 7

abbrev value : Region
value i = i + 40

fresh_lem : create_hashmap 1 2 ≡ fresh
unfolding create_hashmap
fresh_lem = refl

hash_seven : slot_of fresh key ≡ 3
unfolding hash_write
hash_seven = refl

insert-get_example :
    (m' : HashMap) × (hashmap_insert 1 junk fresh key value ≡ some m')
    × ((key' : Region)
        → SameAnswer 2
            (hashmap_get m' key')
            (or_new (hashmap_get fresh key') (memeq key key' 1) value))
insert-get_example = insert-get 0 junk fresh key value (omega arith)

-- Five entries under one key, in every bucket.
abbrev crowded : HashMap
crowded = record fresh { cap = 1; ring = λ i. record { keys = λ j. 7; values = λ j. 0; len = 5 } }

crowded_held : held_at crowded key ≡ 5
unfolding held memeq
crowded_held = refl

insert-never_returns_example : hashmap_insert 20 junk crowded key value ≡ none
insert-never_returns_example =
    insert-never_returns 20 junk crowded key value (omega arith) (omega arith)
      (omega (arith, crowded_held))

-- Two keys in one bucket: 7 with the value 40 41, and 9 with the value 50 51.
abbrev pair : HashMap
pair = record fresh {
  cap = 1;
  ring = λ i. record {
    keys = λ j. if j == 0 then 7 else 9;
    values = λ j. if ltb j 2 then j + 40 else j + 48;
    len = 2;
  };
}

abbrev first_byte : Option Region → ℕ
first_byte none = 0
first_byte (some p) = p 0

-- A growth reads the second value at the offset of the second key.
grown_value :
    (first_byte (hashmap_get pair (λ i. 9)) ≡ 50)
    × (first_byte (hashmap_get (hashmap_grow junk pair) (λ i. 9)) ≡ 41)
unfolding hashmap_get hashmap_grow memeq memcpy hash_write
grown_value = (refl, refl)

pair-IsSingle : IsSingle pair (pair.ring 0) key
pair-IsSingle i j hi hj a b =
    ground (arith, (memeq_iff _ key 1).0 a 0 (omega arith), (memeq_iff _ key 1).0 b 0 (omega arith))

remove-get_example :
    SameAnswer 2 (hashmap_get (hashmap_remove pair key) (λ i. 9)) (hashmap_get pair (λ i. 9))
unfolding memeq
remove-get_example = remove-get pair key pair-IsSingle (λ i. 9)

abbrev is_second : Region → Region → Bool
is_second k v = v 0 == 50

find_second :
    (hashmap_find pair is_second (some 0) (some 0) ≡ found 0 1 (from (pair.ring 0).values 2))
unfolding hashmap_find
find_second = refl

hashmap_find_lem_example :
    Answer is_second pair 0 1 0 (hashmap_find pair is_second (some 0) (some 0))
hashmap_find_lem_example = hashmap_find_lem pair is_second 0 0
