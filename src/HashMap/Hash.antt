-- ===== src/HashMap/Hash.antt =====
-- The hash of kernel/src/hashmap.c over a key's bytes, read in little-endian words.
use Prim.Native.Nat.{bit_or, bit_xor}
use ilo_pali.Prelude.{ℕ, ◌+◌, ◌*◌, ◌/◌, ◌%◌, ◌^◌, List, [], ◌∷◌, mul64}

abbrev pub seed64 : ℕ
seed64 = 0x517cc1b727220a95

-- `rotl64` by `ROTATE`, which is 5
unfoldable pub rotl64_5 : ℕ → ℕ
rotl64_5 n = bit_or (n * 2 ^ 5 % 2 ^ 64) (n / 2 ^ 59)

unfoldable pub hash_word64 : ℕ → ℕ → ℕ
unfolding rotl64_5
hash_word64 a b = mul64 (bit_xor (rotl64_5 a) b) seed64

abbrev pub word : List ℕ → ℕ
word [] = 0
word (b ∷ bs) = b + 256 * word bs

-- the four stages of `hash_write`, for what is left of the bytes
hash_1 : ℕ → List ℕ → ℕ
hash_1 h (a ∷ rest) = hash_word64 h a
hash_1 h [] = h

hash_2 : ℕ → List ℕ → ℕ
hash_2 h (a ∷ b ∷ rest) = hash_1 (hash_word64 h (word (a ∷ b ∷ []))) rest
hash_2 h rest = hash_1 h rest

hash_4 : ℕ → List ℕ → ℕ
hash_4 h (a ∷ b ∷ c ∷ d ∷ rest) = hash_2 (hash_word64 h (word (a ∷ b ∷ c ∷ d ∷ []))) rest
hash_4 h rest = hash_2 h rest

unfoldable pub hash_write : ℕ → List ℕ → ℕ
unfolding hash_word64 hash_1 hash_2 hash_4
hash_write h (a ∷ b ∷ c ∷ d ∷ e ∷ f ∷ g ∷ i ∷ rest) =
    hash_write (hash_word64 h (word (a ∷ b ∷ c ∷ d ∷ e ∷ f ∷ g ∷ i ∷ []))) rest
hash_write h rest = hash_4 h rest
