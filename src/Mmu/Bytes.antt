-- ===== src/Mmu/Bytes.antt =====
-- Single bytes in the memory of kernel/src/mmu.c's tables, which is seen by its words, lowest byte
-- first, and `memcpy` of kernel/src/memory.c on it.
use ilo_pali.Prelude.{ℕ, zero, suc, ◌+◌, ◌-◌, ◌*◌, ◌/◌, ◌%◌, ◌==◌, if◌then◌else◌, add64}
use ilo_pali.Mmu.Address.{safe2phys}
use ilo_pali.Mmu.Table.{Memory}

-- the byte `k` of a word, the lowest first
unfoldable pub byte_in : ℕ → ℕ → ℕ
byte_in w zero = w % 256
byte_in w (suc k) = byte_in (w / 256) k

unfoldable pub with_byte : ℕ → ℕ → ℕ → ℕ
with_byte w zero b = w / 256 * 256 + b % 256
with_byte w (suc k) b = with_byte (w / 256) k b * 256 + w % 256

-- the byte at a physical address
abbrev pub byte_of_memory : Memory → ℕ → ℕ
byte_of_memory m a = byte_in (m.words (a / 8 * 8)) (a % 8)

unfoldable pub load_byte : Memory → ℕ → ℕ
load_byte m p = let a = safe2phys m.enabled p in byte_in (m.words (a / 8 * 8)) (a % 8)

unfoldable pub store_byte : Memory → ℕ → ℕ → Memory
unfolding with_byte
store_byte m p b =
    let a = safe2phys m.enabled p in
    record m { words = λ c. if a / 8 * 8 == c then with_byte (m.words c) (a % 8) b else m.words c }

unfoldable pub copy_bytes : Memory → ℕ → ℕ → ℕ → Memory
unfolding load_byte store_byte
copy_bytes m dest src zero = m
copy_bytes m dest src (suc n) =
    copy_bytes (store_byte m dest (load_byte m src)) (dest + 1) (src + 1) n

-- `memcpy(dest, src, n)`, whose loop ends at the pointer `dest + n`
unfoldable pub memcpy_bytes : Memory → ℕ → ℕ → ℕ → Memory
unfolding copy_bytes
memcpy_bytes m dest src n = copy_bytes m dest src (add64 dest n - dest)
