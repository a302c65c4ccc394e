-- ===== src/Interrupt/Lock.antt =====
-- `lock_equals` and `lock_stop` of kernel/src/interrupt.c: the types of locks on words in memory.
use ilo_pali.Prelude.{
  ℕ, zero, suc, ◌+◌, ◌*◌, ◌/◌, ◌%◌, ◌^◌, ◌<◌, ◌≡◌, ap, Bool, false, not, ◌&&◌, ◌||◌, ◌==◌,
  if◌then◌else◌, arith,
}
use ilo_pali.Bytes.{Region}
use ilo_pali.Fat.{read_8, read_16, read_32}
use ilo_pali.Elf.{read_64}

-- the switch on `type & 0x06`
abbrev pub equals_at : Region → ℕ → ℕ → ℕ → Bool
equals_at m ref value width =
    if width == 0
    then value == read_8 m ref
    else if width == 2
    then value == read_16 m ref
    else if width == 4
    then value == read_32 m ref
    else if width == 6
    then value == read_64 m ref
    else false

-- `type & 0x06` is `2 * (type / 2 % 4)`.
unfoldable pub lock_equals : Region → ℕ → ℕ → ℕ → Bool
lock_equals m ref type value = equals_at m ref value (2 * (type / 2 % 4))

unfoldable pub lock_stop : Region → ℕ → ℕ → ℕ → Bool
unfolding lock_equals
lock_stop m ref type value =
    ((type % 2 == 0) && not (lock_equals m ref type value))
    || ((type % 2 == 1) && lock_equals m ref type value)

-- the number whose `n` bytes stand at an address, the lowest first
abbrev pub word : Region → ℕ → ℕ → ℕ
word m a zero = 0
word m a (suc n) = m a % 256 + 256 * word m (a + 1) n

equals_at_lem :
    (m : Region) (ref value w : ℕ)
    → w < 4
    → equals_at m ref value (2 * w) ≡ (value == word m ref (2 ^ w))
equals_at_lem m ref value zero lt = ap (λ x. value == x) (omega arith)
equals_at_lem m ref value (suc zero) lt = ap (λ x. value == x) (omega arith)
equals_at_lem m ref value (suc (suc zero)) lt = ap (λ x. value == x) (grind arith)
equals_at_lem m ref value (suc (suc (suc zero))) lt = ap (λ x. value == x) (grind arith)
equals_at_lem m ref value (suc (suc (suc (suc w)))) lt = absurd (omega arith)

lock_equals_lem :
    (m : Region) (ref type value : ℕ)
    → lock_equals m ref type value ≡ (value == word m ref (2 ^ (type / 2 % 4)))
unfolding lock_equals
lock_equals_lem m ref type value = equals_at_lem m ref value (type / 2 % 4) (omega arith)

-- A lock of a type lets go of a value exactly when the word of 1, 2, 4 or 8 bytes at its address,
-- by the type's two upper bits, lowest byte first, differs from the value for an even type, and is
-- the value for an odd one.
pub lock_stop_lem :
    (m : Region) (ref type value : ℕ)
    → lock_stop m ref type value ≡ (
        if type % 2 == 0
        then not (value == word m ref (2 ^ (type / 2 % 4)))
        else value == word m ref (2 ^ (type / 2 % 4)))
unfolding lock_stop
lock_stop_lem m ref type value = ground (arith, lock_equals_lem m ref type value)
