-- ===== src/Strings.antt =====
-- kernel/src/string.c, on strings that end with a zero byte. A `char` has no sign on RISC-V.
pub mod Order
mod Tests
use ilo_pali.Prelude.{
  ℕ, zero, suc, ◌+◌, Bool, ◌&&◌, not, Option, none, some, ltb, ◌==◌, if◌then◌else◌,
}
use ilo_pali.Bytes.{Region}

-- the results -1, 0 and 1
pub data Comparison : Type 0 where
  less equal greater : Comparison

-- the tests behind the loop of `strcmp`, on the bytes where it stopped
abbrev pub compare_bytes : ℕ → ℕ → Comparison
compare_bytes a b = if ltb a b then less else if ltb b a then greater else equal

-- The loop from byte `i` on, with a bound on its rounds, `none` when they run out.
unfoldable pub strcmp_from : ℕ → Region → Region → ℕ → Option Comparison
strcmp_from zero s1 s2 i = none
strcmp_from (suc rounds) s1 s2 i =
    let rest = strcmp_from rounds s1 s2 (i + 1) in
    if not (s1 i == 0) && not (s2 i == 0)
    then (if ltb (s1 i) (s2 i) then some less else if ltb (s2 i) (s1 i) then some greater else rest)
    else some (compare_bytes (s1 i) (s2 i))

unfoldable pub strcmp : ℕ → Region → Region → Option Comparison
unfolding strcmp_from
strcmp rounds s1 s2 = strcmp_from rounds s1 s2 0

unfoldable pub strlen_from : ℕ → Region → ℕ → Option ℕ
strlen_from zero s i = none
strlen_from (suc rounds) s i =
    let rest = strlen_from rounds s (i + 1) in if s i == 0 then some i else rest

-- `int` counts a string below 2^31 bytes.
unfoldable pub strlen : ℕ → Region → Option ℕ
unfolding strlen_from
strlen rounds s = strlen_from rounds s 0
