-- ===== src/Strings/Tests.antt =====
-- Two strings.
use ilo_pali.Prelude.{◌≡◌, refl, some, ◌==◌, if◌then◌else◌, arith}
use ilo_pali.Bytes.{Region}
use ilo_pali.Strings.{less, strcmp}
use ilo_pali.Strings.Order.{IsString}

-- "ab"
abbrev short_name : Region
short_name i = if i == 0 then 97 else if i == 1 then 98 else 0

-- "abc"
abbrev long_name : Region
long_name i = if i == 0 then 97 else if i == 1 then 98 else if i == 2 then 99 else 0

short_name-IsString : IsString short_name 2
short_name-IsString = record { ends = refl; goes_on = λ i lt e. ground arith }

prefix_less : strcmp 3 short_name long_name ≡ some less
unfolding strcmp
prefix_less = refl
