-- ===== src/Fdt/Names.antt =====
-- Strings and names of nodes in the flat device tree of kernel/src/fdt.c.
use ilo_pali.Prelude.{
  ℕ, zero, suc, ◌+◌, ◌≤◌, ◌<◌, ◌≡◌, ◌≢◌, ◌⊎◌, inl, inr, ap, refl, Bool, true, false, not, ◌&&◌,
  Option, none, some, ◌==◌, arith, Bool-cases,
}
use ilo_pali.Bytes.{Region}
use ilo_pali.Fdt.{skip_string, compare_names, aligned, behind_name}

-- The string at `c` has `n` bytes before its zero.
pub data StringAt (m : Region) : ℕ → ℕ → Type 0 where
  ends : (c : ℕ) → m c ≡ 0 → StringAt m c 0
  goes_on : (c n : ℕ) → m c ≢ 0 → StringAt m (c + 1) n → StringAt m c (suc n)

-- The name at `c`, up to its end or an `@`, is the string at `name`.
pub data Named (m : Region) : ℕ → ℕ → Type 0 where
  same_end : (c name : ℕ) → (m c ≡ 0) ⊎ (m c ≡ b'@') → m name ≡ 0 → Named m c name
  same_byte :
      (c name : ℕ)
      → m c ≢ 0
      → m c ≢ b'@'
      → m c ≡ m name
      → Named m (c + 1) (name + 1)
      → Named m c name

pub skip_string_lem :
    (m : Region) (limit : ℕ) {c n : ℕ}
    → StringAt m c n
    → n < limit
    → skip_string limit m c ≡ some (c + n + 1)
unfolding skip_string
skip_string_lem m zero s h = absurd (omega arith)
skip_string_lem m (suc limit) (ends c e) h = ground arith
skip_string_lem m (suc limit) (goes_on c n ne s) h =
    let e : c + 1 + n + 1 ≡ c + suc n + 1 = omega arith in
    ground (arith, skip_string_lem m limit s (omega arith))

unnamed_at_end :
    {m : Region} {c name : ℕ} → (m c ≡ 0) ⊎ (m c ≡ b'@') → m name ≢ 0 → ¬ Named m c name
unnamed_at_end over ne (same_end c name e z) = ne z
unnamed_at_end (inl z) ne (same_byte c name nz na e rest) = nz z
unnamed_at_end (inr a) ne (same_byte c name nz na e rest) = na a

unnamed_inside : {m : Region} {c name : ℕ} → m c ≢ 0 → m c ≢ b'@' → m c ≢ m name → ¬ Named m c name
unnamed_inside nz na ne (same_end c name (inl z) e) = nz z
unnamed_inside nz na ne (same_end c name (inr a) e) = na a
unnamed_inside nz na ne (same_byte c name nz' na' e rest) = ne e

rest-Named :
    {m : Region} {c name : ℕ} → m c ≢ 0 → m c ≢ b'@' → Named m c name → Named m (c + 1) (name + 1)
rest-Named nz na (same_end c name (inl z) e) = absurd (nz z)
rest-Named nz na (same_end c name (inr a) e) = absurd (na a)
rest-Named nz na (same_byte c name nz' na' e rest) = rest

-- Where a comparison stops, with the rest of the name from there on, and what it says.
pub record Compared (m : Region) (c n name : ℕ) (equals : Bool) (c' : ℕ) : Type 0 where
  pub rest : ℕ
  pub total : c' + rest ≡ c + n
  pub within : rest ≤ n
  pub string : StringAt m c' rest
  pub is_equal : equals ≡ true → Named m c name
  pub is_other : equals ≡ false → ¬ Named m c name

-- `compare_names` comes to a result, which says whether the names are the same.
abbrev pub Compares : ℕ → Region → ℕ → ℕ → ℕ → Type 0
Compares limit m c n name =
    (equals : Bool) × (c' : ℕ) × (compare_names limit m c name ≡ some (equals, c'))
    × Compared m c n name equals c'

module _ (m : Region) (limit : ℕ) {c n : ℕ} (s : StringAt m c n) (name : ℕ) where
  over_names : (m c ≡ 0) ⊎ (m c ≡ b'@') → Compares (suc limit) m c n name
  unfolding compare_names
  over_names over = (
    m name == 0,
    c,
    elim over [ inl z ↦ ground arith | inr a ↦ ground arith ],
    record {
      rest = n;
      total = refl;
      within = omega arith;
      string = s;
      is_equal = λ e. same_end c name over (ground arith);
      is_other = λ e. unnamed_at_end over (λ z. ground arith);
    },
  )

  inside_names :
      m c ≢ 0 → m c ≢ b'@' → (m name ≡ 0) ⊎ (m c ≢ m name) → Compares (suc limit) m c n name
  unfolding compare_names
  inside_names nz na stop = (
    false,
    c,
    elim stop [ inl z ↦ ground arith | inr d ↦ ground arith ],
    record {
      rest = n;
      total = refl;
      within = omega arith;
      string = s;
      is_equal = λ e. absurd (cc);
      is_other = λ e. unnamed_inside nz na (elim stop [ inl z ↦ λ q. ground arith | inr d ↦ d ]);
    },
  )

pub compare_names_lem :
    (m : Region) (limit : ℕ) {c n : ℕ} (name : ℕ)
    → StringAt m c n
    → n < limit
    → Compares limit m c n name
unfolding compare_names
compare_names_lem m zero name s h = absurd (omega arith)
compare_names_lem m (suc limit) name (ends c e) h = over_names m limit (ends c e) name (inl e)
compare_names_lem m (suc limit) name (goes_on c n ne s) h = elim (Bool-cases (m c == b'@')) [
  | inl a ↦ over_names m limit (goes_on c n ne s) name (inr (ground arith))
  | inr a ↦ elim (Bool-cases (not (m name == 0) && (m c == m name))) [
    | inr stop ↦
        inside_names m limit (goes_on c n ne s) name ne (λ q. ground arith)
          (elim (Bool-cases (m name == 0)) [
            | inl z ↦ inl (ground arith)
            | inr nz ↦ inr (λ q. ground arith)
          ])
    | inl on ↦
        let (equals, c', run, is) = compare_names_lem m limit (name + 1) s (omega arith) in
        (
          equals,
          c',
          ground arith,
          record {
            rest = is.rest;
            total = omega (arith, is.total);
            within = omega (arith, is.within);
            string = is.string;
            is_equal = λ e. same_byte c name ne (λ q. ground arith) (ground arith) (is.is_equal e);
            is_other = λ e q. is.is_other e (rest-Named ne (λ q. ground arith) q);
          },
        )
  ]
]

-- the end of a name, from a place in it
pub behind_name_lem :
    (m : Region) (limit : ℕ) {c n : ℕ}
    → StringAt m c n
    → n < limit
    → behind_name limit m c ≡ some (aligned (c + n + 1 + 3))
behind_name_lem m limit s h =
    ap (λ (o : Option ℕ). elim o [ none ↦ none | some c' ↦ some (aligned (c' + 3)) ])
      (skip_string_lem m limit s h)

-- the bytes at `c` are `n` that are no zeros, and a zero
abbrev pub is_string : Region → ℕ → ℕ → Bool
is_string m c zero = m c == 0
is_string m c (suc n) = not (m c == 0) && is_string m (c + 1) n

-- a string that can be read off
pub read_string : (m : Region) (c n : ℕ) → is_string m c n ≡ true → StringAt m c n
read_string m c zero h = ends c (ground arith)
read_string m c (suc n) h = goes_on c n (λ e. ground arith) (read_string m (c + 1) n (ground arith))
