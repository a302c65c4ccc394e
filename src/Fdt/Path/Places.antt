-- ===== src/Fdt/Path/Places.antt =====
-- `fdt_path` of kernel/src/fdt.c: the places of a path, and where the comparison of a name with it stops.
use ilo_pali.Prelude.{
  ℕ, zero, suc, ◌+◌, ◌-◌, ◌≤◌, ◌<◌, ◌≡◌, ◌≢◌, ◌∙◌, ap, sym, refl, ◌&&◌, not, some, ltb, ◌==◌, arith,
  subst, ◌⊎◌, Bool-cases, inl, inr,
}
use ilo_pali.Bytes.{Region}
use ilo_pali.Fdt.Path.{compare_path}
use ilo_pali.Fdt.Names.{StringAt, ends, goes_on}
use ilo_pali.Fdt.Keys.{SameString, both_end, same_byte}

-- The path at `t` is the path at `path`, or a part of it that begins behind a `/`, and no byte
-- between the two ends the string.
pub record Within (m : Region) (path t : ℕ) : Type 0 where
  pub not_before : path ≤ t
  pub no_end : (i : ℕ) → path ≤ i → i < t → m i ≢ 0
  pub begins : (t ≡ path) ⊎ (m (t - 1) ≡ b'/')

pub Within-self : (m : Region) (path : ℕ) → Within m path path
Within-self m path = record {
  not_before = omega arith;
  no_end = λ i lo hi. absurd (omega arith);
  begins = inl refl;
}

pub Within-trans : (m : Region) (path p t : ℕ) → Within m path p → Within m p t → Within m path t
Within-trans m path p t v w = record {
  not_before = omega (arith, v.not_before, w.not_before);
  no_end = λ i lo hi. elim (Bool-cases (ltb i p)) [
    | inl e ↦ v.no_end i lo (ground arith)
    | inr e ↦ w.no_end i (ground arith) hi
  ];
  begins = elim w.begins [
    | inl e ↦ subst (λ x. (x ≡ path) ⊎ (m (x - 1) ≡ b'/')) (sym e) v.begins
    | inr e ↦ inr e
  ];
}

back : (p : ℕ) → p + 1 - 1 ≡ p
back p = omega arith

-- behind a `/`
pub Within-behind :
    (m : Region) (path p : ℕ)
    → path ≤ p
    → ((i : ℕ) → path ≤ i → i < p → m i ≢ 0)
    → m p ≡ b'/'
    → Within m path (p + 1)
Within-behind m path p le whole slash = record {
  not_before = omega arith;
  no_end = λ i lo hi. elim (Bool-cases (i == p)) [
    | inl e ↦ (let here : i ≡ p = ground arith in ground (arith, ap m here))
    | inr e ↦ whole i lo (ground arith)
  ];
  begins = inr (ap m (back p) ∙ slash);
}

-- Where a comparison stops: further on in both, with the rest of the name from there on.
pub record Stops (m : Region) (c n path c' path' : ℕ) : Type 0 where
  pub rest : ℕ
  pub total : c' + rest ≡ c + n
  pub within : rest ≤ n
  pub further : path ≤ path'
  pub no_end : (i : ℕ) → path ≤ i → i < path' → m i ≢ 0
  pub string : StringAt m c' rest
  pub whole : m c' ≡ 0 → m path' ≡ 0 → SameString m c path

pub compare_path_lem :
    (m : Region) (limit : ℕ) {c n : ℕ} (path : ℕ)
    → StringAt m c n
    → n < limit
    → (c' path' : ℕ) × (compare_path limit m c path ≡ some (c', path')) × Stops m c n path c' path'
unfolding compare_path
compare_path_lem m zero path s lt = absurd (omega arith)
compare_path_lem m (suc limit) path (ends c z) lt = (
  c,
  path,
  ground arith,
  record {
    rest = 0;
    total = refl;
    within = omega arith;
    further = omega arith;
    no_end = λ i lo hi. absurd (omega arith);
    string = ends c z;
    whole = λ e f. both_end c path e f;
  },
)
compare_path_lem m (suc limit) path (goes_on c n ne s) lt =
    elim (Bool-cases (not (m path == 0) && not (m path == b'/') && (m c == m path))) [
      | inr stop ↦ (
        c,
        path,
        ground arith,
        record {
          rest = suc n;
          total = refl;
          within = omega arith;
          further = omega arith;
          no_end = λ i lo hi. absurd (omega arith);
          string = goes_on c n ne s;
          whole = λ e f. absurd (ne e);
        },
      )
      | inl on ↦
          let (c', path', run, is) = compare_path_lem m limit (path + 1) s (omega arith) in
          (
            c',
            path',
            ground arith,
            record {
              rest = is.rest;
              total = omega (arith, is.total);
              within = omega (arith, is.within);
              further = omega (arith, is.further);
              no_end = λ i lo hi. elim (Bool-cases (i == path)) [
                | inl e ↦ (let here : i ≡ path = ground arith in ground (arith, ap m here))
                | inr e ↦ is.no_end i (ground arith) hi
              ];
              string = is.string;
              whole = λ e f. same_byte c path ne (ground arith) (is.whole e f);
            },
          )
    ]
