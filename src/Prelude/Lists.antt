-- ===== src/Prelude/Lists.antt =====
-- Lists measured and indexed by native numbers, and lists of the values of a function.
use Prim.Native.Nat.{ℕ, zero, suc, ◌+◌, ◌<◌}
use mathlib.Core.Path.{◌≡◌, refl, ap, ap₂}
use mathlib.Core.Option.{Option, none, some}
use mathlib.Core.List.{List, [], ◌∷◌, ◌++◌}
use native.Mathlib.Omega.{arith}

module _ {ℓ} {A : Type ℓ} where
  abbrev pub length : List A → ℕ
  length [] = 0
  length (x ∷ xs) = suc (length xs)

  abbrev pub get_or : List A → ℕ → A → A
  get_or [] i d = d
  get_or (x ∷ xs) zero d = x
  get_or (x ∷ xs) (suc i) d = get_or xs i d

  pub length-append : (xs ys : List A) → length (xs ++ ys) ≡ length xs + length ys
  length-append [] ys = omega arith
  length-append (x ∷ xs) ys = omega (arith, length-append xs ys)

  -- f 0, f 1, ..., f (n - 1)
  abbrev pub tabulate : (ℕ → A) → ℕ → List A
  tabulate f zero = []
  tabulate f (suc n) = f 0 ∷ tabulate (λ i. f (suc i)) n

  pub length-tabulate : (f : ℕ → A) (n : ℕ) → length (tabulate f n) ≡ n
  length-tabulate f zero = refl
  length-tabulate f (suc n) = ap suc (length-tabulate (λ i. f (suc i)) n)

  pub tabulate_congr :
      (f g : ℕ → A) (n : ℕ) → ((i : ℕ) → i < n → f i ≡ g i) → tabulate f n ≡ tabulate g n
  tabulate_congr f g zero h = refl
  tabulate_congr f g (suc n) h =
      ap₂ ◌∷◌ (h 0 (omega arith))
        (tabulate_congr (λ i. f (suc i)) (λ i. g (suc i)) n (λ i lt. h (suc i) (omega arith)))

  pub tabulate-suc : (f : ℕ → A) (n : ℕ) → tabulate f (suc n) ≡ tabulate f n ++ f n ∷ []
  tabulate-suc f zero = refl
  tabulate-suc f (suc n) = ap (λ l. f 0 ∷ l) (tabulate-suc (λ i. f (suc i)) n)

  pub get_or-tabulate : (f : ℕ → A) (n i : ℕ) (d : A) → i < n → get_or (tabulate f n) i d ≡ f i
  get_or-tabulate f zero i d h = absurd (omega arith)
  get_or-tabulate f (suc n) zero d h = refl
  get_or-tabulate f (suc n) (suc i) d h = get_or-tabulate (λ j. f (suc j)) n i d (omega arith)

-- The result is the first of the values that fits, and none where none does.
pub data First (P : ℕ → Type 0) : List ℕ → Option ℕ → Type 0 where
  no_first : First P [] none
  first_here : (x : ℕ) (xs : List ℕ) → P x → First P (x ∷ xs) (some x)
  first_later : (x : ℕ) (xs : List ℕ) (r : Option ℕ) → ¬ P x → First P xs r → First P (x ∷ xs) r
