-- ===== src/Malloc/Linked.antt =====
-- The doubly linked list of the used buckets of kernel/src/memory.c.
use ilo_pali.Prelude.{ℕ, ◌≡◌, ◌≢◌, ◌∙◌, sym, refl, List, [], ◌∷◌, ◌++◌, arith}
use ilo_pali.Malloc.{put, put_at}

-- Every item has the property.
pub data All (P : ℕ → Type 0) : List ℕ → Type 0 where
  none_left : All P []
  one_more : (x : ℕ) (xs : List ℕ) → P x → All P xs → All P (x ∷ xs)

-- `b` is not among the items.
abbrev pub Without : ℕ → List ℕ → Type 0
Without b xs = All (λ x. x ≢ b) xs

pub data Distinct : List ℕ → Type 0 where
  no_item : Distinct []
  item : (x : ℕ) (xs : List ℕ) → Without x xs → Distinct xs → Distinct (x ∷ xs)

-- The buckets `xs`, linked both ways from `p` on; `before` is what stands in front of them.
pub data Linked (next prev : ℕ → ℕ) : ℕ → ℕ → List ℕ → Type 0 where
  no_bucket : (before : ℕ) → Linked next prev before 0 []
  bucket :
      (before p q : ℕ) (xs : List ℕ)
      → p ≢ 0
      → prev p ≡ before
      → next p ≡ q
      → Linked next prev p q xs
      → Linked next prev before p (p ∷ xs)

pub All-both : {P Q : ℕ → Type 0} {xs : List ℕ} → All P xs → All Q xs → All (λ x. P x × Q x) xs
All-both none_left b = none_left
All-both (one_more x xs h a) (one_more _ _ k b) = one_more x xs (h, k) (All-both a b)

pub All-map : {P Q : ℕ → Type 0} {xs : List ℕ} → ((x : ℕ) → P x → Q x) → All P xs → All Q xs
All-map f none_left = none_left
All-map f (one_more x xs h a) = one_more x xs (f x h) (All-map f a)

pub All-append_left : {P : ℕ → Type 0} (xs ys : List ℕ) → All P (xs ++ ys) → All P xs
All-append_left [] ys a = none_left
All-append_left (x ∷ xs) ys (one_more _ _ h a) = one_more x xs h (All-append_left xs ys a)

pub All-append_right : {P : ℕ → Type 0} (xs ys : List ℕ) → All P (xs ++ ys) → All P ys
All-append_right [] ys a = a
All-append_right (x ∷ xs) ys (one_more _ _ h a) = All-append_right xs ys a

pub All-without :
    {P : ℕ → Type 0} (xs : List ℕ) (q : ℕ) (ys : List ℕ) → All P (xs ++ q ∷ ys) → All P (xs ++ ys)
All-without [] q ys (one_more _ _ h a) = a
All-without (x ∷ xs) q ys (one_more _ _ h a) = one_more x _ h (All-without xs q ys a)

pub Distinct-without :
    (xs : List ℕ) (q : ℕ) (ys : List ℕ) → Distinct (xs ++ q ∷ ys) → Distinct (xs ++ ys)
Distinct-without [] q ys (item _ _ w d) = d
Distinct-without (x ∷ xs) q ys (item _ _ w d) =
    item x _ (All-without xs q ys w) (Distinct-without xs q ys d)

pub put-other : (f : ℕ → ℕ) (a v : ℕ) {x : ℕ} → x ≢ a → put f a v x ≡ f x
put-other f a v ne = ground arith

pub put-same : (f : ℕ → ℕ) (a v : ℕ) → put f a v a ≡ v
put-same f a v = ground arith

pub put_at-other : (f : ℕ → ℕ) (a v : ℕ) {x : ℕ} → x ≢ a → put_at f a v x ≡ f x
put_at-other f a v ne = ground arith

pub put_at-same : (f : ℕ → ℕ) (a v : ℕ) → a ≢ 0 → put_at f a v a ≡ v
put_at-same f a v ne = ground arith

-- Other links elsewhere leave the list as it is.
pub Linked-elsewhere :
    {next prev next' prev' : ℕ → ℕ} {P : ℕ → Type 0} {before p : ℕ} {xs : List ℕ}
    → ((x : ℕ) → P x → next' x ≡ next x)
    → ((x : ℕ) → P x → prev' x ≡ prev x)
    → All P xs
    → Linked next prev before p xs
    → Linked next' prev' before p xs
Linked-elsewhere n v a (no_bucket before) = no_bucket before
Linked-elsewhere n v (one_more _ _ h a) (bucket before p q xs nz e f l) =
    bucket before p q xs nz (v p h ∙ e) (n p h ∙ f) (Linked-elsewhere n v a l)

-- A list behind another item: `if (p != NULL) p->prev = before`.
pub Linked-behind :
    {next prev : ℕ → ℕ} {old p : ℕ} {xs : List ℕ} (before : ℕ)
    → Distinct xs
    → Linked next prev old p xs
    → Linked next (put_at prev p before) before p xs
Linked-behind before d (no_bucket _) = no_bucket before
Linked-behind {prev = prev} before (item _ _ w d) (bucket old p q xs nz e f l) =
    bucket before p q xs nz (put_at-same prev p before nz) f
      (Linked-elsewhere (λ x h. refl) (λ x h. put_at-other prev p before h) w l)

-- The last item in front of `q` is none of those that the list in front does not have.
pub prev-front :
    {next prev : ℕ → ℕ} {before p : ℕ} (y : ℕ) (xs : List ℕ) (q : ℕ) (ys : List ℕ)
    → Linked next prev before p (xs ++ q ∷ ys)
    → y ≢ before
    → Without y xs
    → prev q ≢ y
prev-front y [] q ys (bucket before _ _ _ nz e f l) ne w same = ne (sym same ∙ e)
prev-front y (x ∷ xs) q ys (bucket before _ _ _ nz e f l) ne (one_more _ _ h w) same =
    prev-front y xs q ys l (λ eq. h (sym eq)) w same
