-- ===== src/Mmu/Copying.antt =====
-- `memcpy` of kernel/src/memory.c on the memory of kernel/src/mmu.c, seen by bytes.
use ilo_pali.Prelude.{
  ℕ, zero, suc, ◌+◌, ◌-◌, ◌*◌, ◌/◌, ◌%◌, ◌^◌, ◌≤◌, ◌<◌, ◌≡◌, ◌≢◌, ◌⊎◌, inl, inr, ◌∙◌, ap, sym, refl,
  false, ◌&&◌, ltb, leb, ◌==◌, if◌then◌else◌, arith, add64, Bool-cases, if_true, if_false, ap₂,
}
use ilo_pali.Bytes.{from, memcpy_lem}
use ilo_pali.Bytes as Bytes
use ilo_pali.Mmu.Address.{safe2phys}
use ilo_pali.Mmu.Table.{Memory}
use ilo_pali.Mmu.Bytes.{
  byte_in, with_byte, byte_of_memory, load_byte, store_byte, copy_bytes, memcpy_bytes,
}

byte_in-with_byte : (w k b : ℕ) → byte_in (with_byte w k b) k ≡ b % 256
unfolding byte_in with_byte
byte_in-with_byte w zero b = omega arith
byte_in-with_byte w (suc k) b =
    let up : (with_byte (w / 256) k b * 256 + w % 256) / 256 ≡ with_byte (w / 256) k b =
      omega arith in
    ap (λ x. byte_in x k) up ∙ byte_in-with_byte (w / 256) k b

byte_in-other : (w k j b : ℕ) → k ≢ j → byte_in (with_byte w k b) j ≡ byte_in w j
unfolding byte_in with_byte
byte_in-other w zero zero b ne = absurd (ne refl)
byte_in-other w zero (suc j) b ne = ap (λ x. byte_in x j) (omega arith)
byte_in-other w (suc k) zero b ne = omega arith
byte_in-other w (suc k) (suc j) b ne =
    let up : (with_byte (w / 256) k b * 256 + w % 256) / 256 ≡ with_byte (w / 256) k b =
      omega arith in
    ap (λ x. byte_in x j) up ∙ byte_in-other (w / 256) k j b (λ e. ne (ap suc e))

-- A byte that is stored changes the byte at its address and no other one.
pub byte-store_byte :
    (m : Memory) (p b a : ℕ)
    → byte_of_memory (store_byte m p b) a
      ≡ (if safe2phys m.enabled p == a then b % 256 else byte_of_memory m a)
unfolding store_byte
byte-store_byte m p b a =
    let q = safe2phys m.enabled p in
    elim (Bool-cases (q / 8 * 8 == a / 8 * 8)) [
      | inr e ↦
          let other : (q == a) ≡ false = ground arith in
          ap (λ w. byte_in w (a % 8)) (if_false _ _ e) ∙ sym (if_false _ _ other)
      | inl e ↦ ap (λ w. byte_in w (a % 8)) (if_true _ _ e) ∙ elim (Bool-cases (q == a)) [
        | inl f ↦
            let same : q % 8 ≡ a % 8 = ground arith in
            ap (λ k. byte_in (with_byte (m.words (a / 8 * 8)) k b) (a % 8)) same
            ∙ byte_in-with_byte (m.words (a / 8 * 8)) (a % 8) b
            ∙ sym (if_true _ _ f)
        | inr f ↦
            byte_in-other (m.words (a / 8 * 8)) (q % 8) (a % 8) b (λ g. ground arith)
            ∙ sym (if_false _ _ f)
      ]
    ]

byte_in-lt : (w k : ℕ) → byte_in w k % 256 ≡ byte_in w k
unfolding byte_in
byte_in-lt w zero = omega arith
byte_in-lt w (suc k) = byte_in-lt (w / 256) k

-- The `n` bytes at the pointer `p` are those at the physical address `a`.
abbrev pub Run : Memory → ℕ → ℕ → ℕ → Type 0
Run m p a n = (j : ℕ) → j < n → safe2phys m.enabled (p + j) ≡ a + j

-- the byte at `x` after a copy of `n` bytes from `s` to `d`
abbrev copied : (ℕ → ℕ) → ℕ → ℕ → ℕ → ℕ → ℕ
copied f d s n x = if leb d x && ltb x (d + n) then f (s + (x - d)) else f x

-- a copy of one byte, and then of the others
copied-suc :
    (f g : ℕ → ℕ) (d s n x : ℕ)
    → ((y : ℕ) → g y ≡ (if d == y then f s else f y))
    → (d + suc n ≤ s) ⊎ (s + suc n ≤ d)
    → copied g (d + 1) (s + 1) n x ≡ copied f d s (suc n) x
copied-suc f g d s n x h apart =
    let on : s + 1 + (x - (d + 1)) ≡ s + 1 + (x - d - 1) = omega arith in
    elim (Bool-cases (d == x)) [
      | inl e ↦
          let here : x - d ≡ 0 = ground arith in
          let first : s + (x - d) ≡ s = omega (arith, here) in ground (arith, h x, ap f first)
      | inr e ↦ elim (Bool-cases (leb (d + 1) x && ltb x (d + 1 + n))) [
        | inl i ↦
            let same : s + 1 + (x - (d + 1)) ≡ s + (x - d) = ground arith in
            ground (arith, h (s + 1 + (x - (d + 1))), ap f same)
        | inr i ↦ ground (arith, h x)
      ]
    ]

Run-suc : (m : Memory) (p a n : ℕ) → Run m p a (suc n) → Run m (p + 1) (a + 1) n
Run-suc m p a n r j lt =
    let on : p + 1 + j ≡ p + suc j = omega arith in
    ap (safe2phys m.enabled) on ∙ r (suc j) (omega arith) ∙ omega arith

first_of : (m : Memory) (p a n : ℕ) → Run m p a (suc n) → safe2phys m.enabled p ≡ a
first_of m p a n r =
    let here : p ≡ p + 0 = omega arith in
    ap (safe2phys m.enabled) here ∙ r 0 (omega arith) ∙ omega arith

stored :
    (m : Memory) (dest src d s : ℕ)
    → safe2phys m.enabled dest ≡ d
    → safe2phys m.enabled src ≡ s
    → (y : ℕ)
    → byte_of_memory (store_byte m dest (load_byte m src)) y
      ≡ (if d == y then byte_of_memory m s else byte_of_memory m y)
unfolding load_byte
stored m dest src d s to at y =
    let byte : load_byte m src % 256 ≡ byte_of_memory m s =
      byte_in-lt _ _ ∙ ap (byte_of_memory m) at in
    byte-store_byte m dest (load_byte m src) y
    ∙ ap₂ (λ p b. if p == y then b else byte_of_memory m y) to byte

copy_bytes_lem :
    (n : ℕ) (m : Memory) (dest src d s x : ℕ)
    → Run m dest d n
    → Run m src s n
    → (d + n ≤ s) ⊎ (s + n ≤ d)
    → byte_of_memory (copy_bytes m dest src n) x ≡ copied (byte_of_memory m) d s n x
unfolding copy_bytes
copy_bytes_lem zero m dest src d s x to_run from_run apart = ground arith
copy_bytes_lem (suc n) m dest src d s x to_run from_run apart =
    copy_bytes_lem n (store_byte m dest (load_byte m src)) (dest + 1) (src + 1) (d + 1) (s + 1) x
      (Run-suc m dest d n to_run) (Run-suc m src s n from_run) (omega arith)
    ∙ copied-suc (byte_of_memory m) (byte_of_memory (store_byte m dest (load_byte m src))) d s n x
        (stored m dest src d s (first_of m dest d n to_run) (first_of m src s n from_run)) apart

-- Where the pointers lead to runs of physical memory that lie apart and the end of the first one does
-- not wrap around, `memcpy` on the memory by words is `memcpy` on the memory by bytes.
pub memcpy_bytes-refines :
    (m : Memory) (dest src d s n : ℕ)
    → dest + n < 2 ^ 64
    → Run m dest d n
    → Run m src s n
    → (d + n ≤ s) ⊎ (s + n ≤ d)
    → (x : ℕ)
    → byte_of_memory (memcpy_bytes m dest src n) x
      ≡ Bytes.memcpy (byte_of_memory m) d (from (byte_of_memory m) s) n x
unfolding memcpy_bytes
memcpy_bytes-refines m dest src d s n small to_run from_run apart x =
    let rounds : add64 dest n - dest ≡ n = omega arith in
    ap (λ k. byte_of_memory (copy_bytes m dest src k) x) rounds
    ∙ copy_bytes_lem n m dest src d s x to_run from_run apart
    ∙ sym (memcpy_lem (byte_of_memory m) d (from (byte_of_memory m) s) n x)
