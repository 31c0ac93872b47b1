-- ===== src/Codes/Luhn/Detection.antt =====
-- What the check digit of code.go guarantees.
use mathlib.Core.List.{reverse, reverse-cons}
use coin.Base.{
  ℕ, ◌+◌, ◌-◌, ◌%◌, ◌≡◌, ◌≢◌, refl, ◌↔◌, Bool, true, false, not, some, [], ◌∷◌, ◌++◌, arith,
  Bool-cases, inl, inr, sym, ◌⊎◌,
}
use coin.Codes.Luhn.{
  Bytes, only_digits, luhn_digit, luhn_sum, compute_luhn_check_digit, append_luhn, is_empty,
  is_valid_luhn,
}
use coin.Codes.Luhn.Sums.{
  IsDigit, luhn_sum-cons, flip, luhn_sum-append, luhn_digit_bound, luhn_digit_injective,
  luhn_digit_swap, only_digits-append, only_digits-cons, only_digits_intro, reverse-middle,
}

-- The two halves of the check.
is_valid_luhn_parts :
    (v : Bytes)
    → is_empty v ≡ false
    → (is_valid_luhn v ≡ true) ↔ ((only_digits v ≡ true) × (luhn_sum 0 false (reverse v) % 10 ≡ 0))
unfolding is_valid_luhn
is_valid_luhn_parts v h = (λ e. ground arith, λ (o, z). ground arith)

middle_nonempty : (u v : Bytes) (c : ℕ) → is_empty (u ++ c ∷ v) ≡ false
middle_nonempty [] v c = refl
middle_nonempty (x ∷ u) v c = refl

-- The sum of a code, with the part of one byte in the open.
sum_middle :
    (u v : Bytes) (c : ℕ)
    → luhn_sum 0 false (reverse (u ++ c ∷ v))
      ≡ luhn_sum 0 false (reverse v)
        + luhn_digit (flip (reverse v) false) c
        + luhn_sum 0 (not (flip (reverse v) false)) (reverse u)
sum_middle u v c = rw (reverse-middle u v c) (
    omega (
      arith,
      luhn_sum-append false (reverse v) (c ∷ reverse u),
      luhn_sum-cons (flip (reverse v) false) c (reverse u),
    ))

digits_middle :
    (u v : Bytes) (c : ℕ)
    → only_digits (u ++ c ∷ v) ≡ true
    → IsDigit c × (only_digits u ≡ true) × (only_digits v ≡ true)
digits_middle u v c h = ground (arith, only_digits-append u (c ∷ v), only_digits-cons c v)

digits_middle_intro :
    (u v : Bytes) (c : ℕ)
    → IsDigit c
    → only_digits u ≡ true
    → only_digits v ≡ true
    → only_digits (u ++ c ∷ v) ≡ true
digits_middle_intro u v c d hu hv =
    ground (arith, only_digits-append u (c ∷ v), only_digits_intro c v)

pub compute_luhn_check_digit-IsDigit : (body : Bytes) → IsDigit (compute_luhn_check_digit body)
unfolding compute_luhn_check_digit
compute_luhn_check_digit-IsDigit body = omega arith

-- The sum of a code that ends in the digit `c`, which is not doubled.
sum_last :
    (body : Bytes) (c : ℕ)
    → IsDigit c
    → luhn_sum 0 false (reverse (body ++ c ∷ [])) ≡ (c - 48) + luhn_sum 0 true (reverse body)
unfolding luhn_sum luhn_digit
sum_last body c h = rw (sum_middle body [] c) (ground arith)

check_digit_sum :
    (body : Bytes) (c : ℕ)
    → IsDigit c
    → (((c - 48) + luhn_sum 0 true (reverse body)) % 10 ≡ 0) ↔ (c ≡ compute_luhn_check_digit body)
unfolding compute_luhn_check_digit
check_digit_sum body c h = (λ e. omega arith, λ e. omega arith)

-- Behind a body of digits exactly one digit makes a valid code, the computed one.
pub check_digit_unique :
    (body : Bytes) (c : ℕ)
    → only_digits body ≡ true
    → IsDigit c
    → (is_valid_luhn (body ++ c ∷ []) ≡ true) ↔ (c ≡ compute_luhn_check_digit body)
check_digit_unique body c hb hc =
    let parts = is_valid_luhn_parts (body ++ c ∷ []) (middle_nonempty body [] c) in
    let sums = check_digit_sum body c hc in
    (
      λ e. sums.0 (rw (sum_last body c hc) at ((parts.0 e).1)),
      λ e. parts.1 (
        digits_middle_intro body [] c hc hb (unfold only_digits in refl),
        rw (sum_last body c hc) (sums.1 e),
      ),
    )

-- A code that was extended by its check digit is valid.
pub is_valid_luhn-append_luhn :
    (body : Bytes) {v : Bytes} → append_luhn body ≡ some v → is_valid_luhn v ≡ true
unfolding append_luhn
is_valid_luhn-append_luhn body h = elim (Bool-cases (only_digits body)) [
  | inl digits ↦ ground (
    arith,
    (check_digit_unique body (compute_luhn_check_digit body) digits
          (compute_luhn_check_digit-IsDigit body)).1
        refl,
  )
  | inr other ↦ ground arith
]

invalid_of_sum : (v : Bytes) → luhn_sum 0 false (reverse v) % 10 ≢ 0 → is_valid_luhn v ≡ false
unfolding is_valid_luhn
invalid_of_sum v h = ground arith

-- Any one digit replaced by another makes a valid code invalid.
pub single_digit_error :
    (u v : Bytes) (c d : ℕ)
    → is_valid_luhn (u ++ c ∷ v) ≡ true
    → IsDigit d
    → c ≢ d
    → is_valid_luhn (u ++ d ∷ v) ≡ false
single_digit_error u v c d h hd ne =
    let valid = (is_valid_luhn_parts (u ++ c ∷ v) (middle_nonempty u v c)).0 h in
    let hc = (digits_middle u v c valid.0).0 in
    let side = flip (reverse v) false in
    invalid_of_sum (u ++ d ∷ v) (λ e. ne (
      luhn_digit_injective side c d hc hd (
        omega (
          arith,
          valid.1,
          sum_middle u v c,
          sum_middle u v d,
          luhn_digit_bound side c hc,
          luhn_digit_bound side d hd,
        ))))

flip-append : (v : Bytes) (c : ℕ) (double : Bool) → flip (v ++ c ∷ []) double ≡ not (flip v double)
flip-append [] c double = refl
flip-append (x ∷ v) c double = flip-append v c (not double)

not-not : (b : Bool) → not (not b) ≡ b
not-not true = refl
not-not false = refl

-- The sum of a code, with the parts of two neighbours in the open.
sum_pair :
    (u v : Bytes) (c d : ℕ)
    → luhn_sum 0 false (reverse (u ++ c ∷ d ∷ v))
      ≡ luhn_sum 0 false (reverse v)
        + luhn_digit (flip (reverse v) false) d
        + luhn_digit (not (flip (reverse v) false)) c
        + luhn_sum 0 (flip (reverse v) false) (reverse u)
unfolding luhn_sum
sum_pair u v c d =
    rw
      (
        sum_middle u (d ∷ v) c,
        reverse-cons d v,
        flip-append (reverse v) d false,
        not-not (flip (reverse v) false),
      )
      (omega (
        arith,
        luhn_sum-append false (reverse v) (d ∷ []),
        luhn_sum-cons (flip (reverse v) false) d [],
      ))

-- Two neighbouring digits swapped make a valid code invalid, unless they are equal or 0 and 9.
pub transposition_error :
    (u v : Bytes) (c d : ℕ)
    → is_valid_luhn (u ++ c ∷ d ∷ v) ≡ true
    → c ≢ d
    → ¬ ((c ≡ 48) × (d ≡ 57))
    → ¬ ((c ≡ 57) × (d ≡ 48))
    → is_valid_luhn (u ++ d ∷ c ∷ v) ≡ false
transposition_error u v c d h ne low high =
    let valid = (is_valid_luhn_parts (u ++ c ∷ d ∷ v) (middle_nonempty u (d ∷ v) c)).0 h in
    let hc = digits_middle u (d ∷ v) c valid.0 in
    let hd = (only_digits-cons d v hc.2).0 in
    let side = flip (reverse v) false in
    invalid_of_sum (u ++ d ∷ c ∷ v) (λ e. swap_refuted (
      luhn_digit_swap side d c hd hc.0
        (omega (arith, valid.1, sum_pair u v c d, sum_pair u v d c))))
  where
    swap_refuted : (d ≡ c) ⊎ ((d ≡ 48) × (c ≡ 57)) ⊎ ((d ≡ 57) × (c ≡ 48)) → ⊥
    swap_refuted (inl same) = ne (sym same)
    swap_refuted (inr (inl (p, q))) = high (q, p)
    swap_refuted (inr (inr (p, q))) = low (q, p)
