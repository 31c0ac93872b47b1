-- ===== src/Int/Word.antt =====
-- Go's int64: a result is reduced modulo 2^64 into [-2^63, 2^63). A sum or difference that fits
-- is exact.
use coin.Base.{ℕ, ◌+◌, ◌-◌, ◌%◌, ◌^◌, ◌≤◌, ◌<◌, ◌≡◌, ◌⊎◌, arith, ltb, if◌then◌else◌}
use coin.Int.{
  ℤ, pos, negsuc, pos_part, neg_part, ◌+ℤ◌, ◌-ℤ◌, ◌<ℤ◌, +ℤ_parts, -ℤ_parts, +ℤ_one_sign,
  -ℤ_one_sign,
}

-- A value that an int64 can hold.
pub record IsInt64 (a : ℤ) : Type 0 where
  pub above : neg_part a ≤ 2 ^ 63
  pub below : pos_part a < 2 ^ 63

-- The int64 that a pattern of 64 bits stands for.
abbrev of_bits : ℕ → ℤ
of_bits m = if ltb m (2 ^ 63) then pos m else negsuc (2 ^ 64 - 1 - m)

pub wrap64 : ℤ → ℤ
wrap64 (pos n) = of_bits (n % 2 ^ 64)
wrap64 (negsuc n) = of_bits (2 ^ 64 - 1 - n % 2 ^ 64)

pub add64 : ℤ → ℤ → ℤ
add64 a b = wrap64 (a +ℤ b)

pub sub64 : ℤ → ℤ → ℤ
sub64 a b = wrap64 (a -ℤ b)

pub neg64 : ℤ → ℤ
neg64 a = wrap64 (pos 0 -ℤ a)

pub wrap64-IsInt64 : (a : ℤ) → IsInt64 (wrap64 a)
unfolding wrap64
wrap64-IsInt64 (pos n) = ground arith
wrap64-IsInt64 (negsuc n) = ground arith

pub wrap64_one_sign : (a : ℤ) → (pos_part (wrap64 a) ≡ 0) ⊎ (neg_part (wrap64 a) ≡ 0)
unfolding wrap64
wrap64_one_sign (pos n) = ground arith
wrap64_one_sign (negsuc n) = ground arith

pub sub64_one_sign : (a b : ℤ) → (pos_part (sub64 a b) ≡ 0) ⊎ (neg_part (sub64 a b) ≡ 0)
unfolding sub64
sub64_one_sign a b = wrap64_one_sign (a -ℤ b)

pub wrap64-exact : (a : ℤ) → neg_part a ≤ 2 ^ 63 → pos_part a < 2 ^ 63 → wrap64 a ≡ a
unfolding wrap64
wrap64-exact (pos n) l u = ground arith
wrap64-exact (negsuc n) l u = ground arith

-- Past the largest int64 the result is negative.
pub wrap64_above : (a : ℤ) → 2 ^ 63 ≤ pos_part a → pos_part a < 2 ^ 64 → wrap64 a <ℤ pos 0
unfolding wrap64
wrap64_above (pos n) l u = ground arith
wrap64_above (negsuc n) l u = ground arith

pub add64_above :
    (a b : ℤ) → 2 ^ 63 ≤ pos_part (a +ℤ b) → pos_part (a +ℤ b) < 2 ^ 64 → add64 a b <ℤ pos 0
unfolding add64
add64_above a b l u = wrap64_above (a +ℤ b) l u

pub add64_exact : (a b : ℤ) → IsInt64 (a +ℤ b) → add64 a b ≡ a +ℤ b
unfolding add64
add64_exact a b h = wrap64-exact (a +ℤ b) h.above h.below

pub sub64_exact : (a b : ℤ) → IsInt64 (a -ℤ b) → sub64 a b ≡ a -ℤ b
unfolding sub64
sub64_exact a b h = wrap64-exact (a -ℤ b) h.above h.below

pub neg64_exact : (a : ℤ) → IsInt64 (pos 0 -ℤ a) → neg64 a ≡ pos 0 -ℤ a
unfolding neg64
neg64_exact a h = wrap64-exact (pos 0 -ℤ a) h.above h.below

-- The operations through the parts of their operands, for a result that fits.
module _ (a b : ℤ) where
  pub add64_parts :
      pos_part a + pos_part b < neg_part a + neg_part b + 2 ^ 63
      → neg_part a + neg_part b ≤ pos_part a + pos_part b + 2 ^ 63
      → pos_part (add64 a b) + neg_part a + neg_part b
        ≡ neg_part (add64 a b) + pos_part a + pos_part b
  add64_parts u l =
      let e = +ℤ_parts a b in
      let s = +ℤ_one_sign a b in
      rw (add64_exact a b (record { above = omega (arith, e, s); below = omega (arith, e, s) })) e

  pub sub64_parts :
      pos_part a + neg_part b < neg_part a + pos_part b + 2 ^ 63
      → neg_part a + pos_part b ≤ pos_part a + neg_part b + 2 ^ 63
      → pos_part (sub64 a b) + neg_part a + pos_part b
        ≡ neg_part (sub64 a b) + pos_part a + neg_part b
  sub64_parts u l =
      let e = -ℤ_parts a b in
      let s = -ℤ_one_sign a b in
      rw (sub64_exact a b (record { above = omega (arith, e, s); below = omega (arith, e, s) })) e

pub neg64_parts :
    (a : ℤ)
    → neg_part a < pos_part a + 2 ^ 63
    → pos_part a ≤ neg_part a + 2 ^ 63
    → pos_part (neg64 a) + pos_part a ≡ neg_part (neg64 a) + neg_part a
neg64_parts a u l =
    let e = -ℤ_parts (pos 0) a in
    let s = -ℤ_one_sign (pos 0) a in
    rw (neg64_exact a (record { above = omega (arith, e, s); below = omega (arith, e, s) }))
      (omega (arith, e))
