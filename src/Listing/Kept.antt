-- ===== src/Listing/Kept.antt =====
-- What holds of all rows holds of those that a statement or a page keeps.
use coin.Base.{
  ℕ, zero, suc, ◌≡◌, ◌≤◌, refl, true, Bool, List, [], ◌∷◌, map, length, All, arith, Bool-cases, inl,
  inr,
}
use coin.Ledger.Query.{select}
use coin.Listing.{take}

module _ {A : Type 0} (P : A → Type 0) where
  pub take-All : (n : ℕ) (rows : List A) → All P rows → All P (take n rows)
  take-All zero rows h = tt
  take-All (suc n) [] h = tt
  take-All (suc n) (r ∷ rows) h = (h.0, take-All n rows h.1)

  -- Rows that are selected have what the selection asks, and what they had before.
  pub select-All :
      (p : A → Bool) → ((r : A) → p r ≡ true → P r) → (rows : List A) → All P (select p rows)
  select-All p h [] = tt
  select-All p h (r ∷ rows) = elim (Bool-cases (p r)) [
    | inl b ↦ rw b (h r b, select-All p h rows)
    | inr b ↦ rw b (select-All p h rows)
  ]

  pub select_keeps : (p : A → Bool) (rows : List A) → All P rows → All P (select p rows)
  select_keeps p [] h = tt
  select_keeps p (r ∷ rows) h = elim (Bool-cases (p r)) [
    | inl b ↦ rw b (h.0, select_keeps p rows h.1)
    | inr b ↦ rw b (select_keeps p rows h.1)
  ]

module _ {A : Type 0} where
  pub length-take : (n : ℕ) (rows : List A) → length (take n rows) ≤ n
  length-take zero rows = omega arith
  length-take (suc n) [] = omega arith
  length-take (suc n) (r ∷ rows) = omega (arith, length-take n rows)

  pub length-map : {B : Type 0} (g : A → B) (rows : List A) → length (map g rows) ≡ length rows
  length-map g [] = refl
  length-map g (r ∷ rows) = omega (arith, length-map g rows)
