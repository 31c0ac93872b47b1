-- ===== src/Ledger/Query.antt =====
-- What the statements of internal/db/sqlc/queries.sql.go are built from. The modules below have the
-- statements, one function each, by the tables that they are about. A statement that PostgreSQL
-- refuses, for a unique key or for a bigint out of range, fails with `store_error`.
pub mod Accounts
pub mod Books
pub mod Txns
pub mod Events
use coin.Base.{
  ◌^◌, Bool, true, false, ◌&&◌, Option, none, some, List, [], ◌∷◌, ltb, leb, if◌then◌else◌,
}
use coin.Int.{ℤ, pos_part, neg_part}

-- LIMIT 1, or a unique key
abbrev pub find {ℓ} : {A : Type ℓ} → (A → Bool) → List A → Option A
find p [] = none
find p (x ∷ xs) = if p x then some x else find p xs

-- WHERE
abbrev pub select {ℓ} : {A : Type ℓ} → (A → Bool) → List A → List A
select p [] = []
select p (x ∷ xs) = let rest = select p xs in if p x then x ∷ rest else rest

-- UPDATE … SET … WHERE
abbrev pub update_where {ℓ} : {A : Type ℓ} → (A → Bool) → (A → A) → List A → List A
update_where p f [] = []
update_where p f (x ∷ xs) = (if p x then f x else x) ∷ update_where p f xs

-- EXISTS
abbrev pub any {ℓ} : {A : Type ℓ} → (A → Bool) → List A → Bool
any p [] = false
any p (x ∷ xs) = if p x then true else any p xs

-- A value that a bigint column can hold.
pub is_bigint : ℤ → Bool
is_bigint a = leb (neg_part a) (2 ^ 63) && ltb (pos_part a) (2 ^ 63)
