-- ===== src/Ledger/Debit/Writeoff.antt =====
-- What the loop of `sweepExpiredBooksTx` writes off.
use coin.Base.{
  ℕ, ◌+◌, ◌^◌, ◌<◌, ◌≤◌, ◌≡◌, refl, List, [], ◌∷◌, arith, All, ap, sym, subst, true, ◌∙◌,
}
use coin.Int.{ℤ, pos, negsuc, ◌+ℤ◌, pos_part, neg_part, int_laws, ltb_ℤ}
use coin.Int.Word.{IsInt64, add64, neg64, add64_exact, neg64_parts}
use coin.Ledger.Schema.{BookRow}
use coin.Ledger.Book.{PlannedChange}
use coin.Ledger.Book.Take.{sum_deltas}
use coin.Ledger.Book.Order.{holdings}
use coin.Ledger.Debit.{writeoff_books}

-- A book as the statement of the sweep lists it.
abbrev pub IsPositive : BookRow → Type 0
IsPositive b = (neg_part b.balance ≡ 0) × (1 ≤ pos_part b.balance)

-- One change for each book, which empties it.
abbrev pub Empty : List BookRow → List PlannedChange → Type 0
Empty [] [] = Unit {0}
Empty (b ∷ books) (p ∷ planned) =
    (p.book_no ≡ b.book_no)
    × (p.balance_before ≡ b.balance)
    × (p.balance_after ≡ pos 0)
    × (p.balance_before +ℤ p.delta ≡ pos 0)
    × Empty books planned
Empty _ _ = ⊥

pos_sum : (n k : ℕ) → n + k < 2 ^ 63 → add64 (pos n) (pos k) ≡ pos (n + k)
pos_sum n k small =
    let sum : pos n +ℤ pos k ≡ pos (n + k) = omega int_laws in
    let fits : IsInt64 (pos n +ℤ pos k) =
      subst IsInt64 (sym sum) (record { above = omega arith; below = omega arith }) in
    add64_exact (pos n) (pos k) fits ∙ sum

add64_pos :
    (n : ℕ) (a : ℤ)
    → neg_part a ≡ 0
    → n + pos_part a < 2 ^ 63
    → add64 (pos n) a ≡ pos (n + pos_part a)
add64_pos n (pos k) h small = pos_sum n k (omega arith)
add64_pos n (negsuc k) h small = ground (arith, h)

emptied : (a : ℤ) → neg_part a ≡ 0 → pos_part a < 2 ^ 63 → a +ℤ neg64 a ≡ pos 0
emptied a h small = omega (int_laws, neg64_parts a (omega arith) (omega arith))

taken_again :
    (n : ℕ) (a total deltas : ℤ)
    → neg_part a ≡ 0
    → n + pos_part a < 2 ^ 63
    → deltas +ℤ total ≡ pos (n + pos_part a)
    → neg64 a +ℤ deltas +ℤ total ≡ pos n
taken_again n a total deltas h small e =
    omega (int_laws, neg64_parts a (omega arith) (omega arith), ap pos_part e, ap neg_part e)

-- For books with a balance above 0, of which the sum with what was written off before fits an int64,
-- the loop's total is that sum, its changes take as much as they add to the total, and there is one
-- change for each book, which leaves nothing in it.
pub writeoff_books_lem :
    (n : ℕ) (books : List BookRow)
    → All IsPositive books
    → n + holdings books < 2 ^ 63
    → let (total, planned) = writeoff_books (pos n) books in
      (total ≡ pos (n + holdings books))
      × (sum_deltas planned +ℤ total ≡ pos n)
      × Empty books planned
unfolding writeoff_books
writeoff_books_lem n [] h small = (ap pos (omega arith), omega int_laws, tt)
writeoff_books_lem n (b ∷ books) (positive, h) small =
    let listed : ltb_ℤ (pos 0) b.balance ≡ true = ground arith in
    let sum = add64_pos n b.balance positive.0 (omega arith) in
    let k = n + pos_part b.balance in
    let rest = writeoff_books_lem k books h (omega arith) in
    rw (listed, sum)
      (
        rest.0 ∙ ap pos (omega arith),
        taken_again n b.balance (writeoff_books (pos k) books).0
            (sum_deltas (writeoff_books (pos k) books).1) positive.0 (omega arith) rest.1,
        (refl, refl, refl, emptied b.balance positive.0 (omega arith), rest.2),
      )
