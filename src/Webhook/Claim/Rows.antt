-- ===== src/Webhook/Claim/Rows.antt =====
-- What holds of all rows of the table of events behind the statements on it.
use coin.Base.{ℕ, zero, suc, ◌≡◌, Bool, true, false, List, [], ◌∷◌, All, leb, Bool-cases, inl, inr}
use coin.Ledger.Query.{select, update_where}
use coin.Ledger.Query.Events.{EventRow, insert_event, order_by_creation, take, picked}

module _ (P : EventRow → Bool) where
  abbrev pub Holds : List EventRow → Type 0
  Holds = All (λ e. P e ≡ true)

  insert_event-Holds :
      (e : EventRow) (es : List EventRow) → P e ≡ true → Holds es → Holds (insert_event e es)
  insert_event-Holds e [] h k = (h, tt)
  insert_event-Holds e (f ∷ es) h k = elim (Bool-cases (leb e.created_at f.created_at)) [
    | inl b ↦ rw b (h, k)
    | inr b ↦ rw b (k.0, insert_event-Holds e es h k.1)
  ]

  order_by_creation-Holds : (es : List EventRow) → Holds es → Holds (order_by_creation es)
  order_by_creation-Holds [] h = tt
  order_by_creation-Holds (e ∷ es) h =
      insert_event-Holds e (order_by_creation es) h.0 (order_by_creation-Holds es h.1)

  take-Holds : (n : ℕ) (es : List EventRow) → Holds es → Holds (take n es)
  take-Holds zero es h = tt
  take-Holds (suc n) [] h = tt
  take-Holds (suc n) (e ∷ es) h = (h.0, take-Holds n es h.1)

pub update_where-Holds :
    (P Q : EventRow → Bool) (p : EventRow → Bool) (f : EventRow → EventRow)
    → ((e : EventRow) → P e ≡ true → p e ≡ true → Q (f e) ≡ true)
    → ((e : EventRow) → P e ≡ true → p e ≡ false → Q e ≡ true)
    → (rows : List EventRow) → Holds P rows
    → Holds Q (update_where p f rows)
update_where-Holds P Q p f h g [] k = tt
update_where-Holds P Q p f h g (e ∷ rows) k =
    let rest = update_where-Holds P Q p f h g rows k.1 in
    elim (Bool-cases (p e)) [ inl b ↦ rw b (h e k.0 b, rest) | inr b ↦ rw b (g e k.0 b, rest) ]

pub weaken-Holds :
    (P Q : EventRow → Bool)
    → ((e : EventRow) → P e ≡ true → Q e ≡ true)
    → (rows : List EventRow) → Holds P rows
    → Holds Q rows
weaken-Holds P Q h [] k = tt
weaken-Holds P Q h (e ∷ rows) k = (h e k.0, weaken-Holds P Q h rows k.1)

select-Holds :
    (P Q due : EventRow → Bool)
    → ((e : EventRow) → P e ≡ true → due e ≡ true → Q e ≡ true)
    → (rows : List EventRow) → Holds P rows
    → Holds Q (select due rows)
select-Holds P Q due h [] k = tt
select-Holds P Q due h (e ∷ rows) k =
    let rest = select-Holds P Q due h rows k.1 in
    elim (Bool-cases (due e)) [ inl d ↦ rw d (h e k.0 d, rest) | inr d ↦ rw d rest ]

pub picked-Holds :
    (P Q due : EventRow → Bool) (limit : ℕ)
    → ((e : EventRow) → P e ≡ true → due e ≡ true → Q e ≡ true)
    → (rows : List EventRow) → Holds P rows
    → Holds Q (picked due limit rows)
unfolding picked
picked-Holds P Q due limit h rows k =
    take-Holds Q limit (order_by_creation (select due rows))
      (order_by_creation-Holds Q (select due rows) (select-Holds P Q due h rows k))
