-- ===== src/Async/Counts.antt =====
-- How often a number is in the channels, at work or pending, across the operations of the queue.
use coin.Base.{
  ℕ, zero, suc, ◌+◌, ◌≤◌, ◌<◌, ◌≡◌, refl, String, not, Option, none, some, List, [], ◌∷◌, ◌++◌,
  arith, ltb, ◌==◌, eq_iff, if◌then◌else◌, length,
}
use coin.Ledger.Query.{any, select}
use coin.Async.{nth_queue, send, total_length, receive, behind}

abbrev pub occurrences : String → List String → ℕ
occurrences s [] = 0
occurrences s (t ∷ ts) = (if s == t then 1 else 0) + occurrences s ts

abbrev pub queued : String → List (List String) → ℕ
queued s [] = 0
queued s (c ∷ cs) = occurrences s c + queued s cs

pub occurrences-append :
    (s : String) (ts us : List String)
    → occurrences s (ts ++ us) ≡ occurrences s ts + occurrences s us
occurrences-append s [] us = omega arith
occurrences-append s (t ∷ ts) us = omega (arith, occurrences-append s ts us)

pub length-append : (ts us : List String) → length (ts ++ us) ≡ length ts + length us
length-append [] us = omega arith
length-append (t ∷ ts) us = omega (arith, length-append ts us)

pub any-occurrences :
    (s : String) (ts : List String) → any (λ t. s == t) ts ≡ ltb 0 (occurrences s ts)
any-occurrences s [] = refl
any-occurrences s (t ∷ ts) = ground (arith, any-occurrences s ts)

pub send-queued :
    (n : ℕ) (s t : String) (cs : List (List String))
    → n < length cs
    → queued s (send n t cs) ≡ queued s cs + (if s == t then 1 else 0)
send-queued n s t [] h = omega arith
send-queued zero s t (c ∷ cs) h = omega (arith, occurrences-append s c (t ∷ []))
send-queued (suc n) s t (c ∷ cs) h = omega (arith, send-queued n s t cs (omega arith))

pub send-total_length :
    (n : ℕ) (t : String) (cs : List (List String))
    → n < length cs
    → total_length (send n t cs) ≡ total_length cs + 1
send-total_length n t [] h = omega arith
send-total_length zero t (c ∷ cs) h = omega (arith, length-append c (t ∷ []))
send-total_length (suc n) t (c ∷ cs) h = omega (arith, send-total_length n t cs (omega arith))

pub length-send : (n : ℕ) (t : String) (cs : List (List String)) → length (send n t cs) ≡ length cs
length-send n t [] = refl
length-send zero t (c ∷ cs) = refl
length-send (suc n) t (c ∷ cs) = omega (arith, length-send n t cs)

pub nth_queue-total_length :
    (n : ℕ) (cs : List (List String)) → length (nth_queue n cs) ≤ total_length cs
nth_queue-total_length n [] = omega arith
nth_queue-total_length zero (c ∷ cs) = omega arith
nth_queue-total_length (suc n) (c ∷ cs) = omega (arith, nth_queue-total_length n cs)

-- What a received item is of the channels that it was in.
abbrev pub IsTaken : List (List String) → Option (String × List (List String)) → Type 0
IsTaken cs none = Unit
IsTaken cs (some (t, cs')) =
    (total_length cs ≡ total_length cs' + 1)
    × (length cs' ≡ length cs)
    × ((s : String) → queued s cs ≡ queued s cs' + (if s == t then 1 else 0))

pub behind-IsTaken :
    (c : List String) (cs : List (List String)) (o : Option (String × List (List String)))
    → IsTaken cs o
    → IsTaken (c ∷ cs) (behind c o)
behind-IsTaken c cs none h = tt
behind-IsTaken c cs (some (t, cs')) (l, n, h) =
    (omega (arith, l), omega (arith, n), λ s. omega (arith, h s))

pub receive-IsTaken : (n : ℕ) (cs : List (List String)) → IsTaken cs (receive n cs)
unfolding receive
receive-IsTaken n [] = tt
receive-IsTaken zero ([] ∷ cs) = tt
receive-IsTaken zero ((t ∷ c) ∷ cs) = (omega arith, refl, λ s. omega arith)
receive-IsTaken (suc n) (c ∷ cs) = behind-IsTaken c cs (receive n cs) (receive-IsTaken n cs)

pub select-occurrences :
    (s t : String) (ts : List String)
    → occurrences s (select (λ u. not (t == u)) ts) ≡ (if t == s then 0 else occurrences s ts)
select-occurrences s t [] = ground arith
select-occurrences s t (u ∷ ts) =
    ground (arith, select-occurrences s t ts, eq_iff t u, eq_iff t s, eq_iff s u)

pub length-select :
    (t : String) (ts : List String)
    → length (select (λ u. not (t == u)) ts) + occurrences t ts ≡ length ts
length-select t [] = omega arith
length-select t (u ∷ ts) = ground (arith, length-select t ts)
