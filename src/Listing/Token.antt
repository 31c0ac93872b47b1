-- ===== src/Listing/Token.antt =====
-- internal/service/pagination_token.go: the text of a page token, as bytes: the time in nanoseconds,
-- by strconv.FormatInt and ParseInt with base 10, a bar, and the transaction's number.
use coin.Base.{
  ℕ, zero, suc, ◌-◌, ◌^◌, ◌≤◌, ◌<◌, ◌≡◌, refl, ap, sym, ◌∙◌, true, false, not, ◌||◌, Option, none,
  some, [], ◌∷◌, ◌++◌, arith, leb, ◌=?◌, if◌then◌else◌, Bool-cases, inl, inr, length,
}
use coin.Int.{ℤ, pos, negsuc}
use coin.Int.Word.{IsInt64}
use coin.Codes.Luhn.{Bytes, only_digits, is_empty}
use coin.Codes.Luhn.Sums.{only_digits-cons, IsDigit}
use coin.Codes.Provider.{padded, strip_zeros, pow10}
use coin.Codes.Provider.Form.{read, read-padded, only_digits-padded, length-padded}

-- `FormatInt`; an int64 has at most nineteen digits.
unfoldable pub format_int : ℤ → Bytes
format_int (pos n) = strip_zeros (padded 19 n)
format_int (negsuc n) = 45 ∷ strip_zeros (padded 19 (suc n))

abbrev parsed_digits : Bytes → Option ℕ
parsed_digits v = if is_empty v || not (only_digits v) then none else some (read 0 v)

abbrev negated : ℕ → ℤ
negated zero = pos 0
negated (suc n) = negsuc n

abbrev in_range : ℕ → (ℕ → ℤ) → Option ℕ → Option ℤ
in_range limit make none = none
in_range limit make (some n) = if leb n limit then some (make n) else none

-- `ParseInt`; `none` is its error
unfoldable pub parse_int : Bytes → Option ℤ
parse_int [] = none
parse_int (c ∷ v) =
    if c =? 45
    then in_range (2 ^ 63) negated (parsed_digits v)
    else if c =? 43
    then in_range (2 ^ 63 - 1) pos (parsed_digits v)
    else in_range (2 ^ 63 - 1) pos (parsed_digits (c ∷ v))

-- `EncodePageToken`
unfoldable pub encode_page_token : ℤ → Bytes → Bytes
encode_page_token t txn_no = format_int t ++ 124 ∷ txn_no

abbrev behind : ℕ → Option (Bytes × Bytes) → Option (Bytes × Bytes)
behind c none = none
behind c (some (u, v)) = some (c ∷ u, v)

-- `strings.SplitN` with a bar into two parts
abbrev split_bar : Bytes → Option (Bytes × Bytes)
split_bar [] = none
split_bar (c ∷ v) = let rest = split_bar v in if c =? 124 then some ([], v) else behind c rest

abbrev with_time : Option ℤ → Bytes → Option (ℤ × Bytes)
with_time none v = none
with_time (some t) v = some (t, v)

abbrev decoded : Option (Bytes × Bytes) → Option (ℤ × Bytes)
decoded none = none
decoded (some (u, v)) = with_time (parse_int u) v

-- `DecodePageToken`
unfoldable pub decode_page_token : Bytes → Option (ℤ × Bytes)
decode_page_token token = decoded (split_bar token)

-- `EncodeChangeLogPageToken`
unfoldable pub encode_change_log_page_token : ℤ → ℤ → Bytes
encode_change_log_page_token t change_id = format_int t ++ 124 ∷ format_int change_id

abbrev with_change_id : Option ℤ → Option (ℤ × Bytes) → Option (ℤ × ℤ)
with_change_id change_id none = none
with_change_id none (some (t, v)) = none
with_change_id (some change_id) (some (t, v)) = some (t, change_id)

abbrev decoded_change_log : Option (Bytes × Bytes) → Option (ℤ × ℤ)
decoded_change_log none = none
decoded_change_log (some (u, v)) = with_change_id (parse_int v) (with_time (parse_int u) v)

-- `DecodeChangeLogPageToken`
unfoldable pub decode_change_log_page_token : Bytes → Option (ℤ × ℤ)
decode_change_log_page_token token = decoded_change_log (split_bar token)

forty_eight : (c : ℕ) → (c =? 48) ≡ true → c ≡ 48
forty_eight c e = ground arith

read-strip_zeros : (v : Bytes) → read 0 (strip_zeros v) ≡ read 0 v
read-strip_zeros [] = refl
read-strip_zeros (c ∷ []) = refl
read-strip_zeros (c ∷ d ∷ v) = elim (Bool-cases (c =? 48)) [
  | inl e ↦ rw e (read-strip_zeros (d ∷ v) ∙ ap (λ x. read 0 (x ∷ d ∷ v)) (sym (forty_eight c e)))
  | inr e ↦ rw e refl
]

only_digits-strip_zeros : (v : Bytes) → only_digits v ≡ true → only_digits (strip_zeros v) ≡ true
only_digits-strip_zeros [] h = h
only_digits-strip_zeros (c ∷ []) h = h
only_digits-strip_zeros (c ∷ d ∷ v) h = elim (Bool-cases (c =? 48)) [
  | inl e ↦ rw e (only_digits-strip_zeros (d ∷ v) (only_digits-cons c (d ∷ v) h).1)
  | inr e ↦ rw e h
]

is_empty-strip_zeros : (c : ℕ) (v : Bytes) → is_empty (strip_zeros (c ∷ v)) ≡ false
is_empty-strip_zeros c [] = refl
is_empty-strip_zeros c (d ∷ v) = elim (Bool-cases (c =? 48)) [
  | inl e ↦ rw e (is_empty-strip_zeros d v)
  | inr e ↦ rw e refl
]

split_bar-digits : (u v : Bytes) → only_digits u ≡ true → split_bar (u ++ 124 ∷ v) ≡ some (u, v)
split_bar-digits [] v h = refl
split_bar-digits (c ∷ u) v h =
    let d = only_digits-cons c u h in rw (split_bar-digits u v d.1) (ground (arith, d.0))

parsed_digits_lem :
    (v : Bytes) → only_digits v ≡ true → is_empty v ≡ false → parsed_digits v ≡ some (read 0 v)
parsed_digits_lem v h e = rw e (rw h refl)

in_range_lem :
    (limit : ℕ) (make : ℕ → ℤ) (n : ℕ) → n ≤ limit → in_range limit make (some n) ≡ some (make n)
in_range_lem limit make n h = ground (arith, h)

not_sign : (c k : ℕ) → IsDigit c → k < 48 → (c =? k) ≡ false
not_sign c k d h = ground (arith, d.0)

parse_int-digits :
    (v : Bytes)
    → only_digits v ≡ true
    → is_empty v ≡ false
    → read 0 v < 2 ^ 63
    → parse_int v ≡ some (pos (read 0 v))
unfolding parse_int
parse_int-digits [] h e r = ground (arith, e)
parse_int-digits (c ∷ v) h e r =
    let d = only_digits-cons c v h in
    rw (not_sign c 45 d.0 (omega arith)) (
      rw (not_sign c 43 d.0 (omega arith)) (
        rw (parsed_digits_lem (c ∷ v) h e)
          (in_range_lem (2 ^ 63 - 1) pos (read 0 (c ∷ v)) (omega (arith, r)))))

nonempty : (v : Bytes) → length v ≡ 19 → is_empty (strip_zeros v) ≡ false
nonempty [] e = grind (arith, e)
nonempty (c ∷ v) e = is_empty-strip_zeros c v

-- What is read of the digits of a number.
module _ (n : ℕ) (h : n ≤ 2 ^ 63) where
  digits : Bytes
  digits = strip_zeros (padded 19 n)

  digits_ok : only_digits digits ≡ true
  unfolding digits
  digits_ok = only_digits-strip_zeros (padded 19 n) (only_digits-padded 19 n)

  digits_some : is_empty digits ≡ false
  unfolding digits
  digits_some = nonempty (padded 19 n) (length-padded 19 n)

  digits-read : read 0 digits ≡ n
  unfolding digits pow10
  digits-read = read-strip_zeros (padded 19 n) ∙ read-padded 19 n (omega (arith, h))

split_bar-format_int :
    (t : ℤ) (v : Bytes) → IsInt64 t → split_bar (format_int t ++ 124 ∷ v) ≡ some (format_int t, v)
unfolding format_int digits
split_bar-format_int (pos n) v h =
    split_bar-digits (digits n (omega (arith, h))) v (digits_ok n (omega (arith, h)))
split_bar-format_int (negsuc n) v h =
    rw
      (split_bar-digits (digits (suc n) (omega (arith, h))) v
        (digits_ok (suc n) (omega (arith, h))))
      refl

parse_int-format_int : (t : ℤ) → IsInt64 t → parse_int (format_int t) ≡ some t
unfolding format_int digits parse_int
parse_int-format_int (pos n) h =
    let b : n ≤ 2 ^ 63 = omega (arith, h) in
    parse_int-digits (digits n b) (digits_ok n b) (digits_some n b)
      (omega (arith, h, digits-read n b))
    ∙ ap (λ m. some (pos m)) (digits-read n b)
parse_int-format_int (negsuc n) h =
    let b : suc n ≤ 2 ^ 63 = h.above in
    rw (parsed_digits_lem (digits (suc n) b) (digits_ok (suc n) b) (digits_some (suc n) b))
      (rw (digits-read (suc n) b) (in_range_lem (2 ^ 63) negated (suc n) b))

-- A token gives back the time and the number that it was made of, for a time that fits an int64.
pub decode_page_token-encode_page_token :
    (t : ℤ) (txn_no : Bytes)
    → IsInt64 t
    → decode_page_token (encode_page_token t txn_no) ≡ some (t, txn_no)
unfolding decode_page_token encode_page_token
decode_page_token-encode_page_token t txn_no h =
    rw (split_bar-format_int t txn_no h) (rw (parse_int-format_int t h) refl)

-- A token of the change logs gives back the time and the number of the change that it was made of,
-- where both fit an int64.
pub decode_change_log_page_token_lem :
    (t change_id : ℤ)
    → IsInt64 t
    → IsInt64 change_id
    → decode_change_log_page_token (encode_change_log_page_token t change_id) ≡ some (t, change_id)
unfolding decode_change_log_page_token encode_change_log_page_token
decode_change_log_page_token_lem t change_id h k =
    rw (split_bar-format_int t (format_int change_id) h)
      (rw (parse_int-format_int t h) (rw (parse_int-format_int change_id k) refl))
