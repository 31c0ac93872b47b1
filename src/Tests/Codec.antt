-- ===== src/Tests/Codec.antt =====
-- A codec of tokens that can be read again: each character is spelled by its number.
use Prim.Native.Char.{Char, char, code, IsLt, IsScalar}
use Prim.Native.Nat.{Ordering, compare}
use Prim.Native.String.{◌++◌}
use text.Mathlib.TextEquality.{IsScalar-prop}
use coin.Base.{
  ℕ, zero, suc, ◌≡◌, refl, ap, ◌∙◌, String, Option, none, some, List, [], ◌∷◌, ◌=?◌, if◌then◌else◌,
}
use coin.Text.{is_space}
use coin.Text.Trim.{HasNoSpace}
use coin.Http.Admin.{AdminTokenClaims, Codec, split_dots}
use coin.Http.Admin.Tokens.{HasNoDot, IsCodec, split_dots_first, split_dots_last}

abbrev BothLess : Ordering → Ordering → Type 0
BothLess Ordering.lt o = IsLt o
BothLess Ordering.eq _ = ⊥
BothLess Ordering.gt _ = ⊥

abbrev LessOrBothLess : Ordering → Ordering → Ordering → Type 0
LessOrBothLess Ordering.lt _ _ = Unit
LessOrBothLess Ordering.eq o p = BothLess o p
LessOrBothLess Ordering.gt o p = BothLess o p

abbrev is_less : (o : Ordering) → Dec (IsLt o)
is_less Ordering.lt = yes tt
is_less Ordering.eq = no (λ x. x)
is_less Ordering.gt = no (λ x. x)

abbrev is_both_less : (o p : Ordering) → Dec (BothLess o p)
is_both_less Ordering.lt p = is_less p
is_both_less Ordering.eq p = no (λ x. x)
is_both_less Ordering.gt p = no (λ x. x)

abbrev is_less_or_both_less : (o p q : Ordering) → Dec (LessOrBothLess o p q)
is_less_or_both_less Ordering.lt p q = yes tt
is_less_or_both_less Ordering.eq p q = is_both_less p q
is_less_or_both_less Ordering.gt p q = is_both_less p q

abbrev is_scalar : (n : ℕ) → Dec (IsScalar n)
is_scalar n = is_less_or_both_less (compare n 55296) (compare 57343 n) (compare n 1114112)

abbrev char_of : (n : ℕ) → Dec (IsScalar n) → Option Char
char_of n (yes p) = some (char n p)
char_of n (no _) = none

char_of-char : (n : ℕ) (p : IsScalar n) (d : Dec (IsScalar n)) → char_of n d ≡ some (char n p)
char_of-char n p (yes q) = ap (λ r. some (char n r)) (IsScalar-prop n q p)
char_of-char n p (no f) = elim (f p) [ ]

char_of-code : (c : Char) → char_of (code c) (is_scalar (code c)) ≡ some c
char_of-code (char n p) = char_of-char n p (is_scalar n)

abbrev codes : String → List ℕ
codes String.[] = []
codes (String.◌∷◌ c s) = code c ∷ codes s

abbrev in_front : Option Char → Option String → Option String
in_front (some c) (some s) = some (String.◌∷◌ c s)
in_front _ _ = none

abbrev chars : List ℕ → Option String
chars [] = some ""
chars (n ∷ ns) = in_front (char_of n (is_scalar n)) (chars ns)

chars-codes : (s : String) → chars (codes s) ≡ some s
chars-codes String.[] = refl
chars-codes (String.◌∷◌ c s) = rw (char_of-code c, chars-codes s) refl

-- A number as so many a, and a b behind them.
abbrev spell_one : ℕ → String → String
spell_one zero rest = String.◌∷◌ (char 98 tt) rest
spell_one (suc n) rest = String.◌∷◌ (char 97 tt) (spell_one n rest)

abbrev spell : List ℕ → String
spell [] = ""
spell (n ∷ ns) = spell_one n (spell ns)

abbrev counted : List ℕ → List ℕ
counted [] = []
counted (n ∷ ns) = suc n ∷ ns

abbrev unspell : String → List ℕ
unspell String.[] = []
unspell (String.◌∷◌ c s) = let rest = unspell s in if code c =? 97 then counted rest else 0 ∷ rest

unspell-spell_one : (n : ℕ) (rest : String) → unspell (spell_one n rest) ≡ n ∷ unspell rest
unspell-spell_one zero rest = refl
unspell-spell_one (suc n) rest = ap counted (unspell-spell_one n rest)

unspell-spell : (ns : List ℕ) → unspell (spell ns) ≡ ns
unspell-spell [] = refl
unspell-spell (n ∷ ns) = unspell-spell_one n (spell ns) ∙ ap (λ ms. n ∷ ms) (unspell-spell ns)

spell_one-HasNoDot : (n : ℕ) (rest : String) → HasNoDot rest → HasNoDot (spell_one n rest)
spell_one-HasNoDot zero rest h = (refl, h)
spell_one-HasNoDot (suc n) rest h = (refl, spell_one-HasNoDot n rest h)

spell-HasNoDot : (ns : List ℕ) → HasNoDot (spell ns)
spell-HasNoDot [] = tt
spell-HasNoDot (n ∷ ns) = spell_one-HasNoDot n (spell ns) (spell-HasNoDot ns)

spell_one-HasNoSpace : (n : ℕ) (rest : String) → HasNoSpace rest → HasNoSpace (spell_one n rest)
unfolding is_space
spell_one-HasNoSpace zero rest h = (refl, h)
spell_one-HasNoSpace (suc n) rest h = (refl, spell_one-HasNoSpace n rest h)

spell-HasNoSpace : (ns : List ℕ) → HasNoSpace (spell ns)
spell-HasNoSpace [] = tt
spell-HasNoSpace (n ∷ ns) = spell_one-HasNoSpace n (spell ns) (spell-HasNoSpace ns)

abbrev claims_of : List ℕ → Option String → Option String → Option AdminTokenClaims
claims_of (i ∷ e ∷ []) (some s) (some t) =
    some (record { subject = s; token_type = t; issued_at = i; expires_at = e })
claims_of _ _ _ = none

abbrev claims_of_parts : List String → Option AdminTokenClaims
claims_of_parts (n ∷ s ∷ t ∷ []) = claims_of (unspell n) (chars (unspell s)) (chars (unspell t))
claims_of_parts _ = none

abbrev pub spelled : Codec
spelled = record {
  header = "aab";
  marshal = λ c.
      spell (c.issued_at ∷ c.expires_at ∷ [])
      ++ "."
      ++ (spell (codes c.subject) ++ "." ++ spell (codes c.token_type));
  unmarshal = λ raw. claims_of_parts (split_dots raw);
  encode = λ s. spell (codes s);
  decode = λ s. chars (unspell s);
  mac = λ key s. spell (codes key);
}

chars-unspell : (s : String) → chars (unspell (spell (codes s))) ≡ some s
chars-unspell s = ap chars (unspell-spell (codes s)) ∙ chars-codes s

unmarshal-marshal : (c : AdminTokenClaims) → spelled.unmarshal (spelled.marshal c) ≡ some c
unmarshal-marshal c =
    let times = spell (c.issued_at ∷ c.expires_at ∷ []) in
    let subject = spell (codes c.subject) in
    let kind = spell (codes c.token_type) in
    let parts : split_dots (times ++ "." ++ (subject ++ "." ++ kind))
        ≡ times ∷ subject ∷ kind ∷ [] =
      split_dots_first times (subject ++ "." ++ kind)
        (spell-HasNoDot (c.issued_at ∷ c.expires_at ∷ []))
      ∙ ap (λ ps. times ∷ ps)
          (split_dots_first subject kind (spell-HasNoDot (codes c.subject))
            ∙ ap (λ ps. subject ∷ ps)
                (split_dots_last kind (spell-HasNoDot (codes c.token_type)))) in
    ap claims_of_parts parts
    ∙ rw
        (
          unspell-spell (c.issued_at ∷ c.expires_at ∷ []),
          chars-unspell c.subject,
          chars-unspell c.token_type,
        )
        refl

pub spelled-IsCodec : IsCodec spelled
unfolding is_space
spelled-IsCodec = record {
  reads_json = unmarshal-marshal;
  reads_base64 = chars-unspell;
  header_dots = (refl, (refl, (refl, tt)));
  header_space = (refl, (refl, (refl, tt)));
  encode_dots = λ s. spell-HasNoDot (codes s);
  encode_space = λ s. spell-HasNoSpace (codes s);
  mac_dots = λ key s. spell-HasNoDot (codes key);
  mac_space = λ key s. spell-HasNoSpace (codes key);
}
