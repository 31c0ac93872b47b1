-- ===== src/Http/Admin/Tokens.antt =====
-- What an issued token is worth: to whom, as which kind and until when.
use Prim.Native.Char.{Char, code}
use Prim.Native.String.{◌++◌}
use coin.Base.{
  ℕ, ◌+◌, ◌≡◌, refl, ap, ◌∙◌, String, false, not, some, [], ◌∷◌, leb, ◌=?◌, ◌==◌, if◌then◌else◌,
  eq_iff,
}
use coin.Text.{is_space, trim_space}
use Prim.Native.String.append.{nil, cons}
use coin.Text.Trim.{trim_space-trim_space, HasNoSpace, trim_space_whole}
use coin.Http.Admin.{
  AdminTokenClaims, Codec, invalid_type, token_expired, Parsed, valid, invalid, AdminTokenManager,
  unix, split_dots, TokenPair, sign, token_pair, issue_token_pair, check_claims, parse_and_validate,
  admin_token_type_access, admin_token_type_refresh,
}

-- A text without dots.
abbrev pub HasNoDot : String → Type 0
HasNoDot String.[] = Unit {0}
HasNoDot (String.◌∷◌ c s) = ((code c =? 46) ≡ false) × HasNoDot s

-- JSON and base64 can be read again, and base64 for URLs has neither white space nor dots.
pub record IsCodec (codec : Codec) : Type 0 where
  pub reads_json : (c : AdminTokenClaims) → codec.unmarshal (codec.marshal c) ≡ some c
  pub reads_base64 : (s : String) → codec.decode (codec.encode s) ≡ some s
  pub header_dots : HasNoDot codec.header
  pub header_space : HasNoSpace codec.header
  pub encode_dots : (s : String) → HasNoDot (codec.encode s)
  pub encode_space : (s : String) → HasNoSpace (codec.encode s)
  pub mac_dots : (key s : String) → HasNoDot (codec.mac key s)
  pub mac_space : (key s : String) → HasNoSpace (codec.mac key s)

nil_append : (v : String) → "" ++ v ≡ v
nil_append v i = nil v i

cons_append : (c : Char) (u v : String) → String.◌∷◌ c u ++ v ≡ String.◌∷◌ c (u ++ v)
cons_append c u v i = cons c u v i

HasNoSpace-append : (u v : String) → HasNoSpace u → HasNoSpace v → HasNoSpace (u ++ v)
HasNoSpace-append String.[] v h k = rw (nil_append v) k
HasNoSpace-append (String.◌∷◌ c u) v h k = rw (cons_append c u v) (h.0, HasNoSpace-append u v h.1 k)

dot_clean : HasNoSpace "."
unfolding is_space
dot_clean = (refl, tt)

access_clean : HasNoSpace "access"
unfolding is_space
access_clean = (refl, (refl, (refl, (refl, (refl, (refl, tt))))))

refresh_clean : HasNoSpace "refresh"
unfolding is_space
refresh_clean = (refl, (refl, (refl, (refl, (refl, (refl, (refl, tt)))))))

pub split_dots_last : (s : String) → HasNoDot s → split_dots s ≡ s ∷ []
unfolding split_dots
split_dots_last String.[] h = refl
split_dots_last (String.◌∷◌ c s) h = rw (h.0, split_dots_last s h.1) refl

dot_first : (v : String) → split_dots ("." ++ v) ≡ "" ∷ split_dots v
unfolding split_dots
dot_first v = rw (cons_append _ "" v, nil_append v) refl

pub split_dots_first : (u v : String) → HasNoDot u → split_dots (u ++ "." ++ v) ≡ u ∷ split_dots v
unfolding split_dots
split_dots_first String.[] v h = rw (nil_append ("." ++ v)) (dot_first v)
split_dots_first (String.◌∷◌ c u) v h =
    rw (cons_append c u ("." ++ v)) (rw (h.0, split_dots_first u v h.1) refl)

append_assoc : (u v w : String) → (u ++ v) ++ w ≡ u ++ (v ++ w)
append_assoc String.[] v w = rw (nil_append v, nil_append (v ++ w)) refl
append_assoc (String.◌∷◌ c u) v w =
    rw (cons_append c u v, cons_append c (u ++ v) w, cons_append c u (v ++ w))
      (ap (String.◌∷◌ c) (append_assoc u v w))

module _ (codec : Codec) (law : IsCodec codec) (m : AdminTokenManager) where
  -- What is signed is read, and only its claims are left to be checked.
  parse_and_validate-sign :
      (now : ℕ) (claims : AdminTokenClaims) (expected_type : String)
      → parse_and_validate codec m now (sign codec m claims) expected_type
        ≡ check_claims codec m now expected_type claims
  unfolding parse_and_validate sign
  parse_and_validate-sign now claims expected_type =
      let payload = codec.encode (codec.marshal claims) in
      let signed = codec.header ++ "." ++ payload in
      let signature = codec.mac m.key signed in
      let clean : HasNoSpace (signed ++ "." ++ signature) =
        HasNoSpace-append signed _
          (HasNoSpace-append codec.header _ law.header_space
            (HasNoSpace-append "." payload dot_clean (law.encode_space _)))
          (HasNoSpace-append "." signature dot_clean (law.mac_space m.key signed)) in
      let parts : split_dots (signed ++ "." ++ signature)
          ≡ codec.header ∷ payload ∷ signature ∷ [] =
        ap split_dots (append_assoc codec.header ("." ++ payload) ("." ++ signature))
        ∙ ap (λ x. split_dots (codec.header ++ x)) (append_assoc "." payload ("." ++ signature))
        ∙ split_dots_first codec.header (payload ++ "." ++ signature) law.header_dots
        ∙ ap (λ ps. codec.header ∷ ps)
            (split_dots_first payload signature (law.encode_dots _)
              ∙ ap (λ ps. payload ∷ ps) (split_dots_last signature (law.mac_dots m.key signed))) in
      rw
        (
          trim_space_whole (signed ++ "." ++ signature) clean,
          parts,
          (eq_iff signature signature).1 refl,
          law.reads_base64 (codec.marshal claims),
          law.reads_json claims,
        )
        refl

  -- What a token of the kind and the expiry is worth to who expects the kind.
  abbrev pub worth : ℕ → String → String → ℕ → String → ℕ → Parsed
  worth issued username kind expires expected_type later =
      if not (kind == expected_type)
      then invalid invalid_type
      else if leb (unix expires) (unix later)
      then invalid token_expired
      else valid (record {
        subject = trim_space username;
        token_type = kind;
        issued_at = unix issued;
        expires_at = unix expires;
      })

  kind_same :
      (now later expires : ℕ) (username kind expected_type : String)
      → (trim_space username == "") ≡ false
      → trim_space kind ≡ kind
      → trim_space expected_type ≡ expected_type
      → parse_and_validate codec m later
          (sign codec m (record {
            subject = trim_space username;
            token_type = kind;
            issued_at = unix now;
            expires_at = unix expires;
          }))
          expected_type
        ≡ worth now username kind expires expected_type later
  unfolding check_claims
  kind_same now later expires username kind expected_type named k e =
      parse_and_validate-sign later _ expected_type
      ∙ rw (trim_space-trim_space username, named, k, e) refl

  -- Where the codec reads what it has written, without dots and white space in its texts, a username
  -- that is not blank is issued two tokens. The access token is taken as an access token of that
  -- username until it expires, and never as a refresh token; and the other way round.
  pub issue_token_pair-parse_and_validate :
      (now later : ℕ) (username : String)
      → (trim_space username == "") ≡ false
      → (pair : TokenPair) × (issue_token_pair codec m now username ≡ some pair)
        × (parse_and_validate codec m later pair.access_token admin_token_type_access
            ≡ worth now username admin_token_type_access
                (now + m.access_ttl)
                admin_token_type_access
                later)
        × (parse_and_validate codec m later pair.access_token admin_token_type_refresh
            ≡ invalid invalid_type)
        × (parse_and_validate codec m later pair.refresh_token admin_token_type_refresh
            ≡ worth now username admin_token_type_refresh
                (now + m.refresh_ttl)
                admin_token_type_refresh
                later)
        × (parse_and_validate codec m later pair.refresh_token admin_token_type_access
            ≡ invalid invalid_type)
  unfolding issue_token_pair
  issue_token_pair-parse_and_validate now later username named =
      let a = trim_space_whole "access" access_clean in
      let r = trim_space_whole "refresh" refresh_clean in
      (
        token_pair codec m now (trim_space username),
        rw named refl,
        kind_same now later (now + m.access_ttl) username "access" "access" named a a,
        kind_same now later (now + m.access_ttl) username "access" "refresh" named a r,
        kind_same now later (now + m.refresh_ttl) username "refresh" "refresh" named r r,
        kind_same now later (now + m.refresh_ttl) username "refresh" "access" named r a,
      )
