-- ===== src/Http/Auth/Signing.antt =====
-- Which requests are authenticated, and what a signature covers.
use coin.Base.{
  ℕ, ◌+◌, ◌≤◌, ◌≡◌, refl, subst, ap, sym, ◌∙◌, ◌↔◌, String, true, false, ◌||◌, Option, some, List,
  [], ◌∷◌, ◌++◌, ltb, ◌=?◌, ◌==◌, if◌then◌else◌, arith,
}
use coin.Int.{ℤ}
use coin.Text.{trim_space}
use coin.Text.Case.{to_lower}
use coin.Text.Hash.{bytes, same}
use coin.Http.{
  passed, found_or, ◌>>=◌, ◌>>◌, refuse_if, Ensures, bind-Ensures, refuse_if-Ensures,
  found_or-Ensures,
}
use coin.Http.Auth.{
  Request, SecretAnswer, secret, no_secret, secret_error, secret_or, parse_timestamp, abs_duration,
  time_window, signing_string, expected_signature, authenticate,
}

abbrev newlines : List ℕ → ℕ
newlines [] = 0
newlines (c ∷ v) = (if c =? 10 then 1 else 0) + newlines v

newlines-append : (u v : List ℕ) → newlines (u ++ v) ≡ newlines u + newlines v
newlines-append [] v = omega arith
newlines-append (c ∷ u) v = omega (arith, newlines-append u v)

cons_injective : {c d : ℕ} {u v : List ℕ} → c ∷ u ≡ d ∷ v → (c ≡ d) × (u ≡ v)
cons_injective e = (cc, cc)

-- Texts are split alike at a newline with none before it.
split_first :
    (u u' v v' : List ℕ)
    → newlines u ≡ 0
    → newlines u' ≡ 0
    → u ++ 10 ∷ v ≡ u' ++ 10 ∷ v'
    → (u ≡ u') × (v ≡ v')
split_first [] [] v v' h h' e = (refl, (cons_injective e).1)
split_first [] (d ∷ u') v v' h h' e =
    let d_eq = (cons_injective e).0 in absurd (ground (arith, d_eq, h'))
split_first (c ∷ u) [] v v' h h' e =
    let c_eq = (cons_injective e).0 in absurd (ground (arith, c_eq, h))
split_first (c ∷ u) (d ∷ u') v v' h h' e =
    let (same_head, rest) = cons_injective e in
    let (us, vs) = split_first u u' v v' (omega (arith, h)) (omega (arith, h')) rest in
    (rw (same_head, us) refl, vs)

-- And so they are at a newline with as many behind it.
split_last :
    (u u' v v' : List ℕ)
    → newlines v ≡ newlines v'
    → u ++ 10 ∷ v ≡ u' ++ 10 ∷ v'
    → (u ≡ u') × (v ≡ v')
split_last [] [] v v' h e = (refl, (cons_injective e).1)
split_last [] (d ∷ u') v v' h e =
    let tail = ap newlines ((cons_injective e).1) in
    absurd (omega (arith, tail, newlines-append u' (10 ∷ v'), h))
split_last (c ∷ u) [] v v' h e =
    let tail = ap newlines ((cons_injective e).1) in
    absurd (omega (arith, tail, newlines-append u (10 ∷ v), h))
split_last (c ∷ u) (d ∷ u') v v' h e =
    let (same_head, rest) = cons_injective e in
    let (us, vs) = split_last u u' v v' h rest in (rw (same_head, us) refl, vs)

-- Headers and methods hold no newline, and neither does a digest.
pub record HasNoNewline (method merchant_no timestamp nonce : String) (hash : List ℕ) : Type 0 where
  pub in_method : newlines (bytes method) ≡ 0
  pub in_merchant : newlines (bytes merchant_no) ≡ 0
  pub in_time : newlines (bytes timestamp) ≡ 0
  pub in_nonce : newlines (bytes nonce) ≡ 0
  pub in_hash : newlines hash ≡ 0

-- Three newlines stand behind that after the path.
newlines_behind :
    (k t n hash : List ℕ)
    → newlines k ≡ 0
    → newlines t ≡ 0
    → newlines n ≡ 0
    → newlines hash ≡ 0
    → newlines (k ++ 10 ∷ (t ++ 10 ∷ (n ++ 10 ∷ hash))) ≡ 3
newlines_behind k t n hash a b c d = omega (
  arith,
  newlines-append k (10 ∷ (t ++ 10 ∷ (n ++ 10 ∷ hash))),
  newlines-append t (10 ∷ (n ++ 10 ∷ hash)),
  newlines-append n (10 ∷ hash),
)

-- Two requests with the same string to sign are the same in all that is signed, where methods,
-- merchants, timestamps, nonces and digests hold no newline. Paths may hold some.
pub signing_string_injective :
    (method method' path path' merchant_no merchant_no' timestamp timestamp' nonce nonce' : String)
    (hash hash' : List ℕ)
    → HasNoNewline method merchant_no timestamp nonce hash
    → HasNoNewline method' merchant_no' timestamp' nonce' hash'
    → signing_string method path merchant_no timestamp nonce hash
      ≡ signing_string method' path' merchant_no' timestamp' nonce' hash'
    → (bytes method ≡ bytes method')
      × (bytes path ≡ bytes path')
      × (bytes merchant_no ≡ bytes merchant_no')
      × (bytes timestamp ≡ bytes timestamp')
      × (bytes nonce ≡ bytes nonce')
      × (hash ≡ hash')
unfolding signing_string
signing_string_injective m m' p p' k k' t t' n n' hash hash' h h' e =
    let (ms, e₁) = split_first (bytes m) (bytes m') _ _ h.in_method h'.in_method e in
    let (ps, e₂) =
      split_last (bytes p) (bytes p') _ _
        (newlines_behind (bytes k) (bytes t) (bytes n) hash h.in_merchant h.in_time h.in_nonce
            h.in_hash
          ∙ sym (
              newlines_behind (bytes k') (bytes t') (bytes n') hash' h'.in_merchant h'.in_time
                h'.in_nonce h'.in_hash))
        e₁ in
    let (ks, e₃) = split_first (bytes k) (bytes k') _ _ h.in_merchant h'.in_merchant e₂ in
    let (ts, e₄) = split_first (bytes t) (bytes t') _ _ h.in_time h'.in_time e₃ in
    let (ns, hs) = split_first (bytes n) (bytes n') _ _ h.in_nonce h'.in_nonce e₄ in
    (ms, ps, ks, ts, ns, hs)

cons_same : (c d : ℕ) (u v : List ℕ) → c ≡ d → u ≡ v → c ∷ u ≡ d ∷ v
cons_same c d u v h t = rw (h, t) refl

same_iff : (u v : List ℕ) → (same u v ≡ true) ↔ (u ≡ v)
same_iff [] [] = (λ _. refl, λ _. refl)
same_iff [] (d ∷ v) = (λ e. cc, λ e. cc)
same_iff (c ∷ u) [] = (λ e. cc, λ e. cc)
same_iff (c ∷ u) (d ∷ v) = (
  λ e. cons_same c d u v (ground (arith, e)) ((same_iff u v).0 (ground (arith, e))),
  λ e. let (h, t) = cons_injective e in ground (arith, h, (same_iff u v).1 t),
)

module _ (sha256_hex : List ℕ → List ℕ) (hmac_hex : String → List ℕ → List ℕ)
    (parse_time : String → Option ℕ) (get_active_secret : String → SecretAnswer) where
  -- The request names the merchant, in all four headers, within the window, and is signed with the
  -- merchant's active secret.
  abbrev pub IsAuthentic : ℤ → ℕ → Request → String → Type 0
  IsAuthentic window now r merchant_no =
      (merchant_no ≡ trim_space r.merchant_no)
      × ((trim_space r.merchant_no == ""
            || trim_space r.timestamp == ""
            || trim_space r.nonce == ""
            || trim_space r.signature == "")
          ≡ false)
      × ((key : String) × (t : ℕ) × (body : List ℕ) × (get_active_secret (trim_space r.merchant_no)
            ≡ secret key)
          × (parse_timestamp parse_time (trim_space r.timestamp) ≡ some t)
          × (abs_duration now t ≤ time_window window)
          × (r.body ≡ some body)
          × (expected_signature sha256_hex hmac_hex parse_time get_active_secret key r.method r.path
                (trim_space r.merchant_no) (trim_space r.timestamp) (trim_space r.nonce) body
              ≡ bytes (to_lower (trim_space r.signature))))

  secret_or-Ensures : (x : SecretAnswer) → Ensures (λ key. x ≡ secret key) (secret_or x)
  secret_or-Ensures (secret s) = refl
  secret_or-Ensures no_secret = tt
  secret_or-Ensures secret_error = tt

  authenticate-IsAuthentic :
      (window : ℤ) (now : ℕ) (r : Request)
      → Ensures
          (IsAuthentic window now r)
          (authenticate sha256_hex hmac_hex parse_time get_active_secret window now r)
  unfolding authenticate
  authenticate-IsAuthentic window now r =
      let Q = IsAuthentic window now r in
      refuse_if-Ensures Q _ _ _ _ _ (λ given.
        bind-Ensures _ Q _ _ (secret_or-Ensures (get_active_secret (trim_space r.merchant_no)))
          (λ key has_key. found_or-Ensures Q _ _ _ _ _ (λ t read.
            refuse_if-Ensures Q _ _ _ _ _ (λ near. found_or-Ensures Q _ _ _ _ _ (λ body has_body.
              refuse_if-Ensures Q _ _ _ _ _ (λ signed. (
                refl,
                given,
                (
                  key,
                  t,
                  body,
                  has_key,
                  read,
                  ground (arith, near),
                  has_body,
                  (same_iff _ _).0 (ground (arith, signed)),
                ),
              )))))))

  authenticate-eq-passed :
      (window : ℤ) (now : ℕ) (r : Request) (merchant_no : String)
      → IsAuthentic window now r merchant_no
      → authenticate sha256_hex hmac_hex parse_time get_active_secret window now r
        ≡ passed merchant_no
  unfolding authenticate refuse_if found_or ◌>>=◌ ◌>>◌
  authenticate-eq-passed window now r merchant_no
        (named, given, (key, t, body, has_key, read, near, has_body, signed)) =
      let in_window : ltb (time_window window) (abs_duration now t) ≡ false =
        ground (arith, near) in
      let valid = (same_iff _ _).1 signed in
      rw (given, has_key, read, in_window, has_body, valid) (rw named refl)

  -- A request passes as the merchant's exactly if all four headers are there and name the merchant,
  -- the timestamp is within the window, the body can be read, and the signature is the one that the
  -- merchant's active secret makes of the request.
  pub authenticate_iff :
      (window : ℤ) (now : ℕ) (r : Request) (merchant_no : String)
      → (authenticate sha256_hex hmac_hex parse_time get_active_secret window now r
          ≡ passed merchant_no)
        ↔ IsAuthentic window now r merchant_no
  authenticate_iff window now r merchant_no = (
    λ e. subst (Ensures (IsAuthentic window now r)) e (authenticate-IsAuthentic window now r),
    authenticate-eq-passed window now r merchant_no,
  )
