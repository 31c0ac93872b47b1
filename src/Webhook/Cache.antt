-- ===== src/Webhook/Cache.antt =====
-- What the worker's caches of configurations and secrets may answer.
use coin.Base.{
  subst, ℕ, ◌+◌, ◌≡◌, refl, String, Bool, true, false, ◌&&◌, Option, none, some, List, [], ◌∷◌,
  arith, All, ltb, leb, ◌=?◌, ◌==◌, eq_iff, Bool-cases, inl, inr,
}
use coin.Ledger.Query.{any}
use coin.Webhook.{
  CacheEntry, Read, Answer, broken, unusable, usable, answer_of, find_entry, without, fresh_value,
  store_answer, cached_or, get_cached,
}

-- A look-up, with what the repository or the provider would have read at its time.
pub record Call : Type 0 where
  pub now : ℕ
  pub key : String
  pub asked : Read

abbrev pub is_usable : String → Answer → Bool
is_usable v broken = false
is_usable v unusable = false
is_usable v (usable w) = w == v

module _ (ttl : ℕ) where
  -- The cache behind look-ups, the last of them first.
  abbrev pub cache_after : List Call → List CacheEntry
  cache_after [] = []
  cache_after (c ∷ cs) = (get_cached c.now ttl c.key c.asked (cache_after cs)).1

  -- One of the look-ups read the value for the key, no longer ago than the time to live.
  abbrev pub was_read : ℕ → String → String → List Call → Bool
  was_read now key v =
      any (λ c. c.key == key && is_usable v (answer_of c.asked) && leb now (c.now + ttl))

  abbrev is_backed : List Call → CacheEntry → Bool
  is_backed cs e =
      any
        (λ c. c.key == e.key && is_usable e.value (answer_of c.asked) && c.now + ttl =? e.expire_at)
        cs

  abbrev Backed : List Call → List CacheEntry → Type 0
  Backed cs = All (λ e. is_backed cs e ≡ true)

  weaken : (c : Call) (cs : List Call) (es : List CacheEntry) → Backed cs es → Backed (c ∷ cs) es
  weaken c cs [] h = tt
  weaken c cs (e ∷ es) h = (ground (arith, h.0), weaken c cs es h.1)

  without-Backed :
      (key : String) (cs : List Call) (es : List CacheEntry)
      → Backed cs es
      → Backed cs (without key es)
  without-Backed key cs [] h = tt
  without-Backed key cs (e ∷ es) h = elim (Bool-cases (e.key == key)) [
    | inl b ↦ rw b (without-Backed key cs es h.1)
    | inr b ↦ rw b (h.0, without-Backed key cs es h.1)
  ]

  store_answer-Backed :
      (c : Call) (cs : List Call) (es : List CacheEntry)
      → Backed cs es
      → (answer : Answer) → answer_of c.asked ≡ answer
      → Backed (c ∷ cs) (store_answer c.key (c.now + ttl) answer es).1
  store_answer-Backed c cs es h broken e = weaken c cs es h
  store_answer-Backed c cs es h unusable e = weaken c cs es h
  store_answer-Backed c cs es h (usable v) e = (
    rw e (ground (arith, eq_iff c.key c.key, eq_iff v v)),
    weaken c cs (without c.key es) (without-Backed c.key cs es h),
  )

  cached_or-Backed :
      (c : Call) (cs : List Call) (es : List CacheEntry)
      → Backed cs es
      → (value : Option String)
      → Backed (c ∷ cs) (cached_or c.key (c.now + ttl) value (answer_of c.asked) es).1
  cached_or-Backed c cs es h (some v) = weaken c cs es h
  cached_or-Backed c cs es h none =
      store_answer-Backed c cs (without c.key es) (without-Backed c.key cs es h) (answer_of c.asked)
        refl

  cache_after-Backed : (cs : List Call) → Backed cs (cache_after cs)
  unfolding get_cached
  cache_after-Backed [] = tt
  cache_after-Backed (c ∷ cs) =
      cached_or-Backed c cs (cache_after cs) (cache_after-Backed cs)
        (fresh_value c.now (find_entry c.key (cache_after cs)))

  backed_read :
      (now : ℕ) (e : CacheEntry) (cs : List Call)
      → is_backed cs e ≡ true
      → ltb e.expire_at now ≡ false
      → was_read now e.key e.value cs ≡ true
  backed_read now e [] h f = ground (arith, h)
  backed_read now e (c ∷ cs) h f = ground (arith, h, f, backed_read now e cs)

  entry_read :
      (now : ℕ) (key v : String) (cs : List Call) (es : List CacheEntry)
      → Backed cs es
      → fresh_value now (find_entry key es) ≡ some v
      → was_read now key v cs ≡ true
  entry_read now key v cs [] h f = ground (arith, f)
  entry_read now key v cs (e ∷ es) h f = elim (Bool-cases (e.key == key)) [
    | inl b ↦ elim (Bool-cases (ltb e.expire_at now)) [
      | inl late ↦ grind (arith, b, late, f)
      | inr fresh ↦
          let value : e.value ≡ v = grind (arith, b, fresh, f) in
          subst (λ (k : String). was_read now k v cs ≡ true) ((eq_iff e.key key).0 b)
            (subst (λ (w : String). was_read now e.key w cs ≡ true) value
              (backed_read now e cs h.0 fresh))
    ]
    | inr b ↦ entry_read now key v cs es h.1 (rw b at f)
  ]

  answered_read :
      (cs : List Call) (c : Call) (v : String) (es : List CacheEntry) (answer : Answer)
      → answer_of c.asked ≡ answer
      → (store_answer c.key (c.now + ttl) answer es).0 ≡ usable v
      → was_read c.now c.key v (c ∷ cs) ≡ true
  answered_read cs c v es broken e h = grind (arith, h)
  answered_read cs c v es unusable e h = grind (arith, h)
  answered_read cs c v es (usable w) e h = rw e (grind (arith, h, eq_iff c.key c.key, eq_iff w v))

  value_read :
      (cs : List Call) (c : Call) (v : String) (es : List CacheEntry) (value : Option String)
      → (value ≡ some v → was_read c.now c.key v cs ≡ true)
      → (cached_or c.key (c.now + ttl) value (answer_of c.asked) es).0 ≡ usable v
      → was_read c.now c.key v (c ∷ cs) ≡ true
  value_read cs c v es (some w) k h = let r = k (grind (arith, h)) in ground (arith, r)
  value_read cs c v es none k h = answered_read cs c v (without c.key es) (answer_of c.asked) refl h

  -- Whatever look-ups came before, a text that getWebhookConfig or getActiveSecret answers was read
  -- for the merchant, now or by an earlier look-up whose time to live has not ended.
  pub get_cached-was_read :
      (cs : List Call) (c : Call) (v : String)
      → (get_cached c.now ttl c.key c.asked (cache_after cs)).0 ≡ usable v
      → was_read c.now c.key v (c ∷ cs) ≡ true
  unfolding get_cached
  get_cached-was_read cs c v h =
      value_read cs c v (cache_after cs) (fresh_value c.now (find_entry c.key (cache_after cs)))
        (entry_read c.now c.key v cs (cache_after cs) (cache_after-Backed cs)) h
