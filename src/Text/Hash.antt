-- ===== src/Text/Hash.antt =====
-- `[]byte(s)`, the UTF-8 of a text, and the FNV-1a hashes of hash/fnv as they are documented: each
-- byte is joined by exclusive or, and the word is multiplied by the prime modulo its width.
use Prim.Native.Char.{code}
use coin.Base.{
  ℕ, zero, suc, ◌+◌, ◌-◌, ◌*◌, ◌/◌, ◌%◌, ◌^◌, String, List, [], ◌∷◌, ◌++◌, ltb, if◌then◌else◌, ◌=?◌,
  Bool, true, false,
}

-- The last bits of the exclusive or, as many as the first argument says.
xor_bits : ℕ → ℕ → ℕ → ℕ
xor_bits zero a b = 0
xor_bits (suc w) a b = (a % 2 + b % 2) % 2 + 2 * xor_bits w (a / 2) (b / 2)

utf8 : ℕ → List ℕ
utf8 c =
    if ltb c 0x80
    then c ∷ []
    else if ltb c 0x800
    then (0xc0 + c / 64) ∷ (0x80 + c % 64) ∷ []
    else if ltb c 0x10000
    then (0xe0 + c / 4096) ∷ (0x80 + c / 64 % 64) ∷ (0x80 + c % 64) ∷ []
    else (0xf0 + c / 262144) ∷ (0x80 + c / 4096 % 64) ∷ (0x80 + c / 64 % 64) ∷ (0x80 + c % 64) ∷ []

unfoldable pub bytes : String → List ℕ
unfolding utf8
bytes String.[] = []
bytes (String.◌∷◌ c s) = utf8 (code c) ++ bytes s

-- Equality of bytes.
abbrev pub same : List ℕ → List ℕ → Bool
same [] [] = true
same [] (_ ∷ _) = false
same (_ ∷ _) [] = false
same (a ∷ u) (b ∷ v) = if a =? b then same u v else false

fnv1a : ℕ → ℕ → ℕ → List ℕ → ℕ
unfolding xor_bits
fnv1a width prime h [] = h
fnv1a width prime h (b ∷ bs) =
    fnv1a width prime ((h - h % 256 + xor_bits 8 (h % 256) b) * prime % 2 ^ width) bs

-- `fnv.New32a`
unfoldable pub fnv32a : List ℕ → ℕ
unfolding fnv1a
fnv32a = fnv1a 32 16777619 2166136261

-- `fnv.New64a`
unfoldable pub fnv64a : List ℕ → ℕ
unfolding fnv1a
fnv64a = fnv1a 64 1099511628211 14695981039346656037
