-- ===== src/Text/Case.antt =====
-- strings.ToUpper, strings.ToLower and strings.HasPrefix. A letter whose other case lies outside
-- ASCII stands for itself: no text that a result is compared with has one.
use Prim.Native.Char.{Char, code}
use coin.Base.{String, Bool, true, false, ◌&&◌, ◌=?◌, if◌then◌else◌}

-- The letter of the second text that stands where the first text has the given one.
abbrev replaced : String → String → Char → Char
replaced (String.◌∷◌ a from) (String.◌∷◌ b to) c =
    let rest = replaced from to c in if code a =? code c then b else rest
replaced _ _ c = c

abbrev each : (Char → Char) → String → String
each f String.[] = String.[]
each f (String.◌∷◌ c s) = String.◌∷◌ (f c) (each f s)

-- With the dotless i and the long s, whose capitals are in ASCII.
unfoldable pub to_upper : String → String
to_upper = each (replaced "abcdefghijklmnopqrstuvwxyzıſ" "ABCDEFGHIJKLMNOPQRSTUVWXYZIS")

-- With the sign of the kelvin and the dotted I, whose small letters are in ASCII.
unfoldable pub to_lower : String → String
to_lower = each (replaced "ABCDEFGHIJKLMNOPQRSTUVWXYZKİ" "abcdefghijklmnopqrstuvwxyzki")

unfoldable pub has_prefix : String → String → Bool
has_prefix s String.[] = true
has_prefix String.[] (String.◌∷◌ d p) = false
has_prefix (String.◌∷◌ c s) (String.◌∷◌ d p) = code c =? code d && has_prefix s p
