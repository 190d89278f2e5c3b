-- ===== src/Base/Ascii.antt =====
-- What the code uses of `str` and `char` of Rust's standard library, on code points.
use Prim.Native.Nat.{ℕ, ◌+◌, ◌-◌}
use mathlib.Core.Bool.{Bool, true, false, ◌&&◌, ◌||◌}
use mathlib.Core.List.{[], ◌∷◌}
use mathlib.Core.Option.{Option, none, some}
use native.Mathlib.Omega.{arith}
use chain_rail.Base.Tests.{ltb, leb, ◌==◌, if◌then◌else◌}
use mathlib.Core.Path.{◌≡◌, refl}
use chain_rail.Base.Lists.{Text, text_eq, text_eq_refl}

abbrev pub between : ℕ → ℕ → ℕ → Bool
between lo hi c = leb lo c && leb c hi

abbrev pub is_digit : ℕ → Bool
is_digit c = between b'0' b'9' c

abbrev pub is_upper : ℕ → Bool
is_upper c = between b'A' b'Z' c

abbrev pub is_lower : ℕ → Bool
is_lower c = between b'a' b'z' c

-- `char::is_ascii_hexdigit`
abbrev pub is_hexdigit : ℕ → Bool
is_hexdigit c = is_digit c || between b'a' b'f' c || between b'A' b'F' c

abbrev pub ascii_lower : ℕ → ℕ
ascii_lower c = if is_upper c then c + 32 else c

abbrev pub ascii_upper : ℕ → ℕ
ascii_upper c = if is_lower c then c - 32 else c

-- `str::to_ascii_lowercase`
abbrev pub to_ascii_lowercase : Text → Text
to_ascii_lowercase [] = []
to_ascii_lowercase (c ∷ s) = ascii_lower c ∷ to_ascii_lowercase s

-- `t = lower(t)` of the database, on ASCII.
abbrev pub is_lowercase : Text → Bool
is_lowercase t = text_eq t (to_ascii_lowercase t)

ascii_lower-twice : (c : ℕ) → ascii_lower (ascii_lower c) ≡ ascii_lower c
ascii_lower-twice c = ground arith

pub to_ascii_lowercase-twice :
    (t : Text) → to_ascii_lowercase (to_ascii_lowercase t) ≡ to_ascii_lowercase t
to_ascii_lowercase-twice [] = refl
to_ascii_lowercase-twice (c ∷ t) = rw (ascii_lower-twice c, to_ascii_lowercase-twice t) refl

pub to_ascii_lowercase-lower : (t : Text) → is_lowercase (to_ascii_lowercase t) ≡ true
to_ascii_lowercase-lower t = rw (to_ascii_lowercase-twice t) (text_eq_refl (to_ascii_lowercase t))

-- `char::len_utf8`
abbrev pub len_utf8 : ℕ → ℕ
len_utf8 c = if ltb c 0x80 then 1 else if ltb c 0x800 then 2 else if ltb c 0x10000 then 3 else 4

-- `str::len`, in bytes.
abbrev pub byte_len : Text → ℕ
byte_len [] = 0
byte_len (c ∷ s) = len_utf8 c + byte_len s

-- `str::strip_prefix`
abbrev pub strip_prefix : Text → Text → Option Text
strip_prefix [] s = some s
strip_prefix (p ∷ ps) [] = none
strip_prefix (p ∷ ps) (c ∷ s) = if p == c then strip_prefix ps s else none

abbrev is_there : Option Text → Bool
is_there none = false
is_there (some s) = true

-- `str::starts_with`
abbrev pub starts_with : Text → Text → Bool
starts_with s p = is_there (strip_prefix p s)

-- `str::contains`
abbrev pub contains_text : Text → Text → Bool
contains_text [] p = starts_with [] p
contains_text (c ∷ s) p = starts_with (c ∷ s) p || contains_text s p
