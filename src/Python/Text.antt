-- ===== src/Python/Text.antt =====
-- `str`: a list of code points. `strip`, `lower`, `startswith`, `endswith`, `in` and equality.
pub mod Strip
pub mod Clean
pub mod Ascii
use Prim.Native.Char.{code}
use etroute.Prelude.{
  ℕ, ◌+◌, ◌-◌, ◌≡◌, refl, ◌↔◌, String, Bool, true, false, ◌&&◌, ◌||◌, List, [], ◌∷◌, ◌++◌, any,
  arith, leb, ltb, ◌==◌, if◌then◌else◌, Bool-cases, inl, inr, ==_refl,
}

abbrev pub Text : Type 0
Text = List ℕ

-- A literal of the source.
abbrev pub codes : String → Text
codes String.[] = []
codes (String.◌∷◌ c s) = code c ∷ codes s

-- `s == t`
unfoldable pub text_eq : Text → Text → Bool
text_eq [] [] = true
text_eq [] (d ∷ t) = false
text_eq (c ∷ s) [] = false
text_eq (c ∷ s) (d ∷ t) = c == d && text_eq s t

pub text_eq_refl : (s : Text) → text_eq s s ≡ true
unfolding text_eq
text_eq_refl [] = refl
text_eq_refl (c ∷ s) = ground (arith, text_eq_refl s)

pub text_eq→eq : (s t : Text) → text_eq s t ≡ true → s ≡ t
unfolding text_eq
text_eq→eq [] [] h = refl
text_eq→eq [] (d ∷ t) h = cc
text_eq→eq (c ∷ s) [] h = cc
text_eq→eq (c ∷ s) (d ∷ t) h = ground (arith, text_eq→eq s t)

-- The code points for which `str.isspace` holds, which `str.strip` removes.
unfoldable pub is_space : ℕ → Bool
is_space c =
    (leb 9 c && leb c 13)
    || (leb 28 c && leb c 32)
    || c == 0x85
    || c == 0xA0
    || c == 0x1680
    || (leb 0x2000 c && leb c 0x200A)
    || c == 0x2028
    || c == 0x2029
    || c == 0x202F
    || c == 0x205F
    || c == 0x3000

-- `s.lstrip()`
unfoldable pub strip_left : Text → Text
strip_left [] = []
strip_left (c ∷ s) = let rest = strip_left s in if is_space c then rest else c ∷ s

-- `s.rstrip()`: a code point goes if it is a space and all after it goes.
abbrev pub keep_left : ℕ → Text → Text
keep_left c [] = if is_space c then [] else c ∷ []
keep_left c (d ∷ s) = c ∷ d ∷ s

unfoldable pub strip_right : Text → Text
strip_right [] = []
strip_right (c ∷ s) = keep_left c (strip_right s)

-- `s.strip()`
unfoldable pub strip : Text → Text
unfolding strip_left strip_right
strip s = strip_right (strip_left s)

-- `s.startswith(t)`
unfoldable pub starts_with : Text → Text → Bool
starts_with s [] = true
starts_with [] (d ∷ t) = false
starts_with (c ∷ s) (d ∷ t) = c == d && starts_with s t

-- `c in s` for one code point
unfoldable pub has : ℕ → Text → Bool
has c s = any (λ d. c == d) s

-- `s.lower()`: ASCII is written out. Beyond ASCII the result depends on the Unicode tables of the
-- interpreter, and on the text before and behind: `wide before c behind`.
abbrev pub lower_ascii : ℕ → ℕ
lower_ascii c = if leb 65 c && leb c 90 then c + 32 else c

unfoldable pub lower_from : (Text → ℕ → Text → Text) → Text → Text → Text
lower_from wide before [] = []
lower_from wide before (c ∷ s) =
    (if ltb c 128 then lower_ascii c ∷ [] else wide before c s) ++ lower_from wide (c ∷ before) s

unfoldable pub lower : (Text → ℕ → Text → Text) → Text → Text
unfolding lower_from
lower wide s = lower_from wide [] s

-- `s.upper()`: it works code point by code point; `wide` is its table beyond ASCII.
unfoldable pub upper : (ℕ → Text) → Text → Text
upper wide [] = []
upper wide (c ∷ s) =
    (if ltb c 128 then (if leb 97 c && leb c 122 then c - 32 else c) ∷ [] else wide c)
    ++ upper wide s

strip_words : strip (codes "  a b\n") ≡ codes "a b"
unfolding strip is_space
strip_words = refl
