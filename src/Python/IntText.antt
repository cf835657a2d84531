-- ===== src/Python/IntText.antt =====
-- `int(text)`: spaces at the ends, a sign, and decimal digits with single underscores between them.
use etroute.Prelude.{
  ℕ, zero, suc, ◌+◌, ◌-◌, ◌*◌, ◌≡◌, refl, Bool, true, false, not, ◌&&◌, Option, none, some, List,
  [], ◌∷◌, length, ltb, leb, ◌==◌, if◌then◌else◌,
}
use etroute.Python.Text.{Text, codes, is_space}
use etroute.Python.Value.{ℤ, pos, negsuc}

-- The digit of a code point; beyond ASCII it is the interpreter's table.
abbrev digit_of : (ℕ → Option ℕ) → ℕ → Option ℕ
digit_of wide c =
    if ltb c 128 then (if leb 48 c && leb c 57 then some (c - 48) else none) else wide c

abbrev put_digit : ℕ → Option (List ℕ) → Option (List ℕ)
put_digit d none = none
put_digit d (some ds) = some (d ∷ ds)

-- The digits of a text; the flag says whether a digit stands before it.
unfoldable digits_from : (ℕ → Option ℕ) → Bool → Text → Option (List ℕ)
digits_from wide after_digit [] = if after_digit then some [] else none
digits_from wide after_digit (c ∷ s) = elim (digit_of wide c) [
  | some d ↦ put_digit d (digits_from wide true s)
  | none ↦ if after_digit && c == b'_' then digits_from wide false s else none
]

abbrev value_from : ℕ → List ℕ → ℕ
value_from n [] = n
value_from n (d ∷ ds) = value_from (10 * n + d) ds

-- A text of more than 4300 digits is refused.
abbrev of_digits : Option (List ℕ) → Option ℕ
of_digits none = none
of_digits (some ds) = if ltb 4300 (length ds) then none else some (value_from 0 ds)

abbrev positive : Option ℕ → Option ℤ
positive none = none
positive (some n) = some (pos n)

abbrev negative : Option ℕ → Option ℤ
negative none = none
negative (some zero) = some (pos 0)
negative (some (suc n)) = some (negsuc n)

unfoldable signed : (ℕ → Option ℕ) → Text → Option ℤ
unfolding digits_from
signed wide [] = none
signed wide (c ∷ s) =
    if c == b'-'
    then negative (of_digits (digits_from wide false s))
    else if c == b'+'
    then positive (of_digits (digits_from wide false s))
    else positive (of_digits (digits_from wide false (c ∷ s)))

-- The spaces that `int` takes off: `str.strip` takes the separators U+001C to U+001F off too.
unfoldable pub is_int_space : ℕ → Bool
unfolding is_space
is_int_space c = is_space c && not (leb 0x1C c && leb c 0x1F)

unfoldable pub trim_left : Text → Text
unfolding is_int_space
trim_left [] = []
trim_left (c ∷ s) = let rest = trim_left s in if is_int_space c then rest else c ∷ s

abbrev keep_unless_space : ℕ → Text → Text
keep_unless_space c [] = if is_int_space c then [] else c ∷ []
keep_unless_space c (d ∷ s) = c ∷ d ∷ s

unfoldable pub trim_right : Text → Text
unfolding is_int_space
trim_right [] = []
trim_right (c ∷ s) = keep_unless_space c (trim_right s)

-- `int(text)`, or `none` for ValueError
unfoldable pub int_of : (ℕ → Option ℕ) → Text → Option ℤ
unfolding trim_left trim_right signed
int_of wide s = signed wide (trim_right (trim_left s))

reads_int : int_of (λ c. none) (codes " -1_0 ") ≡ some (negsuc 9)
unfolding int_of
reads_int = refl

refuses_separator : int_of (λ c. none) (0x1F ∷ codes "1") ≡ none
unfolding int_of
refuses_separator = refl
