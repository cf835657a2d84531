-- ===== src/Python/Json.antt =====
-- The number of bytes of `json.dumps(v, separators=(",", ":"), ensure_ascii=False).encode("utf-8")`,
-- or `none` where it raises TypeError or ValueError.
use etroute.Prelude.{
  ℕ, zero, suc, ◌+◌, ◌/◌, ◌≤◌, ◌≡◌, refl, true, false, ◌&&◌, ◌||◌, Option, none, some, [], ◌∷◌,
  arith, ltb, leb, ◌==◌, if◌then◌else◌,
}
use etroute.Python.Text.{Text, codes}
use etroute.Python.Value.{
  ℤ, pos, negsuc, Value, null, bool, int, float, str, arr, obj, opaque, Items, nil, cons, Fields,
  end, field,
}

-- UTF-8 has no code for a surrogate: `encode` raises UnicodeEncodeError, which is a ValueError.
abbrev utf8_size : ℕ → Option ℕ
utf8_size c =
    if ltb c 0x80
    then some 1
    else if ltb c 0x800
    then some 2
    else if leb 0xD800 c && leb c 0xDFFF
    then none
    else if ltb c 0x10000
    then some 3
    else some 4

-- Quotes, backslashes and control characters are escaped.
unfoldable char_size : ℕ → Option ℕ
char_size c =
    if c == 34 || c == 92 || (leb 8 c && leb c 10) || (leb 12 c && leb c 13)
    then some 2
    else if ltb c 32
    then some 6
    else utf8_size c

infixl 65 ◌+?◌
abbrev ◌+?◌ : Option ℕ → Option ℕ → Option ℕ
none +? n = none
some m +? none = none
some m +? some n = some (m + n)

unfoldable chars_size : Text → Option ℕ
unfolding char_size
chars_size [] = some 0
chars_size (c ∷ s) = char_size c +? chars_size s

abbrev text_size : Text → Option ℕ
text_size s = some 2 +? chars_size s

-- The number of decimal digits. The fuel is the number itself.
unfoldable digits_count : ℕ → ℕ → ℕ
digits_count zero n = 1
digits_count (suc f) n = let rest = digits_count f (n / 10) in if ltb n 10 then 1 else suc rest

-- More fuel than the number changes nothing: the fuel does not run out.
digits_count_enough : (f g n : ℕ) → n ≤ f → n ≤ g → digits_count f n ≡ digits_count g n
unfolding digits_count
digits_count_enough zero zero n h k = refl
digits_count_enough zero (suc g) n h k = ground arith
digits_count_enough (suc f) zero n h k = ground arith
digits_count_enough (suc f) (suc g) n h k = ground (arith, digits_count_enough f g (n / 10))

abbrev int_size : ℤ → ℕ
int_size (pos n) = digits_count n n
int_size (negsuc n) = suc (digits_count (suc n) (suc n))

unfoldable mutual
  unfolding chars_size digits_count

  pub json_size : Value → Option ℕ
  json_size null = some 4
  json_size (bool true) = some 4
  json_size (bool false) = some 5
  json_size (int z) = some (int_size z)
  json_size (float t) = chars_size t
  json_size (str s) = text_size s
  json_size (arr xs) = some 2 +? items_size xs
  json_size (obj d) = some 2 +? fields_size d
  json_size (opaque n) = none

  -- Each element with the comma before the next one.
  pub items_size : Items → Option ℕ
  items_size nil = some 0
  items_size (cons x nil) = json_size x
  items_size (cons x (cons y xs)) = json_size x +? some 1 +? items_size (cons y xs)

  pub fields_size : Fields → Option ℕ
  fields_size end = some 0
  fields_size (field k v end) = text_size k +? some 1 +? json_size v
  fields_size (field k v (field j w d)) =
      text_size k +? some 1 +? json_size v +? some 1 +? fields_size (field j w d)

-- {"a":[1,-20,null],"é":"\n"}
size_of_document :
    json_size (
      obj (
        field
          (codes "a")
          (arr (cons (int (pos 1)) (cons (int (negsuc 19)) (cons null nil))))
          (field (0xE9 ∷ []) (str (10 ∷ [])) end)))
    ≡ some 28
unfolding json_size
size_of_document = refl
