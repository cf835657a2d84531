-- ===== src/Python/Value.antt =====
-- Python values as the sources meet them: JSON documents and whatever else a caller may pass.
-- Dicts keep their order of insertion and have text keys.
pub mod Laws
use etroute.Prelude.{
  ℕ, ◌≡◌, Bool, true, false, Option, none, some, List, [], ◌∷◌, any, ltb, ◌&&◌, ◌||◌, ◌==◌,
  if◌then◌else◌,
}
use etroute.Python.Text.{Text, codes, text_eq}

-- `negsuc n` is -(n + 1).
pub data ℤ : Type 0 where
  pos : ℕ → ℤ
  negsuc : ℕ → ℤ

mutual
  pub data Value : Type 0 where
    null : Value
    bool : Bool → Value
    int : ℤ → Value
    -- A float is the text that `json.dumps` gives it.
    float : Text → Value
    str : Text → Value
    arr : Items → Value
    obj : Fields → Value
    -- An object that `json.dumps` refuses, told apart by a number.
    opaque : ℕ → Value

  pub data Items : Type 0 where
    nil : Items
    cons : Value → Items → Items

  pub data Fields : Type 0 where
    end : Fields
    field : Text → Value → Fields → Fields

-- `d.get(key)`
unfoldable pub get : Fields → Text → Option Value
unfolding text_eq
get end k = none
get (field j v d) k = if text_eq j k then some v else get d k

-- `key in d`
abbrev pub is_some {ℓ} : {A : Type ℓ} → Option A → Bool
is_some none = false
is_some (some a) = true

-- `d.pop(key, None)`, the dict that is left
unfoldable pub pop : Fields → Text → Fields
unfolding text_eq
pop end k = end
pop (field j v d) k = let rest = pop d k in if text_eq j k then rest else field j v rest

unfoldable pub keys : Fields → List Text
keys end = []
keys (field k v d) = k ∷ keys d

unfoldable pub contains : List Text → Text → Bool
unfolding text_eq
contains ks k = any (λ j. text_eq j k) ks

-- `set(d) - allowed`, as the list of its members
unfoldable pub without : List Text → List Text → List Text
unfolding contains
without [] allowed = []
without (k ∷ ks) allowed =
    let rest = without ks allowed in if contains allowed k then rest else k ∷ rest

-- `value == 1` for an integer literal 1: `True` and `1.0` are equal to it too.
unfoldable pub is_one : Value → Bool
unfolding text_eq
is_one (int (pos n)) = n == 1
is_one (bool b) = b
is_one (float t) = text_eq t (codes "1.0")
is_one _ = false

-- A field that is `None` or a text.
abbrev pub of_optional : Option Text → Value
of_optional none = null
of_optional (some t) = str t

abbrev pub of_texts : List Text → Items
of_texts [] = nil
of_texts (t ∷ ts) = cons (str t) (of_texts ts)

-- A raised exception: of the module's own class, with its reason, or of a built-in class.
pub data Raised (Reason : Type 0) : Type 0 where
  own : Reason → Raised Reason
  value_error type_error attribute_error overflow_error : Raised Reason

-- `Enum(text)`: the member with that value. `Enum` raises ValueError where there is none.
unfoldable pub find_member {ℓ} : {E : Type ℓ} → (E → Text) → List E → Text → Option E
unfolding text_eq
find_member value [] t = none
find_member value (e ∷ es) t = if text_eq (value e) t then some e else find_member value es t

-- The order of texts, by code points, and `sorted`.
unfoldable pub text_lt : Text → Text → Bool
text_lt [] [] = false
text_lt [] (d ∷ t) = true
text_lt (c ∷ s) [] = false
text_lt (c ∷ s) (d ∷ t) = ltb c d || (c == d && text_lt s t)

unfoldable pub insert_sorted : Text → List Text → List Text
unfolding text_lt
insert_sorted s [] = s ∷ []
insert_sorted s (t ∷ ts) = if text_lt t s then t ∷ insert_sorted s ts else s ∷ t ∷ ts

unfoldable pub sorted : List Text → List Text
unfolding insert_sorted
sorted [] = []
sorted (t ∷ ts) = insert_sorted t (sorted ts)

-- `cls(**data)`: the argument of that name, or the default of the field.
abbrev pub or_default : Option Value → Value → Value
or_default none v = v
or_default (some w) v = w

-- `tuple(value)`: the elements of a list, the keys of a dict, the characters of a text. No other
-- value is iterable.
unfoldable chars : Text → Items
chars [] = nil
chars (c ∷ s) = cons (str (c ∷ [])) (chars s)

unfoldable pub tuple_of : Value → Option Items
unfolding chars keys
tuple_of (arr xs) = some xs
tuple_of (obj d) = some (of_texts (keys d))
tuple_of (str s) = some (chars s)
tuple_of _ = none

-- `value == text`
unfoldable pub is_text : Value → Text → Bool
unfolding text_eq
is_text (str s) t = text_eq s t
is_text _ t = false

-- `value is True` and `value is False`
unfoldable pub is_true : Value → Bool
is_true (bool b) = b
is_true _ = false

unfoldable pub is_false : Value → Bool
is_false (bool true) = false
is_false (bool false) = true
is_false _ = false

-- `d[key] = value`: a key that is there keeps its place.
unfoldable pub put : Text → Value → Fields → Fields
unfolding text_eq
put k v end = field k v end
put k v (field j w d) = if text_eq j k then field j v d else field j w (put k v d)

-- `d.update(e)`
unfoldable pub update : Fields → Fields → Fields
unfolding put
update d end = d
update d (field k v e) = update (put k v d) e

-- A text that is not empty, as Python tests it.
abbrev pub truthy : Option Text → Option Text
truthy none = none
truthy (some []) = none
truthy (some (c ∷ s)) = some (c ∷ s)

-- `a or b`
abbrev pub or_else : Option Text → Text → Text
or_else none t = t
or_else (some s) t = s
