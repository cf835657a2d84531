-- ===== src/DeviceValidation/Uptime.antt =====
-- tools/android_device_validation.py: `parse_uptime`.
use etroute.Prelude.{
  ℕ, ◌+◌, ◌*◌, ◌/◌, ◌%◌, ◌<◌, ◌≡◌, refl, ◌&&◌, Option, none, some, List, [], ◌∷◌, Result, ok, err,
  ◌>>=◌, Returns, Returns-bind, Returns-ok, Returns-err, arith, ltb, if◌then◌else◌, if-cases,
  ltb→lt, and-eq-true, ap, ◌∙◌, Returns-mono,
}
use etroute.Python.Text.{Text}
use etroute.Python.Value.{ℤ, pos, negsuc}
use etroute.Python.Lines.{split_on}
use etroute.Python.IntText.{int_of}

-- Why `parse_uptime` raises ValueError.
pub data UptimeError : Type 0 where
  invalid_uptime not_an_int : Text → UptimeError

abbrev or_not_int : Text → Option ℤ → Result UptimeError ℤ
or_not_int part none = err (not_an_int part)
or_not_int part (some n) = ok n

-- The tests on the three numbers, and their sum.
unfoldable pub clock : Text → ℤ → ℤ → ℤ → Result UptimeError ℕ
clock value (pos hours) (pos minutes) (pos seconds) =
    if ltb minutes 60 && ltb seconds 60
    then ok (hours * 3600 + minutes * 60 + seconds)
    else err (invalid_uptime value)
clock value _ _ _ = err (invalid_uptime value)

unfoldable pub of_parts : (ℕ → Option ℕ) → Text → List Text → Result UptimeError ℕ
unfolding int_of clock
of_parts wide value (a ∷ b ∷ c ∷ []) = do
  hours ← or_not_int a (int_of wide a)
  minutes ← or_not_int b (int_of wide b)
  seconds ← or_not_int c (int_of wide c)
  clock value hours minutes seconds
of_parts wide value _ = err (invalid_uptime value)

unfoldable pub parse_uptime : (ℕ → Option ℕ) → Text → Result UptimeError ℕ
unfolding split_on of_parts
parse_uptime wide value = of_parts wide value (split_on b':' value)

-- The uptime is the number of seconds of a clock with minutes and seconds below 60.
pub record IsClock (wide : ℕ → Option ℕ) (value : Text) (n : ℕ) : Type 0 where
  pub hours : Text
  pub minutes : Text
  pub seconds : Text
  pub parts : split_on b':' value ≡ hours ∷ minutes ∷ seconds ∷ []
  pub hours_value : int_of wide hours ≡ some (pos (n / 3600))
  pub minutes_value : int_of wide minutes ≡ some (pos (n / 60 % 60))
  pub seconds_value : int_of wide seconds ≡ some (pos (n % 60))

abbrev Shows : ℤ → ℤ → ℤ → ℕ → Type 0
Shows hours minutes seconds n =
    (hours ≡ pos (n / 3600)) × (minutes ≡ pos (n / 60 % 60)) × (seconds ≡ pos (n % 60))

parts_of :
    (h m s : ℕ)
    → m < 60
    → s < 60
    → (h ≡ (h * 3600 + m * 60 + s) / 3600)
      × (m ≡ (h * 3600 + m * 60 + s) / 60 % 60)
      × (s ≡ (h * 3600 + m * 60 + s) % 60)
parts_of h m s hm hs = omega (arith, hm, hs)

clock-Shows :
    (value : Text) (hours minutes seconds : ℤ)
    → Returns (Shows hours minutes seconds) (clock value hours minutes seconds)
unfolding clock
clock-Shows value (pos h) (pos m) (pos s) =
    if-cases (Returns _) (ltb m 60 && ltb s 60)
      (λ small.
        let (hm, hs) = and-eq-true _ _ small in
        let (eh, em, es) = parts_of h m s (ltb→lt m 60 hm) (ltb→lt s 60 hs) in
        Returns-ok _ (ap pos eh, ap pos em, ap pos es))
      λ large. Returns-err _
clock-Shows value (negsuc h) m s = Returns-err _
clock-Shows value (pos h) (negsuc m) s = Returns-err _
clock-Shows value (pos h) (pos m) (negsuc s) = Returns-err _

or_not_int-Returns : (part : Text) (o : Option ℤ) → Returns (λ n. o ≡ some n) (or_not_int part o)
or_not_int-Returns part none = Returns-err _
or_not_int-Returns part (some n) = Returns-ok _ refl

of_parts-Returns :
    (wide : ℕ → Option ℕ) (value : Text) (parts : List Text)
    → split_on b':' value ≡ parts
    → Returns (IsClock wide value) (of_parts wide value parts)
unfolding of_parts
of_parts-Returns wide value (a ∷ b ∷ c ∷ []) e =
    Returns-bind _ _ (or_not_int-Returns a _) λ hours ha.
      Returns-bind _ _ (or_not_int-Returns b _) λ minutes hb.
        Returns-bind _ _ (or_not_int-Returns c _) λ seconds hc.
          Returns-mono (Shows hours minutes seconds) (IsClock wide value)
            (λ n (eh, em, es). record {
              hours = a;
              minutes = b;
              seconds = c;
              parts = e;
              hours_value = ha ∙ ap some eh;
              minutes_value = hb ∙ ap some em;
              seconds_value = hc ∙ ap some es;
            })
            (clock-Shows value hours minutes seconds)
of_parts-Returns wide value [] e = Returns-err _
of_parts-Returns wide value (a ∷ []) e = Returns-err _
of_parts-Returns wide value (a ∷ b ∷ []) e = Returns-err _
of_parts-Returns wide value (a ∷ b ∷ c ∷ d ∷ rest) e = Returns-err _

-- An uptime that is read has three parts, and they are its hours, its minutes below 60 and its seconds
-- below 60: the number of seconds and the three numbers determine each other.
pub parse_uptime-IsClock :
    (wide : ℕ → Option ℕ) (value : Text) → Returns (IsClock wide value) (parse_uptime wide value)
unfolding parse_uptime
parse_uptime-IsClock wide value = of_parts-Returns wide value (split_on b':' value) refl
