-- ===== src/Python/Text/Clean.antt =====
-- Texts that `_require_text` leaves as they are: stripped, not empty, and of bounded length.
use etroute.Prelude.{ℕ, ◌≡◌, false, length, ltb, ◌==◌}
use etroute.Python.Text.{Text, strip}
use etroute.Python.Text.Strip.{strip_idem}

pub record IsClean (maximum : ℕ) (t : Text) : Type 0 where
  pub stripped : strip t ≡ t
  pub not_empty : (length t == 0) ≡ false
  pub bounded : ltb maximum (length t) ≡ false

pub strip-IsClean :
    (maximum : ℕ) (s : Text)
    → (length (strip s) == 0) ≡ false
    → ltb maximum (length (strip s)) ≡ false
    → IsClean maximum (strip s)
strip-IsClean maximum s h k = record { stripped = strip_idem s; not_empty = h; bounded = k }
