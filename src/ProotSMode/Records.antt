-- ===== src/ProotSMode/Records.antt =====
-- tools/verify_proot_s_mode.py: the records of binds in the diagnostics of PRoot.
use etroute.Prelude.{
  ℕ, ◌+◌, ◌≡◌, refl, Bool, true, ◌&&◌, ◌||◌, Option, none, some, List, [], ◌∷◌, ◌==◌, if◌then◌else◌,
  leb,
}
use etroute.Python.Text.{Text, codes, text_eq, strip, strip_left, is_space}
use etroute.Python.Lines.{splitlines, partition}

-- `os.path`: `expanduser`, `expandvars`, `abspath` and `normpath`.
pub record Paths : Type 0 where
  pub expanduser : Text → Text
  pub expandvars : Text → Text
  pub abspath : Text → Text
  pub normpath : Text → Text

pub record BindRecord : Type 0 where
  pub raw : Text
  pub host : Text
  pub guest : Option Text

-- A lower-case letter, or another character, of a pattern with IGNORECASE; `i` also stands for the two
-- Turkish letters, `s` for the long one and `k` for the sign of Kelvin.
abbrev same_letter : ℕ → ℕ → Bool
same_letter d c =
    c == d
    || (leb b'a' d && leb d b'z' && c + 32 == d)
    || (d == b'i' && (c == 0x130 || c == 0x131))
    || (d == b's' && c == 0x17F)
    || (d == b'k' && c == 0x212A)

-- The text behind a word of a pattern, if the text begins with it.
unfoldable pub behind_word : Text → Text → Option Text
behind_word [] s = some s
behind_word (d ∷ word) [] = none
behind_word (d ∷ word) (c ∷ s) =
    let rest = behind_word word s in if same_letter d c then rest else none

-- `\s+`
unfoldable pub behind_spaces : Text → Option Text
unfolding is_space strip_left
behind_spaces [] = none
behind_spaces (c ∷ s) = if is_space c then some (strip_left s) else none

abbrev then_spaces : Option Text → Option Text
then_spaces none = none
then_spaces (some s) = behind_spaces s

abbrev then_word : Text → Option Text → Option Text
then_word word none = none
then_word word (some s) = behind_word word s

abbrev behind_equals : Option Text → Option Text
behind_equals none = none
behind_equals (some s) = elim (strip_left s) [
  | [] ↦ none
  | c ∷ t ↦ if c == b'=' then some t else none
]

abbrev binding_in : Option Text → Option Text
binding_in none = none
binding_in (some []) = none
binding_in (some (c ∷ s)) = some (strip (c ∷ s))

-- `BIND_LINE_RE`: `^\s*proot\s+info:\s+binding\s*=\s*(?P<binding>.+?)\s*$` on one line, the group
-- without the spaces around it.
unfoldable pub match_binding : Text → Option Text
unfolding behind_word behind_spaces strip strip_left
match_binding line = binding_in (
    behind_equals (
      then_word (codes "binding") (
        then_spaces (
          then_word (codes "info:")
            (then_spaces (behind_word (codes "proot") (strip_left line)))))))

abbrev pub or_none : Text → Option Text
or_none [] = none
or_none (c ∷ s) = some (c ∷ s)

abbrev is_root_guest : Option Text → Bool
is_root_guest none = true
is_root_guest (some guest) = text_eq guest [] || text_eq guest (codes "/")

module _ (p : Paths) where
  unfoldable pub normalize_path : Text → Text
  normalize_path value = p.normpath (p.abspath (p.expandvars (p.expanduser value)))

  -- `split_binding`, of a text without spaces around it
  unfoldable pub split_binding : Text → BindRecord
  unfolding normalize_path strip partition
  split_binding value = elim (partition (codes ":") value) [
    | none ↦ record { raw = value; host = normalize_path value; guest = none }
    | some (host, guest) ↦ record {
      raw = value;
      host = normalize_path host;
      guest = or_none (strip guest);
    }
  ]

  unfoldable pub records_in : List Text → List BindRecord
  unfolding match_binding split_binding
  records_in [] = []
  records_in (line ∷ lines) = elim (match_binding line) [
    | none ↦ records_in lines
    | some binding ↦ split_binding binding ∷ records_in lines
  ]

  unfoldable pub parse_bind_records : Text → List BindRecord
  unfolding splitlines records_in
  parse_bind_records diagnostics = records_in (splitlines diagnostics)

  unfoldable pub is_rootfs_record : Text → BindRecord → Bool
  unfolding normalize_path text_eq
  is_rootfs_record rootfs r = text_eq r.host (normalize_path rootfs) && is_root_guest r.guest

abbrev plain : Paths
plain = record { expanduser = λ s. s; expandvars = λ s. s; abspath = λ s. s; normpath = λ s. s }

parses :
    parse_bind_records plain (codes "x\n  PRoot INFO: binding = /a:/b \nproot info: binding=/dev\n")
    ≡ record { raw = codes "/a:/b"; host = codes "/a"; guest = some (codes "/b") }
      ∷ record { raw = codes "/dev"; host = codes "/dev"; guest = none }
      ∷ []
unfolding parse_bind_records is_space
parses = refl
