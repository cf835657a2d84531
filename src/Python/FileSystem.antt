-- ===== src/Python/FileSystem.antt =====
-- The file system that `pathlib.Path` asks, and what it documents. A path is its text.
use etroute.Prelude.{◌≡◌, Bool, true, ◌++◌, ◌∷◌, if◌then◌else◌}
use etroute.Python.Text.{Text, codes, text_eq}
use etroute.Python.PurePath.{slash, parse, is_absolute}

pub record FileSystem : Type 0 where
  -- `Path(text).expanduser().resolve()`
  pub resolve : Text → Text
  pub exists : Text → Bool
  pub is_dir : Text → Bool
  pub is_file : Text → Bool

-- A resolved path is absolute, and resolving it again changes nothing.
pub record IsLawful (fs : FileSystem) : Type 0 where
  pub resolve_idem : (p : Text) → fs.resolve (fs.resolve p) ≡ fs.resolve p
  pub resolve-absolute : (p : Text) → is_absolute (parse (fs.resolve p)) ≡ true

-- `path / name` for a resolved path
unfoldable pub child : Text → Text → Text
unfolding text_eq
child p name = if text_eq p (codes "/") then p ++ name else p ++ (slash ∷ name)
