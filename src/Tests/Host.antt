-- ===== src/Tests/Host.antt =====
-- A concrete interpreter and a concrete file system for the tests.
use etroute.Prelude.{ℕ, refl, true, Option, none, [], ◌∷◌}
use etroute.Python.Text.{Text, codes, starts_with}
use etroute.Python.Value.{Value, pos}
use etroute.Python.Runtime.{Runtime}
use etroute.Python.FileSystem.{FileSystem, IsLawful}
use etroute.Python.PurePath.{parse, is_absolute}

-- Times are ISO forms if they begin with `20`; a JSON text is read by the given function.
abbrev pub host : (Text → Option Value) → (Text → Option (Value × ℕ)) → Runtime
host loads raw_decode = record {
  repr = λ v. [];
  is_iso = λ t. starts_with t (codes "20");
  moment = λ t. record { wall = pos 1_000_000; offset = none };
  lower_wide = λ before c behind. c ∷ [];
  upper_wide = λ c. c ∷ [];
  loads = loads;
  raw_decode = raw_decode;
}

abbrev pub plain : Runtime
plain = host (λ t. none) (λ t. none)

-- A file system whose paths all resolve to `/guest`, where everything is.
abbrev pub disk : FileSystem
disk = record {
  resolve = λ p. codes "/guest";
  exists = λ p. true;
  is_dir = λ p. true;
  is_file = λ p. true;
}

pub disk-IsLawful : IsLawful disk
unfolding is_absolute parse
disk-IsLawful = record { resolve_idem = λ p. refl; resolve-absolute = λ p. refl }
