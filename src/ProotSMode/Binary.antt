-- ===== src/ProotSMode/Binary.antt =====
-- tools/verify_proot_s_mode.py: the PRoot executable, its version and its pins.
use etroute.Prelude.{
  Bool, not, ◌&&◌, Option, none, some, List, [], ◌∷◌, ◌++◌, ok, err, ◌>>=◌, ◌>>◌, raise_if,
  if◌then◌else◌,
}
use etroute.Python.Text.{Text, codes, strip, lower, text_eq}
use etroute.Python.Value.{ℤ}
use etroute.EtRoute.Names.{is_sha256}
use etroute.ProotSMode.AuditHost.{
  Checked, Ran, Host, is_zero_code, is_empty, joined, proot_not_found, proot_not_a_file, bad_sha256,
  invalid_regex, wrong_sha256, wrong_version, command_timed_out, command_not_started,
  no_version_output, refused, completed, timed_out, not_started,
}

module _ (h : Host) where
  abbrev of_path : Text → Checked Text
  of_path path = do raise_if (not (h.is_file path)) (refused 2 proot_not_a_file); ok path

  abbrev pub of_found : Option Text → Checked Text
  of_found none = err (refused 2 proot_not_found)
  of_found (some found) = of_path (h.resolve found)

  unfoldable pub resolve_binary : Text → Checked Text
  resolve_binary binary = of_found (h.which binary)

  abbrev pub of_run : List Text → Ran → Checked (ℤ × Text × Text)
  of_run argv timed_out = err (refused 4 (command_timed_out argv))
  of_run argv not_started = err (refused 4 (command_not_started argv))
  of_run argv (completed code out errors) = ok (code, out, errors)

  unfoldable pub run_capture : List Text → Checked (ℤ × Text × Text)
  run_capture argv = of_run argv (h.run argv)

  -- `" ".join(argv)` and `"\n\n".join(captured)`
  abbrev join_words : List Text → Text
  join_words [] = []
  join_words (w ∷ []) = w
  join_words (w ∷ v ∷ ws) = w ++ (32 ∷ join_words (v ∷ ws))

  abbrev join_captured : List Text → Text
  join_captured [] = []
  join_captured (t ∷ []) = t
  join_captured (t ∷ u ∷ ts) = t ++ (10 ∷ 10 ∷ join_captured (u ∷ ts))

  abbrev pub if_captured : List Text → Text → List Text
  if_captured argv [] = []
  if_captured argv (c ∷ text) = (codes "$ " ++ (join_words argv ++ (10 ∷ c ∷ text))) ∷ []

  -- The loop over the attempts, with what was captured so far.
  unfoldable pub attempt : List Text → List (List Text) → Checked Text
  unfolding run_capture strip
  attempt captured [] =
      if is_empty captured then err (refused 5 no_version_output) else ok (join_captured captured)
  attempt captured (argv ∷ rest) = do
    (code, out, errors) ← run_capture argv
    let text = strip (joined out errors)
    let later = attempt (captured ++ if_captured argv text) rest
    if is_zero_code code && not (is_empty text) then ok text else later

  unfoldable pub get_version_output : Text → Checked Text
  unfolding attempt
  get_version_output binary = attempt [] (
      (binary ∷ codes "--version" ∷ [])
      ∷ (binary ∷ codes "-V" ∷ [])
      ∷ (binary ∷ codes "--help" ∷ [])
      ∷ [])

  -- `--expected-sha256`: the pin is checked only if the text is not empty.
  unfoldable pub check_sha256 : Text → Option Text → Checked (Option Text)
  unfolding strip lower is_sha256 text_eq
  check_sha256 actual none = ok none
  check_sha256 actual (some value) = do
    let expected = lower h.lower_wide (strip value)
    raise_if (not (is_sha256 expected)) (refused 2 bad_sha256)
    raise_if (not (text_eq actual expected)) (refused 3 (wrong_sha256 expected))
    ok (some expected)

  -- `detected_version or version_output`
  abbrev or_output : Option Text → Text → Text
  or_output none output = output
  or_output (some []) output = output
  or_output (some (c ∷ version)) output = c ∷ version

  abbrev pub compiled : Option (Text → Bool) → Checked (Text → Bool)
  compiled none = err (refused 2 invalid_regex)
  compiled (some search) = ok search

  unfoldable pub check_version : Text → Option Text → Option Text → Checked (Unit {0})
  check_version output detected none = ok tt
  check_version output detected (some regex) = do
    search ← compiled (h.compile regex)
    raise_if (not (search (or_output detected output))) (refused 3 (wrong_version regex))
    ok tt
