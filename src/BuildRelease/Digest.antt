-- ===== src/BuildRelease/Digest.antt =====
-- tools/build_release.py: `tree_digest` hashes names and contents, each behind its length.
pub mod Laws
use etroute.Prelude.{
  ℕ, zero, suc, ◌+◌, ◌*◌, ◌/◌, ◌%◌, ◌^◌, ◌<◌, ◌≡◌, refl, ◌≢◌, Bool, true, false, not, Option, none,
  some, List, [], ◌∷◌, ◌++◌, length, Result, ok, err, ◌>>=◌, ◌>>◌, raise_if, ltb, if◌then◌else◌,
  arith, length-append, ap, sym, ltb→lt, not-false, Returns, ◌∙◌,
}

abbrev pub Bytes : Type 0
Bytes = List ℕ

-- A file of the tree: its name and its content, as bytes.
pub record File : Type 0 where
  pub name : Bytes
  pub data_bytes : Bytes

pub data Overflow : Type 0 where
  overflow_error : Overflow

-- `n.to_bytes(width, "big")` for a number below 256 ^ width
unfoldable pub big_endian : ℕ → ℕ → Bytes
big_endian zero n = []
big_endian (suc width) n = big_endian width (n / 256) ++ (n % 256 ∷ [])

unfoldable pub to_bytes : ℕ → ℕ → Result Overflow Bytes
unfolding big_endian
to_bytes width n = do raise_if (not (ltb n (256 ^ width))) overflow_error; ok (big_endian width n)

-- All that `digest.update` gets, in its order.
unfoldable pub framed : List File → Result Overflow Bytes
unfolding to_bytes
framed [] = ok []
framed (file ∷ files) = do
  name_size ← to_bytes 4 (length file.name)
  data_size ← to_bytes 8 (length file.data_bytes)
  rest ← framed files
  ok (name_size ++ (file.name ++ (data_size ++ (file.data_bytes ++ rest))))

-- `tree_digest`; `sha256` is the hexadecimal digest of the standard library.
unfoldable pub tree_digest : {A : Type 0} → (Bytes → A) → List File → Result Overflow A
unfolding framed
tree_digest sha256 files = do bytes ← framed files; ok (sha256 bytes)
