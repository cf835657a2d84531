-- ===== src/BuildRelease/Digest/Laws.antt =====
-- tools/build_release.py: the stream that `tree_digest` hashes determines the files.
use etroute.Prelude.{
  ℕ, zero, suc, ◌/◌, ◌%◌, ◌^◌, ◌<◌, ◌≡◌, refl, ◌≢◌, List, [], ◌∷◌, ◌++◌, length, ok, arith,
  length-append, ap, sym, ltb→lt, not-false, Returns, Returns-bind, Returns-raise_if, Returns-ok,
  Returns-self, ◌∙◌,
}
use etroute.BuildRelease.Digest.{Bytes, File, big_endian, to_bytes, framed}

length-big_endian : (width n : ℕ) → length (big_endian width n) ≡ width
unfolding big_endian
length-big_endian zero n = refl
length-big_endian (suc width) n =
    length-append (big_endian width (n / 256)) (n % 256 ∷ [])
    ∙ omega (arith, length-big_endian width (n / 256))

append-inj : (xs ys v w : Bytes) → length xs ≡ length ys → xs ++ v ≡ ys ++ w → (xs ≡ ys) × (v ≡ w)
append-inj [] [] v w h e = (refl, e)
append-inj [] (y ∷ ys) v w h e = absurd (omega (arith, h))
append-inj (x ∷ xs) [] v w h e = absurd (omega (arith, h))
append-inj (x ∷ xs) (y ∷ ys) v w h e =
    let (tails, rests) = append-inj xs ys v w (omega (arith, h)) (tail_eq e) in
    (cc (head_eq e, tails), rests)
  where
    tail_eq : x ∷ (xs ++ v) ≡ y ∷ (ys ++ w) → xs ++ v ≡ ys ++ w
    tail_eq e = cc

    head_eq : x ∷ (xs ++ v) ≡ y ∷ (ys ++ w) → x ≡ y
    head_eq e = cc

quotient_lt : (width n : ℕ) → n < 256 ^ suc width → n / 256 < 256 ^ width
quotient_lt width n h = omega (arith, h)

big_endian-inj :
    (width m n : ℕ)
    → m < 256 ^ width
    → n < 256 ^ width
    → big_endian width m ≡ big_endian width n
    → m ≡ n
unfolding big_endian
big_endian-inj zero m n hm hn e = omega (arith, hm, hn)
big_endian-inj (suc width) m n hm hn e =
    let (high, low) =
      append-inj (big_endian width (m / 256)) (big_endian width (n / 256)) (m % 256 ∷ [])
        (n % 256 ∷ []) (length-big_endian width (m / 256) ∙ sym (length-big_endian width (n / 256)))
        e in
    let same =
      big_endian-inj width (m / 256) (n / 256) (quotient_lt width m hm) (quotient_lt width n hn)
        high in
    omega (arith, same, single (m % 256) (n % 256) low)
  where
    single : (a b : ℕ) → ◌≡◌ {A = Bytes} (a ∷ []) (b ∷ []) → a ≡ b
    single a b e = cc

to_bytes-Returns :
    (width n : ℕ) → Returns (λ b. (b ≡ big_endian width n) × (n < 256 ^ width)) (to_bytes width n)
unfolding to_bytes
to_bytes-Returns width n =
    Returns-raise_if _ _ _ λ small. Returns-ok _ (refl, ltb→lt n (256 ^ width) (not-false _ small))

-- The bytes of a file in front of the rest.
abbrev frame : File → Bytes → Bytes
frame f rest =
    big_endian 4 (length f.name)
    ++ (f.name ++ (big_endian 8 (length f.data_bytes) ++ (f.data_bytes ++ rest)))

record IsFramed (f : File) (fs : List File) (bytes : Bytes) : Type 0 where
  rest : Bytes
  others : framed fs ≡ ok rest
  name_small : length f.name < 256 ^ 4
  data_small : length f.data_bytes < 256 ^ 8
  bytes_eq : bytes ≡ frame f rest

framed-Returns : (f : File) (fs : List File) → Returns (IsFramed f fs) (framed (f ∷ fs))
unfolding framed
framed-Returns f fs = Returns-bind _ _ (to_bytes-Returns 4 (length f.name)) λ a (ea, sa).
    Returns-bind _ _ (to_bytes-Returns 8 (length f.data_bytes)) λ b (eb, sb).
      Returns-bind _ _ Returns-self λ rest others. Returns-ok _ (record {
        rest = rest;
        others = others;
        name_small = sa;
        data_small = sb;
        bytes_eq = cc (ea, eb);
      })

-- The text in front of the rest, behind its length.
block-inj :
    (width : ℕ) (xs ys v w : Bytes)
    → length xs < 256 ^ width
    → length ys < 256 ^ width
    → big_endian width (length xs) ++ (xs ++ v) ≡ big_endian width (length ys) ++ (ys ++ w)
    → (xs ≡ ys) × (v ≡ w)
block-inj width xs ys v w hx hy e =
    let (sizes, rests) =
      append-inj (big_endian width (length xs)) (big_endian width (length ys)) (xs ++ v) (ys ++ w)
        (length-big_endian width (length xs) ∙ sym (length-big_endian width (length ys))) e in
    append-inj xs ys v w (big_endian-inj width (length xs) (length ys) hx hy sizes) rests

frame-inj :
    (f g : File) (v w : Bytes)
    → length f.name < 256 ^ 4
    → length g.name < 256 ^ 4
    → length f.data_bytes < 256 ^ 8
    → length g.data_bytes < 256 ^ 8
    → frame f v ≡ frame g w
    → (f ≡ g) × (v ≡ w)
frame-inj f g v w nf ng df dg e =
    let (names, rests) = block-inj 4 f.name g.name _ _ nf ng e in
    let (datas, tails) = block-inj 8 f.data_bytes g.data_bytes v w df dg rests in
    (same_file f g names datas, tails)
  where
    same_file : (f g : File) → f.name ≡ g.name → f.data_bytes ≡ g.data_bytes → f ≡ g
    same_file f g a b = cc

frame-ne-nil : (f : File) (v : Bytes) → [] ≢ frame f v
frame-ne-nil f v e = omega (
  arith,
  ap length e,
  length-append (big_endian 4 (length f.name))
      (f.name ++ (big_endian 8 (length f.data_bytes) ++ (f.data_bytes ++ v))),
  length-big_endian 4 (length f.name),
)

framed-nil : (bytes : Bytes) → framed [] ≡ ok bytes → [] ≡ bytes
unfolding framed
framed-nil bytes e = cc

one_empty :
    (f : File) (fs : List File) (bytes : Bytes)
    → framed [] ≡ ok bytes
    → framed (f ∷ fs) ≡ ok bytes
    → ⊥
one_empty f fs bytes e h =
    let a = (framed-Returns f fs).at bytes h in
    frame-ne-nil f a.rest (framed-nil bytes e ∙ a.bytes_eq)

-- The stream of bytes that is hashed determines the list of files, with their names and contents: two
-- trees have the same stream only if they have the same files in the same order.
pub framed-inj :
    (fs gs : List File) (bytes : Bytes) → framed fs ≡ ok bytes → framed gs ≡ ok bytes → fs ≡ gs
framed-inj [] [] bytes e h = refl
framed-inj [] (g ∷ gs) bytes e h = absurd (one_empty g gs bytes e h)
framed-inj (f ∷ fs) [] bytes e h = absurd (one_empty f fs bytes h e)
framed-inj (f ∷ fs) (g ∷ gs) bytes e h =
    let a = (framed-Returns f fs).at bytes e in
    let b = (framed-Returns g gs).at bytes h in
    let (same, rests) =
      frame-inj f g a.rest b.rest a.name_small b.name_small a.data_small b.data_small
        (sym a.bytes_eq ∙ b.bytes_eq) in
    cc (same, framed-inj fs gs b.rest (cc (a.others, rests)) b.others)
