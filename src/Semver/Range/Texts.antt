-- ===== src/Semver/Range/Texts.antt =====
-- crates/wyrd-semver/src/range.rs: the bounds of a range expression from its text.
use wyrd_core.Prelude.{
  ℕ, ◌≤◌, ◌<◌, ◌≡◌, refl, ◌≢◌, false, List, [], ◌∷◌, ◌++◌, arith, ok, collect, All, All-append,
  All-map, inl, subst, map, ◌⊎◌,
}
use wyrd_core.Prelude.Text.{Text, codes, is_whitespace, trim, split, show_u64, u64_limit}
use wyrd_core.Prelude.Text.Decimal.{
  IsDigit, Digits, show_u64-Digits, show_u64-ne-nil, parse_u64-show_u64,
}
use wyrd_core.Prelude.Text.Scan.{
  Lacks, text_eq-ne, contains-Lacks, trim-NoSpace, split-Lacks, split-append,
}
use wyrd_core.Semver.Range.{
  Prefix, num, caret, tilde, exact, bare, parse_segment, bounds_of_prefix, bounds_of_body,
  bounds_of_segments, bounds_from_str, strip_prefix,
}
use wyrd_core.Semver.Range.Bounds.{Numbers, one, two, three, numbers, segments_of}

abbrev pub dotted : Numbers → Text
dotted (one x) = show_u64 x
dotted (two x y) = show_u64 x ++ b'.' ∷ show_u64 y
dotted (three x y z) = show_u64 x ++ (b'.' ∷ (show_u64 y ++ b'.' ∷ show_u64 z))

abbrev pub prefix_text : Prefix → Text
prefix_text caret = codes "^"
prefix_text tilde = codes "~"
prefix_text exact = codes "="
prefix_text bare = []

-- A digit or a dot.
abbrev pub IsPlain : ℕ → Type 0
IsPlain c = (b'.' ≤ c) × (c ≤ b'9')

Digits-Lacks : (d : ℕ) (t : Text) → d < b'0' → Digits t → Lacks d t
Digits-Lacks d t h k = All-map t (λ (c : ℕ) (p : IsDigit c). omega arith) k

Digits-IsPlain : (t : Text) → Digits t → All IsPlain t
Digits-IsPlain t k = All-map t (λ (c : ℕ) (p : IsDigit c). omega arith) k

pub dotted-IsPlain : (ns : Numbers) → All IsPlain (dotted ns)
dotted-IsPlain (one x) = Digits-IsPlain _ (show_u64-Digits x)
dotted-IsPlain (two x y) =
    All-append IsPlain (show_u64 x) _ (Digits-IsPlain _ (show_u64-Digits x))
      (omega arith, Digits-IsPlain _ (show_u64-Digits y))
dotted-IsPlain (three x y z) =
    All-append IsPlain (show_u64 x) _ (Digits-IsPlain _ (show_u64-Digits x)) (
      omega arith,
      All-append IsPlain (show_u64 y) _ (Digits-IsPlain _ (show_u64-Digits y))
          (omega arith, Digits-IsPlain _ (show_u64-Digits z)),
    )

append-ne-nil : (s t : Text) → s ≢ [] → s ++ t ≢ []
append-ne-nil [] t h e = h refl
append-ne-nil (c ∷ s) t h e = cc

pub dotted-ne-nil : (ns : Numbers) → dotted ns ≢ []
dotted-ne-nil (one x) = show_u64-ne-nil x
dotted-ne-nil (two x y) = append-ne-nil (show_u64 x) _ (show_u64-ne-nil x)
dotted-ne-nil (three x y z) = append-ne-nil (show_u64 x) _ (show_u64-ne-nil x)

show_u64-ne-star : (n : ℕ) → show_u64 n ≢ codes "*"
show_u64-ne-star n e =
    let digits : Digits (codes "*") = subst Digits e (show_u64-Digits n) in omega arith

segment-show_u64 :
    (S : Type 0) (n : ℕ) → n < u64_limit → parse_segment {S = S} (show_u64 n) ≡ ok (num n)
unfolding parse_segment
segment-show_u64 S n h =
    rw (text_eq-ne (show_u64 n) (codes "*") (show_u64-ne-star n), parse_u64-show_u64 n h)

show_u64-Lacks_dot : (n : ℕ) → Lacks b'.' (show_u64 n)
show_u64-Lacks_dot n = Digits-Lacks b'.' (show_u64 n) (omega arith) (show_u64-Digits n)

abbrev pub shown : Numbers → List Text
shown ns = map show_u64 (numbers ns)

pub split-dotted : (ns : Numbers) → split b'.' (dotted ns) ≡ shown ns
split-dotted (one x) = split-Lacks b'.' _ (show_u64-Lacks_dot x)
split-dotted (two x y) = rw (
  split-append b'.' (show_u64 x) (show_u64 y) (show_u64-Lacks_dot x),
  split-Lacks b'.' (show_u64 y) (show_u64-Lacks_dot y),
)
split-dotted (three x y z) = rw (
  split-append b'.' (show_u64 x) (show_u64 y ++ b'.' ∷ show_u64 z) (show_u64-Lacks_dot x),
  split-append b'.' (show_u64 y) (show_u64 z) (show_u64-Lacks_dot y),
  split-Lacks b'.' (show_u64 z) (show_u64-Lacks_dot z),
)

collect-shown :
    (S : Type 0) (xs : List ℕ)
    → All (λ n. n < u64_limit) xs
    → collect (parse_segment {S = S}) (map show_u64 xs) ≡ ok (map num xs)
collect-shown S [] h = refl
collect-shown S (x ∷ xs) (h, k) = rw (segment-show_u64 S x h, collect-shown S xs k)

pub plain-Lacks : (d : ℕ) (t : Text) → (d < b'.') ⊎ (b'9' < d) → All IsPlain t → Lacks d t
plain-Lacks d t h k = All-map t (λ (c : ℕ) (p : IsPlain c). omega arith) k

bounds_of_segments-Numbers :
    (S : Type 0) (p : Prefix) (ns : Numbers)
    → bounds_of_segments {S = S} p (segments_of ns) ≡ bounds_of_prefix p (segments_of ns)
unfolding bounds_of_segments
bounds_of_segments-Numbers S p (one x) = refl
bounds_of_segments-Numbers S p (two x y) = refl
bounds_of_segments-Numbers S p (three x y z) = refl

bounds_of_body-dotted :
    (S : Type 0) (p : Prefix) (ns : Numbers)
    → All (λ n. n < u64_limit) (numbers ns)
    → bounds_of_body {S = S} p (dotted ns) ≡ bounds_of_prefix p (segments_of ns)
unfolding bounds_of_body
bounds_of_body-dotted S p ns h =
    rw
      (
        text_eq-ne (dotted ns) [] (dotted-ne-nil ns),
        contains-Lacks b'-' (dotted ns) (plain-Lacks b'-' _ (omega arith) (dotted-IsPlain ns)),
        contains-Lacks b'+' (dotted ns) (plain-Lacks b'+' _ (omega arith) (dotted-IsPlain ns)),
        split-dotted ns,
        collect-shown S (numbers ns) h,
      )
      (bounds_of_segments-Numbers S p ns)

-- A character of a version expression: a prefix, a digit or a dot.
abbrev pub IsVersionChar : ℕ → Type 0
IsVersionChar c = IsPlain c ⊎ ((c ≡ b'^') ⊎ ((c ≡ b'~') ⊎ (c ≡ b'=')))

version_char_NoSpace : (c : ℕ) → IsVersionChar c → is_whitespace c ≡ false
unfolding is_whitespace
version_char_NoSpace c h = ground arith

prefix_chars : (p : Prefix) → All IsVersionChar (prefix_text p)
prefix_chars caret = omega arith
prefix_chars tilde = omega arith
prefix_chars exact = omega arith
prefix_chars bare = tt

raw_chars : (p : Prefix) (ns : Numbers) → All IsVersionChar (prefix_text p ++ dotted ns)
raw_chars p ns =
    All-append IsVersionChar (prefix_text p) (dotted ns) (prefix_chars p)
      (All-map (dotted ns) (λ (c : ℕ) (h : IsPlain c). inl h) (dotted-IsPlain ns))

strip_prefix-plain : (t : Text) → All IsPlain t → strip_prefix t ≡ (bare, t)
unfolding strip_prefix
strip_prefix-plain [] h = refl
strip_prefix-plain (c ∷ t) (h, _) = ground arith

pub raw-ne-nil : (p : Prefix) (ns : Numbers) → prefix_text p ++ dotted ns ≢ []
raw-ne-nil bare ns = dotted-ne-nil ns
raw-ne-nil caret ns = λ e. cc
raw-ne-nil tilde ns = λ e. cc
raw-ne-nil exact ns = λ e. cc

pub raw-ne-star : (p : Prefix) (ns : Numbers) → prefix_text p ++ dotted ns ≢ codes "*"
raw-ne-star p ns e =
    let chars : All IsVersionChar (codes "*") = subst (All IsVersionChar) e (raw_chars p ns) in
    omega arith

pub raw-Lacks_comma : (p : Prefix) (ns : Numbers) → Lacks b',' (prefix_text p ++ dotted ns)
raw-Lacks_comma p ns = All-map _ (λ (c : ℕ) (h : IsVersionChar c). omega arith) (raw_chars p ns)

pub trim-raw :
    (p : Prefix) (ns : Numbers) → trim (prefix_text p ++ dotted ns) ≡ prefix_text p ++ dotted ns
trim-raw p ns = trim-NoSpace _ (All-map _ version_char_NoSpace (raw_chars p ns))

strip_prefix-raw :
    (p : Prefix) (ns : Numbers) → strip_prefix (prefix_text p ++ dotted ns) ≡ (p, dotted ns)
unfolding strip_prefix
strip_prefix-raw caret ns = refl
strip_prefix-raw tilde ns = refl
strip_prefix-raw exact ns = refl
strip_prefix-raw bare ns = strip_prefix-plain (dotted ns) (dotted-IsPlain ns)

-- The text of one to three `u64`s, with or without a prefix, has the bounds of its numbers.
pub bounds_from_str-dotted :
    (S : Type 0) (p : Prefix) (ns : Numbers)
    → All (λ n. n < u64_limit) (numbers ns)
    → bounds_from_str {S = S} (prefix_text p ++ dotted ns) ≡ bounds_of_prefix p (segments_of ns)
unfolding bounds_from_str
bounds_from_str-dotted S p ns h =
    rw
      (
        trim-raw p ns,
        text_eq-ne _ [] (raw-ne-nil p ns),
        text_eq-ne _ (codes "*") (raw-ne-star p ns),
        contains-Lacks b',' _ (raw-Lacks_comma p ns),
        strip_prefix-raw p ns,
      )
      (bounds_of_body-dotted S p ns h)
