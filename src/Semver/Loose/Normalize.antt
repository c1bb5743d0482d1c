-- ===== src/Semver/Loose/Normalize.antt =====
-- crates/wyrd-semver/src/range.rs: what `normalize_loose` makes of the short forms, and the bounds
-- of the result.
use wyrd_core.Prelude.{◌≡◌, refl, ◌≢◌, false, subst, if◌then◌else◌, [], ◌∷◌, ◌++◌, arith, ok, All}
use wyrd_core.Prelude.Text.{Text, codes, text_eq, contains, show_u64}
use wyrd_core.Prelude.Text.Scan.{contains-Lacks, text_eq-ne}
use wyrd_core.Semver.Range.{Prefix, caret, tilde, exact, bare}
use wyrd_core.Semver.Range.Bounds.{Numbers, one, two, three}
use wyrd_core.Semver.Range.Texts.{
  shown, dotted, prefix_text, dotted-IsPlain, dotted-ne-nil, raw-ne-nil, raw-ne-star,
  raw-Lacks_comma, trim-raw, plain-Lacks, split-dotted, IsPlain,
}
use wyrd_core.Semver.Loose.{
  expand_prefixed, expand_bare, is_pass_through, split_prefix, normalize_body, normalize_loose,
}

-- The range that an input stands for once it is normalised.
abbrev pub normal_prefix : Prefix → Numbers → Prefix
normal_prefix bare (one x) = caret
normal_prefix bare (two x y) = tilde
normal_prefix bare (three x y z) = exact
normal_prefix p ns = p

abbrev pub pad_numbers : Numbers → Numbers
pad_numbers (one x) = three x 0 0
pad_numbers (two x y) = three x y 0
pad_numbers (three x y z) = three x y z

abbrev pub normal_numbers : Prefix → Numbers → Numbers
normal_numbers caret ns = pad_numbers ns
normal_numbers tilde ns = pad_numbers ns
normal_numbers exact ns = ns
normal_numbers bare ns = ns

abbrev pub raw : Prefix → Numbers → Text
raw p ns = prefix_text p ++ dotted ns

not_star : ¬ All IsPlain (codes "*")
not_star h = omega arith

starts_plain :
    (t : Text) → All IsPlain t → (is_pass_through t ≡ contains t b',') × (split_prefix t ≡ ([], t))
unfolding is_pass_through split_prefix contains text_eq
starts_plain [] h = (refl, refl)
starts_plain (c ∷ t) (h, k) = (
  rw (text_eq-ne (c ∷ t) (codes "*") (λ e. absurd (not_star (subst (All IsPlain) e (h, k)))))
      (ground arith),
  ground arith,
)

abbrev Shut : Text → Type 0
Shut t = (contains t b'*' ≡ false) × (contains t b'-' ≡ false) × (contains t b'+' ≡ false)

dotted-Shut : (ns : Numbers) → Shut (dotted ns)
dotted-Shut ns = (
  contains-Lacks b'*' _ (plain-Lacks b'*' _ (omega arith) (dotted-IsPlain ns)),
  contains-Lacks b'-' _ (plain-Lacks b'-' _ (omega arith) (dotted-IsPlain ns)),
  contains-Lacks b'+' _ (plain-Lacks b'+' _ (omega arith) (dotted-IsPlain ns)),
)

expand_prefixed-dotted :
    (S : Type 0) (prefix : Text) (ns : Numbers)
    → expand_prefixed {S = S} prefix (dotted ns) (shown ns) ≡ ok (prefix ++ dotted (pad_numbers ns))
unfolding expand_prefixed show_u64
expand_prefixed-dotted S prefix (one x) = refl
expand_prefixed-dotted S prefix (two x y) = refl
expand_prefixed-dotted S prefix (three x y z) = refl

expand_bare-dotted :
    (S : Type 0) (ns : Numbers)
    → expand_bare {S = S} (shown ns) ≡ ok (raw (normal_prefix bare ns) ns)
unfolding expand_bare
expand_bare-dotted S (one x) = refl
expand_bare-dotted S (two x y) = refl
expand_bare-dotted S (three x y z) = refl

normalize_body-prefixed :
    (S : Type 0) (prefix : Text) (ns : Numbers)
    → prefix ≢ []
    → normalize_body {S = S} prefix (dotted ns) ≡ ok (prefix ++ dotted (pad_numbers ns))
unfolding normalize_body
normalize_body-prefixed S prefix ns h =
    let (star, dash, plus) = dotted-Shut ns in
    rw
      (
        text_eq-ne (dotted ns) [] (dotted-ne-nil ns),
        star,
        dash,
        plus,
        text_eq-ne prefix [] h,
        split-dotted ns,
      )
      (expand_prefixed-dotted S prefix ns)

normalize_body-bare :
    (S : Type 0) (ns : Numbers)
    → normalize_body {S = S} [] (dotted ns) ≡ ok (raw (normal_prefix bare ns) ns)
unfolding normalize_body text_eq
normalize_body-bare S ns =
    let (star, dash, plus) = dotted-Shut ns in
    rw (text_eq-ne (dotted ns) [] (dotted-ne-nil ns), star, dash, plus, split-dotted ns)
      (expand_bare-dotted S ns)

after_trim :
    (S : Type 0) (p : Prefix) (ns : Numbers)
    → (if is_pass_through (raw p ns)
        then ok (raw p ns)
        else normalize_body {S = S} (split_prefix (raw p ns)).0 (split_prefix (raw p ns)).1)
      ≡ ok (raw (normal_prefix p ns) (normal_numbers p ns))
unfolding is_pass_through split_prefix
after_trim S caret ns =
    rw
      (
        text_eq-ne _ (codes "*") (raw-ne-star caret ns),
        contains-Lacks b',' _ (raw-Lacks_comma caret ns),
      )
      (normalize_body-prefixed S (codes "^") ns (λ e. cc))
after_trim S tilde ns =
    rw
      (
        text_eq-ne _ (codes "*") (raw-ne-star tilde ns),
        contains-Lacks b',' _ (raw-Lacks_comma tilde ns),
      )
      (normalize_body-prefixed S (codes "~") ns (λ e. cc))
after_trim S exact ns = rw (
  text_eq-ne _ (codes "*") (raw-ne-star exact ns),
  contains-Lacks b',' _ (raw-Lacks_comma exact ns),
)
after_trim S bare ns =
    let (passes, splits) = starts_plain (dotted ns) (dotted-IsPlain ns) in
    rw (passes, splits, contains-Lacks b',' _ (raw-Lacks_comma bare ns)) (normalize_body-bare S ns)

pub normalize_loose-raw :
    (S : Type 0) (p : Prefix) (ns : Numbers)
    → normalize_loose {S = S} (raw p ns) ≡ ok (raw (normal_prefix p ns) (normal_numbers p ns))
unfolding normalize_loose
normalize_loose-raw S p ns =
    rw (trim-raw p ns, text_eq-ne (raw p ns) [] (raw-ne-nil p ns)) (after_trim S p ns)
