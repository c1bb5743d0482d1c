-- ===== src/Reference/Texts/Reread.antt =====
-- crates/wyrd-spec/src/reference.rs: a text that is read as a card reference and written again.
use wyrd_core.Prelude.{
  ℕ, ◌≡◌, inl, inr, Option, none, some, List, [], ◌∷◌, ◌++◌, ◌==◌, Outcome, ok, ◌>>=◌, map_err,
  ok_or, arith, sym, ap, ◌∙◌, subst, Bool-cases, Option-cases, append-nil, >>=-eq-ok, map_err-eq-ok,
}
use wyrd_core.Prelude.Text.{Text, text_eq, text_eq_iff, split}
use wyrd_core.Prelude.Text.Scan.{join, join-split}
use wyrd_core.Reference.Texts.RoundTrip.{before_version, card_ref_to_string-eq}
use wyrd_core.Semver.Error.{invalid}
use wyrd_core.Semver.Crate.{SemverCrate, lift_err}
use wyrd_core.Semver.Block.{VersionBlock, parse_block}
use wyrd_core.Reference.{CardKind, CardRef}
use wyrd_core.Reference.Texts.{
  IdError, CardRefParseError, bad_space, bad_name, bad_uid, bad_version, unknown_kind,
  missing_version, validate_token_with_min, validate_token, wire_name, native, find_kind,
  parse_card_kind, split_once, rsplit_once, read_name, read_kind, read_space, card_ref_to_string,
  read_uid, card_ref_from_str, uid_suffix,
}

ok_or-eq-ok : {E A : Type 0} (e : E) (m : Option A) (a : A) → ok_or e m ≡ ok a → m ≡ some a
ok_or-eq-ok e none a h = cc
ok_or-eq-ok e (some b) a h = cc

split_once-join :
    (d : ℕ) (s left right : Text) → split_once d s ≡ some (left, right) → left ++ d ∷ right ≡ s
unfolding split_once
split_once-join d [] left right h = cc
split_once-join d (c ∷ s) left right h = elim (Bool-cases (c == d)) [
  | inl here ↦ ground (arith, here, h)
  | inr there ↦ elim (Option-cases (split_once d s)) [
    | inl gone ↦ absurd (ground (arith, there, gone, h))
    | inr ((l, r), found) ↦ ground (arith, there, found, h, split_once-join d s l r found)
  ]
]

rsplit_once-join :
    (d : ℕ) (s left right : Text) → rsplit_once d s ≡ some (left, right) → left ++ d ∷ right ≡ s
unfolding rsplit_once
rsplit_once-join d [] left right h = cc
rsplit_once-join d (c ∷ s) left right h = elim (Option-cases (rsplit_once d s)) [
  | inr ((l, r), found) ↦ ground (arith, found, h, rsplit_once-join d s l r found)
  | inl gone ↦ elim (Bool-cases (c == d)) [
    | inl here ↦ ground (arith, gone, here, h)
    | inr there ↦ absurd (ground (arith, gone, there, h))
  ]
]

validate_token-eq : (t value : Text) → validate_token t ≡ ok value → value ≡ t
unfolding validate_token validate_token_with_min
validate_token-eq [] value h = cc
validate_token-eq (c ∷ t) value h = ground (arith, h)

find_kind-eq :
    (t : Text) (kinds : List CardKind) (kind : CardKind)
    → find_kind t kinds ≡ some kind
    → wire_name kind ≡ t
unfolding find_kind
find_kind-eq t [] kind h = cc
find_kind-eq t (k ∷ kinds) kind h = elim (Bool-cases (text_eq (wire_name k) t)) [
  | inl here ↦
      subst (λ x. wire_name x ≡ t) (ground (arith, here, h)) ((text_eq_iff (wire_name k) t).0 here)
  | inr there ↦ find_kind-eq t kinds kind (ground (arith, there, h))
]

parse_block-eq :
    (crate : SemverCrate) (t : Text) (block : VersionBlock)
    → parse_block crate t ≡ ok block
    → block.value ≡ t
unfolding parse_block text_eq
parse_block-eq crate [] block h = cc
parse_block-eq crate (c ∷ t) block h =
    let (version, read, made) = >>=-eq-ok (lift_err invalid (crate.version_parse (c ∷ t))) _ h in
    ground (arith, made)

-- The segments that are read, with their separators.
read_name-eq :
    {E : Type 0} (space name : Text) (kind kind' : CardKind) (space' : Text) (parts : List Text)
    → read_name {E = E} space kind parts ≡ ok (space', kind', name)
    → (space ≡ space') × (kind ≡ kind') × (parts ≡ name ∷ [])
unfolding read_name
read_name-eq space name kind kind' space' [] h = cc
read_name-eq space name kind kind' space' (part ∷ []) h =
    let (n, valid, made) = >>=-eq-ok (map_err bad_name (validate_token part)) _ h in
    let exact = validate_token-eq part n (map_err-eq-ok bad_name (validate_token part) n valid) in
    (ground (arith, made), ground (arith, made), ground (arith, made, exact))
read_name-eq space name kind kind' space' (part ∷ more ∷ parts) h =
    let (n, valid, made) = >>=-eq-ok (map_err bad_name (validate_token part)) _ h in
    absurd (cc made)

read_space-eq :
    {E : Type 0} (space name : Text) (kind : CardKind) (parts : List Text)
    → read_space {E = E} parts ≡ ok (space, kind, name)
    → parts ≡ space ∷ wire_name kind ∷ name ∷ []
unfolding read_space read_kind parse_card_kind
read_space-eq space name kind [] h = cc
read_space-eq space name kind (part ∷ []) h =
    let (s, valid, made) = >>=-eq-ok (map_err bad_space (validate_token part)) _ h in
    absurd (cc made)
read_space-eq space name kind (part ∷ word ∷ parts) h =
    let (s, valid, more) = >>=-eq-ok (map_err bad_space (validate_token part)) _ h in
    let (k, found, rest) = >>=-eq-ok (ok_or (unknown_kind word) (find_kind word native)) _ more in
    let exact = validate_token-eq part s (map_err-eq-ok bad_space (validate_token part) s valid) in
    let named =
      find_kind-eq word native k
        (ok_or-eq-ok (unknown_kind word) (find_kind word native) k found) in
    let (same_space, same_kind, last) = read_name-eq s name k kind space parts rest in
    ground (arith, exact, named, same_space, ap wire_name same_kind, last)

module _ {U : Type 0} (crate : SemverCrate) (show_uid : U → Text)
    (parse_uid : Text → Outcome IdError U) where
  read_uid-eq :
      ((t : Text) (u : U) → parse_uid t ≡ ok u → show_uid u ≡ t)
      → (value head : Text) (uid : Option U)
      → read_uid crate show_uid parse_uid value ≡ ok (head, uid)
      → head ++ uid_suffix crate show_uid parse_uid uid ≡ value
  unfolding read_uid
  read_uid-eq back value head uid h = elim (Option-cases (split_once b'#' value)) [
    | inl whole ↦
        let same : head ≡ value = ground (arith, h, whole) in
        let without : uid ≡ none = ground (arith, h, whole) in
        ap (λ u. head ++ uid_suffix crate show_uid parse_uid u) without ∙ append-nil head ∙ same
    | inr ((left, right), cut) ↦
        let pair : U → Outcome (CardRefParseError crate.Error) (Text × Option U) =
          λ u. ok (left, some u) in
        let opened : (map_err bad_uid (parse_uid right) >>= pair) ≡ ok (head, uid) =
          ground (arith, h, cut) in
        let (u, valid, made) = >>=-eq-ok (map_err bad_uid (parse_uid right)) pair opened in
        let shown = back right u (map_err-eq-ok bad_uid (parse_uid right) u valid) in
        let same : head ≡ left = ground (arith, made) in
        let with_uid : uid ≡ some u = ground (arith, made) in
        ap (λ x. x ++ uid_suffix crate show_uid parse_uid uid) same
        ∙ ap (λ x. left ++ uid_suffix crate show_uid parse_uid x) with_uid
        ∙ ap (λ t. left ++ b'#' ∷ t) shown
        ∙ split_once-join b'#' value left right cut
  ]

  -- Where a UID is written as the text that it is read from: a text that is read as a card reference is what
  -- that reference is written as.
  pub card_ref_to_string-from_str :
      ((t : Text) (u : U) → parse_uid t ≡ ok u → show_uid u ≡ t)
      → (value : Text) (r : CardRef U) → card_ref_from_str crate show_uid parse_uid value ≡ ok r
      → card_ref_to_string crate show_uid parse_uid r ≡ value
  unfolding card_ref_from_str
  card_ref_to_string-from_str back value r h =
      let ((head, uid), started, h1) = >>=-eq-ok (read_uid crate show_uid parse_uid value) _ h in
      let ((before, version), cut, h2) =
        >>=-eq-ok (ok_or missing_version (rsplit_once b'@' head)) _ h1 in
      let ((space, kind, name), parts, h3) = >>=-eq-ok (read_space (split b'/' before)) _ h2 in
      let (block, parsed, made) =
        >>=-eq-ok (map_err bad_version (parse_block crate version)) _ h3 in
      let same : record { kind = kind; name = name; version = block; space = some space; uid = uid }
          ≡ r =
        ground (arith, made) in
      let version_text =
        parse_block-eq crate version block
          (map_err-eq-ok bad_version (parse_block crate version) block parsed) in
      let joined =
        rsplit_once-join b'@' head before version
          (ok_or-eq-ok missing_version (rsplit_once b'@' head) (before, version) cut) in
      let segments : before_version space (wire_name kind) name ≡ before =
        ap (join b'/') (sym (read_space-eq space name kind (split b'/' before) parts))
        ∙ join-split b'/' before in
      ap (card_ref_to_string crate show_uid parse_uid) (sym same)
      ∙ card_ref_to_string-eq crate show_uid parse_uid kind name space block uid
      ∙ ap (λ t. (t ++ b'@' ∷ block.value) ++ uid_suffix crate show_uid parse_uid uid) segments
      ∙ ap (λ t. (before ++ b'@' ∷ t) ++ uid_suffix crate show_uid parse_uid uid) version_text
      ∙ ap (λ t. t ++ uid_suffix crate show_uid parse_uid uid) joined
      ∙ read_uid-eq back value head uid started
