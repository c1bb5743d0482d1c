-- ===== src/Reference/Texts/RoundTrip.antt =====
-- crates/wyrd-spec/src/reference.rs: a card reference that is written and read back.
use wyrd_core.Prelude.{
  ℕ, ◌≡◌, Bool, true, false, ◌&&◌, ◌||◌, Option, none, some, [], ◌∷◌, ◌++◌, all, ◌==◌, leb, Outcome,
  ok, arith, refl, ap, ◌∙◌, All-append, append_assoc, append-nil,
}
use wyrd_core.Prelude.Text.{Text, text_eq, is_digit, split}
use wyrd_core.Prelude.Text.Scan.{Lacks, split-Lacks, split-append}
use wyrd_core.Semver.Crate.{SemverCrate}
use wyrd_core.Semver.Block.{VersionBlock, parse_block}
use wyrd_core.Reference
use wyrd_core.Reference.{CardKind, CardRef}
use wyrd_core.Reference.Texts.{
  IdError, is_token_char, is_lowercase, validate_token_with_min, validate_token, wire_name,
  find_kind, parse_card_kind, split_once, rsplit_once, read_name, read_kind, read_space,
  card_ref_to_string, read_uid, card_ref_from_str, uid_suffix,
}

-- A text whose characters pass a test that `d` fails.
all-Lacks : (p : ℕ → Bool) (d : ℕ) (t : Text) → all p t ≡ true → p d ≡ false → Lacks d t
all-Lacks p d [] h k = tt
all-Lacks p d (c ∷ t) h k =
    (λ e. ground (arith, h, k, ap p e), all-Lacks p d t (ground (arith, h)) k)

split_once-Lacks : (d : ℕ) (t : Text) → Lacks d t → split_once d t ≡ none
unfolding split_once
split_once-Lacks d [] h = refl
split_once-Lacks d (c ∷ t) (h, k) = ground (arith, split_once-Lacks d t k)

split_once-append : (d : ℕ) (w t : Text) → Lacks d w → split_once d (w ++ d ∷ t) ≡ some (w, t)
unfolding split_once
split_once-append d [] t h = ground arith
split_once-append d (c ∷ w) t (h, k) = ground (arith, split_once-append d w t k)

rsplit_once-Lacks : (d : ℕ) (t : Text) → Lacks d t → rsplit_once d t ≡ none
unfolding rsplit_once
rsplit_once-Lacks d [] h = refl
rsplit_once-Lacks d (c ∷ t) (h, k) = ground (arith, rsplit_once-Lacks d t k)

rsplit_once-append : (d : ℕ) (w t : Text) → Lacks d t → rsplit_once d (w ++ d ∷ t) ≡ some (w, t)
unfolding rsplit_once
rsplit_once-append d [] t h = ground (arith, rsplit_once-Lacks d t h)
rsplit_once-append d (c ∷ w) t h = ground (arith, rsplit_once-append d w t h)

-- The letters of wire names.
abbrev is_letter : ℕ → Bool
is_letter c = (leb b'A' c && leb c b'Z') || is_lowercase c

wire_name-parse :
    {E : Type 0} (kind : CardKind)
    → (parse_card_kind {E = E} (wire_name kind) ≡ ok kind) × (all is_letter (wire_name kind) ≡ true)
unfolding parse_card_kind find_kind text_eq
wire_name-parse Reference.data_card = (refl, refl)
wire_name-parse Reference.model = (refl, refl)
wire_name-parse Reference.experiment = (refl, refl)
wire_name-parse Reference.prompt = (refl, refl)
wire_name-parse Reference.agent = (refl, refl)
wire_name-parse Reference.workflow = (refl, refl)
wire_name-parse Reference.eval = (refl, refl)
wire_name-parse Reference.drift = (refl, refl)
wire_name-parse Reference.service = (refl, refl)
wire_name-parse Reference.policy = (refl, refl)
wire_name-parse Reference.mcp = (refl, refl)
wire_name-parse Reference.audit = (refl, refl)
wire_name-parse Reference.artifact = (refl, refl)
wire_name-parse Reference.trigger = (refl, refl)
wire_name-parse Reference.operator = (refl, refl)
wire_name-parse Reference.source = (refl, refl)
wire_name-parse Reference.external = (refl, refl)

validate_token-chars : (t : Text) → validate_token t ≡ ok t → all is_token_char t ≡ true
unfolding validate_token validate_token_with_min is_token_char
validate_token-chars [] h = refl
validate_token-chars (c ∷ t) h = ground (arith, h)

abbrev pub is_version_char : ℕ → Bool
is_version_char c = is_letter c || is_digit c || c == b'.' || c == b'+' || c == b'-'

-- The segments in front of the version, and what stands in front of the UID.
abbrev pub before_version : Text → Text → Text → Text
before_version space kind name = space ++ b'/' ∷ (kind ++ b'/' ∷ name)

head-Lacks :
    (space kind name version : Text)
    → Lacks b'#' space
    → Lacks b'#' kind
    → Lacks b'#' name
    → Lacks b'#' version
    → Lacks b'#' (before_version space kind name ++ b'@' ∷ version)
head-Lacks space kind name version s k n v =
    All-append _ (before_version space kind name) (b'@' ∷ version)
      (All-append _ space (b'/' ∷ (kind ++ b'/' ∷ name)) s
        ((λ e. omega (arith, e)), All-append _ kind (b'/' ∷ name) k ((λ e. omega (arith, e)), n)))
      ((λ e. omega (arith, e)), v)

split-before_version :
    (space kind name : Text)
    → Lacks b'/' space
    → Lacks b'/' kind
    → Lacks b'/' name
    → split b'/' (before_version space kind name) ≡ space ∷ kind ∷ name ∷ []
split-before_version space kind name s k n =
    split-append b'/' space (kind ++ b'/' ∷ name) s
    ∙ ap (λ parts. space ∷ parts)
        (split-append b'/' kind name k ∙ ap (λ parts. kind ∷ parts) (split-Lacks b'/' name n))

read_space-ok :
    {E : Type 0} (space : Text) (kind : CardKind) (name : Text)
    → validate_token space ≡ ok space
    → validate_token name ≡ ok name
    → read_space {E = E} (space ∷ wire_name kind ∷ name ∷ []) ≡ ok (space, kind, name)
unfolding read_space read_kind read_name
read_space-ok {E} space kind name s n = rw (s, (wire_name-parse {E = E} kind).0, n) refl

module _ {U : Type 0} (crate : SemverCrate) (show_uid : U → Text)
    (parse_uid : Text → Outcome IdError U) where
  pub card_ref_to_string-eq :
      (kind : CardKind) (name space : Text) (version : VersionBlock) (uid : Option U)
      → card_ref_to_string crate show_uid parse_uid
          (record { kind = kind; name = name; version = version; space = some space; uid = uid })
        ≡ (before_version space (wire_name kind) name ++ b'@' ∷ version.value)
          ++ uid_suffix crate show_uid parse_uid uid
  unfolding card_ref_to_string
  card_ref_to_string-eq kind name space version uid =
      let suffix = uid_suffix crate show_uid parse_uid uid in
      let word = wire_name kind in
      rw
        (
          append_assoc (before_version space word name) (b'@' ∷ version.value) suffix,
          append_assoc space (b'/' ∷ (word ++ b'/' ∷ name)) (b'@' ∷ (version.value ++ suffix)),
          append_assoc word (b'/' ∷ name) (b'@' ∷ (version.value ++ suffix)),
        )
        refl

  read_uid-ok :
      ((u : U) → parse_uid (show_uid u) ≡ ok u)
      → (head : Text) (uid : Option U) → Lacks b'#' head
      → read_uid crate show_uid parse_uid (head ++ uid_suffix crate show_uid parse_uid uid)
        ≡ ok (head, uid)
  unfolding read_uid
  read_uid-ok back head none h =
      let cut : split_once b'#' (head ++ []) ≡ none =
        rw (append-nil head) (split_once-Lacks b'#' head h) in
      rw (cut, read_uid) (ap (λ t. ok (t, none)) (append-nil head))
  read_uid-ok back head (some u) h =
      rw (split_once-append b'#' head (show_uid u) h, back u, read_uid) refl

  -- Where the crate semver accepts only the characters of a version, and the text of a UID is read back: a
  -- reference with a space is read back from its text, if its space and name are valid and its version is one
  -- that parsing gives.
  pub card_ref_from_str-to_string :
      ((value : Text) (block : VersionBlock)
        → parse_block crate value ≡ ok block
        → all is_version_char value ≡ true)
      → ((u : U) → parse_uid (show_uid u) ≡ ok u)
      → (kind : CardKind) (name space : Text) (version : VersionBlock) (uid : Option U)
      → validate_token space ≡ ok space
      → validate_token name ≡ ok name
      → parse_block crate version.value ≡ ok version
      → card_ref_from_str crate show_uid parse_uid (
          card_ref_to_string crate show_uid parse_uid
            (record { kind = kind; name = name; version = version; space = some space; uid = uid }))
        ≡ ok (record { kind = kind; name = name; version = version; space = some space; uid = uid })
  unfolding card_ref_from_str is_token_char is_digit
  card_ref_from_str-to_string version_chars back kind name space version uid s n v =
      let word = wire_name kind in
      let in_space = validate_token-chars space s in
      let in_name = validate_token-chars name n in
      let in_word = (wire_name-parse {E = crate.Error} kind).1 in
      let in_version = version_chars version.value version v in
      let head = before_version space word name ++ b'@' ∷ version.value in
      let no_hash =
        head-Lacks space word name version.value (all-Lacks is_token_char b'#' space in_space refl)
          (all-Lacks is_letter b'#' word in_word refl)
          (all-Lacks is_token_char b'#' name in_name refl)
          (all-Lacks is_version_char b'#' version.value in_version refl) in
      let cut =
        rsplit_once-append b'@' (before_version space word name) version.value
          (all-Lacks is_version_char b'@' version.value in_version refl) in
      let parts =
        split-before_version space word name (all-Lacks is_token_char b'/' space in_space refl)
          (all-Lacks is_letter b'/' word in_word refl)
          (all-Lacks is_token_char b'/' name in_name refl) in
      rw
        (
          card_ref_to_string-eq kind name space version uid,
          read_uid-ok back head uid no_hash,
          cut,
          parts,
          read_space-ok {E = crate.Error} space kind name s n,
          v,
        )
        refl
