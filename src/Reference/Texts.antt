-- ===== src/Reference/Texts.antt =====
-- crates/wyrd-spec/src/{ids,envelope,reference}.rs: the text form of a card reference.
pub mod RoundTrip
pub mod Reread
pub mod Scopes
use wyrd_core.Prelude.{
  ℕ, Bool, true, false, not, ◌&&◌, ◌||◌, Option, none, some, List, [], ◌∷◌, ◌++◌, all, length,
  if◌then◌else◌, ◌==◌, ltb, leb, Outcome, ok, err, ◌>>=◌, map_err, ok_or,
}
use wyrd_core.Prelude.Text.{Text, codes, text_eq, is_digit, split}
use wyrd_core.Semver.Error.{VersionError}
use wyrd_core.Semver.Crate.{SemverCrate}
use wyrd_core.Semver.Block.{VersionBlock, parse_block}
use wyrd_core.Reference
use wyrd_core.Reference.{CardKind, CardRef}

pub data IdError : Type 0 where
  invalid_token invalid_uuid7 invalid_tenant_slug invalid_opaque : IdError

pub data CardRefParseError (E : Type 0) : Type 0 where
  missing_space missing_kind missing_name missing_version too_many_segments : CardRefParseError E
  unknown_kind : Text → CardRefParseError E
  bad_space bad_name bad_uid : IdError → CardRefParseError E
  bad_version : VersionError E → CardRefParseError E

-- `char::is_ascii_lowercase`.
abbrev pub is_lowercase : ℕ → Bool
is_lowercase c = leb b'a' c && leb c b'z'

unfoldable pub is_token_char : ℕ → Bool
is_token_char c = is_lowercase c || is_digit c || c == b'_' || c == b'-'

-- A text that passes is ASCII, so its length in bytes is its length.
unfoldable pub validate_token_with_min : Text → ℕ → Outcome IdError Text
validate_token_with_min [] min_len = err invalid_token
validate_token_with_min (first ∷ chars) min_len =
    let value = first ∷ chars in
    if ltb (length value) min_len || ltb 64 (length value)
    then err invalid_token
    else if not (is_lowercase first)
    then err invalid_token
    else if all is_token_char chars
    then ok value
    else err invalid_token

-- `SpaceName::new` and `CardName::new`.
unfoldable pub validate_token : Text → Outcome IdError Text
validate_token value = validate_token_with_min value 3

abbrev pub wire_name : CardKind → Text
wire_name Reference.data_card = codes "Data"
wire_name Reference.model = codes "Model"
wire_name Reference.experiment = codes "Experiment"
wire_name Reference.prompt = codes "Prompt"
wire_name Reference.agent = codes "Agent"
wire_name Reference.workflow = codes "Workflow"
wire_name Reference.eval = codes "Eval"
wire_name Reference.drift = codes "Drift"
wire_name Reference.service = codes "Service"
wire_name Reference.policy = codes "Policy"
wire_name Reference.mcp = codes "Mcp"
wire_name Reference.audit = codes "Audit"
wire_name Reference.artifact = codes "Artifact"
wire_name Reference.trigger = codes "Trigger"
wire_name Reference.operator = codes "Operator"
wire_name Reference.source = codes "Source"
wire_name Reference.external = codes "External"

abbrev pub native : List CardKind
native =
    Reference.data_card ∷ Reference.model ∷ Reference.experiment ∷ Reference.prompt
    ∷ Reference.agent ∷ Reference.workflow ∷ Reference.eval ∷ Reference.drift ∷ Reference.service
    ∷ Reference.policy ∷ Reference.mcp ∷ Reference.audit ∷ Reference.artifact ∷ Reference.trigger
    ∷ Reference.operator ∷ Reference.source ∷ Reference.external ∷ []

-- The search of `parse_card_kind`.
unfoldable pub find_kind : Text → List CardKind → Option CardKind
find_kind value [] = none
find_kind value (kind ∷ kinds) =
    let rest = find_kind value kinds in if text_eq (wire_name kind) value then some kind else rest

unfoldable pub parse_card_kind : {E : Type 0} → Text → Outcome (CardRefParseError E) CardKind
parse_card_kind value = ok_or (unknown_kind value) (find_kind value native)

abbrev push_left : ℕ → Option (Text × Text) → Option (Text × Text)
push_left c none = none
push_left c (some (left, right)) = some (c ∷ left, right)

-- `str::split_once(char)`, at the first one.
unfoldable pub split_once : ℕ → Text → Option (Text × Text)
split_once d [] = none
split_once d (c ∷ s) =
    let rest = split_once d s in if c == d then some ([], s) else push_left c rest

abbrev split_before : ℕ → ℕ → Text → Option (Text × Text) → Option (Text × Text)
split_before d c s none = if c == d then some ([], s) else none
split_before d c s (some (left, right)) = some (c ∷ left, right)

-- `str::rsplit_once(char)`, at the last one.
unfoldable pub rsplit_once : ℕ → Text → Option (Text × Text)
rsplit_once d [] = none
rsplit_once d (c ∷ s) = split_before d c s (rsplit_once d s)

abbrev pub Head : Type 0
Head = Text × CardKind × Text

-- The segments in front of the version.
unfoldable pub read_name :
    {E : Type 0} → Text → CardKind → List Text → Outcome (CardRefParseError E) Head
read_name space kind [] = err missing_name
read_name space kind (part ∷ []) =
    map_err bad_name (validate_token part) >>= λ name. ok (space, kind, name)
read_name space kind (part ∷ more ∷ parts) =
    map_err bad_name (validate_token part) >>= λ name. err too_many_segments

unfoldable pub read_kind : {E : Type 0} → Text → List Text → Outcome (CardRefParseError E) Head
read_kind space [] = err missing_kind
read_kind space (part ∷ parts) = parse_card_kind part >>= λ kind. read_name space kind parts

unfoldable pub read_space : {E : Type 0} → List Text → Outcome (CardRefParseError E) Head
read_space [] = err missing_space
read_space (part ∷ parts) =
    map_err bad_space (validate_token part) >>= λ space. read_kind space parts

-- `crate` is the crate semver, `show_uid` and `parse_uid` are the text form of a UID.
module _ {U : Type 0} (crate : SemverCrate) (show_uid : U → Text)
    (parse_uid : Text → Outcome IdError U) where
  abbrev pub show_space : Option Text → Text
  show_space none = codes "<missing-space>"
  show_space (some space) = space

  abbrev pub uid_suffix : Option U → Text
  uid_suffix none = []
  uid_suffix (some uid) = b'#' ∷ show_uid uid

  -- `Display` of a card reference.
  unfoldable pub card_ref_to_string : CardRef U → Text
  card_ref_to_string r =
      show_space r.space
      ++ b'/'
        ∷ (wire_name r.kind ++ b'/' ∷ (r.name ++ b'@' ∷ (r.version.value ++ uid_suffix r.uid)))

  abbrev pub Failure : Type 0
  Failure = CardRefParseError crate.Error

  unfoldable pub read_uid : Text → Outcome Failure (Text × Option U)
  read_uid value = elim (split_once b'#' value) [
    | none ↦ ok (value, none)
    | some (head, uid) ↦ map_err bad_uid (parse_uid uid) >>= λ u. ok (head, some u)
  ]

  -- `CardRef::from_str`.
  unfoldable pub card_ref_from_str : Text → Outcome Failure (CardRef U)
  card_ref_from_str value = read_uid value >>= λ (head, uid).
      ok_or missing_version (rsplit_once b'@' head) >>= λ (before_version, version).
      read_space (split b'/' before_version) >>= λ (space, kind, name).
      map_err bad_version (parse_block crate version) >>= λ block.
      ok (record { kind = kind; name = name; version = block; space = some space; uid = uid })
