-- ===== src/Reference/Texts/Scopes.antt =====
-- crates/wyrd-spec/src/reference.rs: the text form of a scope of cards, and reading it back.
use wyrd_core.Prelude.{
  ◌≡◌, true, inl, inr, Option, none, some, List, [], ◌∷◌, ◌++◌, all, any, Outcome, ok, ◌>>=◌,
  collect, map, refl, sym, subst, ap, All, All-append, Bool-cases,
}
use wyrd_core.Prelude.Text.{Text}
use wyrd_core.Semver.Crate.{SemverCrate}
use wyrd_core.Semver.Block.{VersionBlock, parse_block}
use wyrd_core.Reference.{CardRef, CardRefScope, same_identity, push_members, from_root_and_members}
use wyrd_core.Reference.Scope.{
  IsDistinct, from_root_and_members-distinct, from_root_and_members-IsDistinct,
}
use wyrd_core.Reference.Texts.{
  IdError, Failure, validate_token, card_ref_to_string, card_ref_from_str,
}
use wyrd_core.Reference.Texts.RoundTrip.{is_version_char, card_ref_from_str-to_string}

-- The match of `deserialize`.
abbrev pub scope_of : {U : Type 0} → List (CardRef U) → CardRefScope U
scope_of [] = []
scope_of (root ∷ rest) = from_root_and_members root rest

module _ {U : Type 0} (crate : SemverCrate) (show_uid : U → Text)
    (parse_uid : Text → Outcome IdError U) where
  -- `Serialize` and `Deserialize` of a scope, over an array of strings.
  unfoldable pub scope_to_strings : CardRefScope U → List Text
  scope_to_strings scope = map (card_ref_to_string crate show_uid parse_uid) scope

  unfoldable pub scope_from_strings :
      List Text → Outcome (Failure crate show_uid parse_uid) (CardRefScope U)
  scope_from_strings texts =
      collect (card_ref_from_str crate show_uid parse_uid) texts >>= λ members.
      ok (scope_of members)

  abbrev HasSpace : Option Text → Type 0
  HasSpace none = ⊥
  HasSpace (some space) = validate_token space ≡ ok space

  -- A card with a space, of which the names and the version are valid.
  abbrev pub IsWritable : CardRef U → Type 0
  IsWritable r =
      HasSpace r.space
      × (validate_token r.name ≡ ok r.name)
      × (parse_block crate r.version.value ≡ ok r.version)

  -- The crate semver accepts only the characters of a version, and UIDs are read back.
  pub record TextLaws : Type 0 where
    pub version_chars :
        (value : Text) (block : VersionBlock)
        → parse_block crate value ≡ ok block
        → all is_version_char value ≡ true
    pub uid_back : (u : U) → parse_uid (show_uid u) ≡ ok u

  module _ (laws : TextLaws) where
    with_space :
        (space : Option Text) (r : CardRef U)
        → r.space ≡ space
        → HasSpace space
        → validate_token r.name ≡ ok r.name
        → parse_block crate r.version.value ≡ ok r.version
        → card_ref_from_str crate show_uid parse_uid (card_ref_to_string crate show_uid parse_uid r)
          ≡ ok r
    with_space none r h s n v = absurd s
    with_space (some space) r h s n v =
        let same : record {
          kind = r.kind;
          name = r.name;
          version = r.version;
          space = some space;
          uid = r.uid;
        }
            ≡ r =
          ap (λ x. record r { space = x }) (sym h) in
        subst
          (λ x.
            card_ref_from_str crate show_uid parse_uid
              (card_ref_to_string crate show_uid parse_uid x)
            ≡ ok x)
          same
          (card_ref_from_str-to_string crate show_uid parse_uid laws.version_chars laws.uid_back
            r.kind r.name space r.version r.uid s n v)

    collect-strings :
        (scope : CardRefScope U)
        → All IsWritable scope
        → collect
            (card_ref_from_str crate show_uid parse_uid)
            (map (card_ref_to_string crate show_uid parse_uid) scope)
          ≡ ok scope
    collect-strings [] h = refl
    collect-strings (r ∷ scope) ((s, n, v), h) =
        rw (with_space r.space r refl s n v, collect-strings scope h) refl

    -- A scope of distinct cards that can be written is read back.
    scope_from_strings-to_strings :
        (scope : CardRefScope U)
        → IsDistinct scope
        → All IsWritable scope
        → scope_from_strings (scope_to_strings scope) ≡ ok scope
    unfolding scope_from_strings scope_to_strings
    scope_from_strings-to_strings [] d h = refl
    scope_from_strings-to_strings (root ∷ rest) d h =
        rw (collect-strings (root ∷ rest) h) (ap ok (from_root_and_members-distinct root rest d))

    All-push_members :
        (members : List (CardRef U)) (scope : CardRefScope U)
        → All IsWritable scope
        → All IsWritable members
        → All IsWritable (push_members scope members)
    unfolding push_members
    All-push_members [] scope h k = h
    All-push_members (m ∷ members) scope h (p, k) =
        elim (Bool-cases (any (λ e. same_identity e m) scope)) [
          | inl old ↦ rw old (All-push_members members scope h k)
          | inr new ↦ rw new (
              All-push_members members (scope ++ m ∷ [])
                (All-append IsWritable scope (m ∷ []) h (p, tt)) k)
        ]

    -- So is one that was built from a root and members.
    pub scope_from_strings-built :
        (root : CardRef U) (members : List (CardRef U))
        → IsWritable root
        → All IsWritable members
        → scope_from_strings (scope_to_strings (from_root_and_members root members))
          ≡ ok (from_root_and_members root members)
    unfolding from_root_and_members
    scope_from_strings-built root members h k =
        scope_from_strings-to_strings (from_root_and_members root members)
          (from_root_and_members-IsDistinct root members)
          (All-push_members members (root ∷ []) (h, tt) k)
