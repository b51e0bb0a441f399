-- ===== src/Config/Identity.antt =====
-- `Identity` of internal/config/storage.go: the parts that the database and the vault read, `ValidUUID`, and
-- `decodeIdentity`.
use data_mate.Base.{
  ℕ, suc, ◌≡◌, ap, sym, ◌∙◌, Bool, true, not, ◌&&◌, ◌||◌, Option, none, some, List, [], ◌∷◌, Text,
  bytes, text_eq, text_eq_iff, leb, ◌==◌, if◌then◌else◌, any, Result, ok, err, ownership, obsolete,
  ◌>>◌, ◌>>=◌, guard, arith, is_empty, same_texts,
}

pub record Identity : Type 0 where
  pub id : Text
  pub root_digest : Text
  pub key_account : Text
  pub purging : Bool

-- `ValidUUID`: 36 bytes, dashes at four places, hexadecimal digits in lower case elsewhere.
hex_digit : ℕ → Bool
hex_digit c = (leb b'0' c && leb c b'9') || (leb b'a' c && leb c b'f')

uuid_at : ℕ → Text → Bool
unfolding hex_digit
uuid_at i [] = i == 36
uuid_at i (c ∷ s) =
    (if i == 8 || i == 13 || i == 18 || i == 23 then c == b'-' else hex_digit c)
    && uuid_at (suc i) s

unfoldable pub valid_uuid : Text → Bool
unfolding uuid_at
valid_uuid s = uuid_at 0 s

-- The members of the document that `decodeIdentity` looks at.
pub record Document : Type 0 where
  pub version : ℕ
  pub environment : Text
  pub executable : Text
  pub owned : List Text
  pub identity : Identity

-- The root, with what filepath and SHA-256 make of it: the path of its executable, the kind of its
-- environment, and the account of an identity.
pub record Root : Type 0 where
  pub digest : Text
  pub kind : Text
  pub executable_path : Text
  pub account : Text → Text
  pub owned_paths : List Text

-- `Kind`: the environment of old documents.
abbrev pub kind_of : Text → Text
kind_of [] = bytes "development"
kind_of (c ∷ s) = c ∷ s

-- NUL, line feed, carriage return and tab.
abbrev pub is_forbidden : ℕ → Bool
is_forbidden c = c == 0 || c == 10 || c == 13 || c == 9

abbrev pub decoded_document : Option Document → Result Document
decoded_document none = err ownership
decoded_document (some d) = ok d

-- `decodeIdentity`, with what `DecodeStrict` gives for the document.
unfoldable pub decode_identity : Root → Option Document → Result Document
unfolding valid_uuid
decode_identity root raw = do
  d ← decoded_document raw
  guard
      (is_empty d.executable
        || (text_eq d.executable root.executable_path && not (any is_forbidden d.executable)))
      ownership
  guard (d.version == 2 || d.version == 3) obsolete
  guard
      (text_eq (kind_of d.environment) root.kind
        && not (d.version == 2 && not (is_empty d.environment))
        && not (d.version == 3 && is_empty d.environment))
      ownership
  guard
      (valid_uuid d.identity.id
        && text_eq d.identity.root_digest root.digest
        && text_eq d.identity.key_account (root.account d.identity.id)
        && same_texts d.owned root.owned_paths)
      ownership
  ok d

decode_identity-account :
    (root : Root) (raw : Option Document) {d : Document}
    → decode_identity root raw ≡ ok d
    → (text_eq d.identity.root_digest root.digest ≡ true)
      × (text_eq d.identity.key_account (root.account d.identity.id) ≡ true)
unfolding decode_identity
decode_identity-account root raw h = ground arith

-- Two documents that are accepted under one root and name one installation have the same account of
-- the key and the same digest of the root.
pub decode_identity_unique :
    (root : Root) (raw other : Option Document) {d e : Document}
    → decode_identity root raw ≡ ok d
    → decode_identity root other ≡ ok e
    → d.identity.id ≡ e.identity.id
    → (d.identity.key_account ≡ e.identity.key_account)
      × (d.identity.root_digest ≡ e.identity.root_digest)
decode_identity_unique root raw other {d} {e} h k same =
    let a = decode_identity-account root raw h in
    let b = decode_identity-account root other k in
    (
      (text_eq_iff _ _).0 a.1 ∙ (ap root.account same ∙ sym ((text_eq_iff _ _).0 b.1)),
      (text_eq_iff _ _).0 a.0 ∙ sym ((text_eq_iff _ _).0 b.0),
    )
