-- ===== src/Security/ApiKeySecret.antt =====
-- src/security/service/api_key_secret.rs: the wire format `egras_<env>_<prefix8>_<secret>`.
-- A text is the list of its UTF-8 bytes; a byte of a multi-byte character is above 127, so a test
-- for ASCII characters and a search for `_` read the bytes as they would the characters.
pub mod Splitting
pub mod RoundTrip
pub mod Tests
use egras.Prelude.{
  ℕ, zero, suc, Bool, ◌&&◌, ◌||◌, not, Option, none, some, List, [], ◌∷◌, ◌++◌, length, all, leb,
  ◌==◌, ℕ_eq, if◌then◌else◌, bytes,
}

pub record ParsedKey : Type 0 where
  pub env : List ℕ
  pub prefix : List ℕ
  pub secret : List ℕ

pub record GeneratedKey : Type 0 where
  pub prefix : List ℕ
  pub plaintext : List ℕ
  pub secret : List ℕ

-- `str::strip_prefix`
unfoldable pub strip_prefix : List ℕ → List ℕ → Option (List ℕ)
strip_prefix [] s = some s
strip_prefix (p ∷ ps) [] = none
strip_prefix (p ∷ ps) (c ∷ s) = if p == c then strip_prefix ps s else none

abbrev prepend : ℕ → Option (List ℕ × List ℕ) → Option (List ℕ × List ℕ)
prepend c none = none
prepend c (some (a, b)) = some (c ∷ a, b)

-- What stands before and after the first `sep`.
pub split_once : ℕ → List ℕ → Option (List ℕ × List ℕ)
split_once sep [] = none
split_once sep (c ∷ s) = if c == sep then some ([], s) else prepend c (split_once sep s)

-- `str::splitn`: at most `n` parts, the last of them with all that is left.
splitn : ℕ → ℕ → List ℕ → List (List ℕ)
splitn zero sep s = []
splitn (suc zero) sep s = s ∷ []
splitn (suc (suc n)) sep s = elim (split_once sep s) [
  | none ↦ s ∷ []
  | some (a, rest) ↦ a ∷ splitn (suc n) sep rest
]

-- `char::is_ascii_hexdigit`
unfoldable pub is_ascii_hexdigit : ℕ → Bool
is_ascii_hexdigit c =
    leb b'0' c && leb c b'9' || leb b'a' c && leb c b'f' || leb b'A' c && leb c b'F'

abbrev is_empty : List ℕ → Bool
is_empty [] = Bool.true
is_empty (_ ∷ _) = Bool.false

-- The tests on the three parts.
parse_parts : List (List ℕ) → Option ParsedKey
parse_parts (env ∷ prefix ∷ secret ∷ []) =
    if not (length prefix == 8) || not (all is_ascii_hexdigit prefix)
    then none
    else if is_empty secret
    then none
    else some (record { env = env; prefix = prefix; secret = secret })
parse_parts _ = none

abbrev egras_prefix : List ℕ
egras_prefix = bytes "egras_"

pub parse : List ℕ → Option ParsedKey
parse s = elim (strip_prefix egras_prefix s) [
  | none ↦ none
  | some body ↦ parse_parts (splitn 3 b'_' body)
]

-- `hex_encode` and `base64_encode` are the crates'; the bytes come from the random generator.
module _ (hex_encode base64_encode : List ℕ → List ℕ) where
  unfoldable pub generate : List ℕ → List ℕ → GeneratedKey
  generate prefix_bytes secret_bytes =
      let prefix = hex_encode prefix_bytes in
      let secret = base64_encode secret_bytes in
      record {
        prefix = prefix;
        plaintext = bytes "egras_live_" ++ (prefix ++ (b'_' ∷ secret));
        secret = secret;
      }
