-- ===== src/Security/Handlers/Cursors.antt =====
-- src/security/interface.rs: the listing of service accounts, with the text of its cursors. `SaText` is
-- what it takes from the crates: base64, UTF-8, the RFC 3339 form of an instant, and that of an id.
use egras.Prelude.{
  ℕ, Bool, true, not, Option, none, some, List, ◌∷◌, ◌++◌, map, Result, ok, err, ◌>>=◌, ok_or, ◌&&◌,
  ◌==◌, ℕ_eq, if◌then◌else◌, ◌≡◌, refl,
}
use egras.Error.{AppError, internal}
use egras.Auth.Permissions.{Extensions, is_operator_over_tenants}
use egras.Auth.Extractors.{service_accounts_read}
use egras.Security.ApiKeySecret.{split_once}
use egras.Security.ApiKeySecret.Splitting.{Lacks, split_once_append}
use egras.Security.Model.{Db}
use egras.Security.State.{Call, or_error}
use egras.Security.Accounts.{clamp, list_service_accounts}
use egras.Security.Handlers.{ServiceAccountResponse, account_response, field_error, gated}

pub record SaText : Type 0 where
  pub base64_encode : List ℕ → List ℕ
  pub base64_decode : List ℕ → Option (List ℕ)
  pub is_utf8 : List ℕ → Bool
  pub to_rfc3339 : ℕ → List ℕ
  pub parse_from_rfc3339 : List ℕ → Option ℕ
  pub uuid_to_text : ℕ → List ℕ
  pub parse_str : List ℕ → Option ℕ

-- What the crates document: each reading undoes its writing, and an instant is written without `|`.
pub record IsSaText (t : SaText) : Type 0 where
  pub decode-encode64 : (bs : List ℕ) → t.base64_decode (t.base64_encode bs) ≡ some bs
  pub utf8 : (at id : ℕ) → t.is_utf8 (t.to_rfc3339 at ++ (b'|' ∷ t.uuid_to_text id)) ≡ true
  pub parse-rfc3339 : (at : ℕ) → t.parse_from_rfc3339 (t.to_rfc3339 at) ≡ some at
  pub parse-uuid : (id : ℕ) → t.parse_str (t.uuid_to_text id) ≡ some id
  pub no_bar : (at : ℕ) → Lacks b'|' (t.to_rfc3339 at)

pub record ListServiceAccountsQuery : Type 0 where
  pub organisation_id : ℕ
  pub limit : Option ℕ
  pub after : Option (List ℕ)

pub record ListServiceAccountsResponse : Type 0 where
  pub items : List ServiceAccountResponse
  pub next_cursor : Option (List ℕ)

abbrev invalid_cursor : AppError
invalid_cursor = field_error "after" "invalid_cursor"

-- `limit.unwrap_or(50).clamp(1, 200)`
abbrev limit_of : Option ℕ → ℕ
limit_of none = 50
limit_of (some limit) = clamp limit

module _ (t : SaText) where
  pub encode_sa_cursor : ℕ × ℕ → List ℕ
  encode_sa_cursor (at, id) = t.base64_encode (t.to_rfc3339 at ++ (b'|' ∷ t.uuid_to_text id))

  pub decode_sa_cursor : List ℕ → Result AppError (ℕ × ℕ)
  decode_sa_cursor s = do
    bytes ← ok_or (t.base64_decode s) invalid_cursor
    _ ← if t.is_utf8 bytes then ok bytes else err invalid_cursor
    (ts_str, id_str) ← ok_or (split_once b'|' bytes) invalid_cursor
    ts ← ok_or (t.parse_from_rfc3339 ts_str) invalid_cursor
    id ← ok_or (t.parse_str id_str) invalid_cursor
    ok (ts, id)

  abbrev after_of : Option (List ℕ) → Result AppError (Option (ℕ × ℕ))
  after_of none = ok none
  after_of (some s) = do cursor ← decode_sa_cursor s; ok (some cursor)

  abbrev next_text : Option (ℕ × ℕ) → Option (List ℕ)
  next_text none = none
  next_text (some cursor) = some (encode_sa_cursor cursor)

  pub get_list_service_accounts :
      Call
      → Extensions
      → ListServiceAccountsQuery
      → Db
      → Result AppError ListServiceAccountsResponse
  get_list_service_accounts c parts q db = do
    caller ← gated service_accounts_read parts
    _ ←
        if not (is_operator_over_tenants caller.permissions)
          && not (caller.claims.org == q.organisation_id)
        then err (AppError.not_found "organisation")
        else ok caller
    after ← after_of q.after
    out ← or_error internal (list_service_accounts c q.organisation_id (limit_of q.limit) after db)
    ok (record { items = map account_response out.items; next_cursor = next_text out.next_cursor })

  -- The cursor of a page of service accounts is read back as the key that was written, if the
  -- crates' texts are read back as documented.
  pub decode_sa_cursor-encode :
      IsSaText t → (cursor : ℕ × ℕ) → decode_sa_cursor (encode_sa_cursor cursor) ≡ ok cursor
  unfolding decode_sa_cursor encode_sa_cursor
  decode_sa_cursor-encode law (at, id) =
      rw
        (
          law.decode-encode64 (t.to_rfc3339 at ++ (b'|' ∷ t.uuid_to_text id)),
          decode_sa_cursor,
          law.utf8 at id,
          split_once_append b'|' (t.to_rfc3339 at) (t.uuid_to_text id) (law.no_bar at),
          law.parse-rfc3339 at,
          law.parse-uuid id,
        )
        refl
