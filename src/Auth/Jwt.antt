-- ===== src/Auth/Jwt.antt =====
-- src/auth/jwt.rs: access tokens. The signed format is the jsonwebtoken crate's: `Codec` holds its
-- two functions, with an issuer and an instant for the validation that the source asks for
-- (HS256, no leeway, the issuer, and `exp`, `iss` and `sub` present).
use egras.Prelude.{
  ℕ, String, ◌&&◌, ◌+◌, Option, none, some, List, ◌==◌, String_eq, leb, if◌then◌else◌, ◌≡◌, arith,
  beq_refl,
}

pub record Claims : Type 0 where
  pub sub : ℕ
  pub org : ℕ
  pub iat : ℕ
  pub exp : ℕ
  pub jti : ℕ
  pub iss : String
  pub typ : String

pub record JwtConfig : Type 0 where
  pub secret : String
  pub issuer : String
  pub ttl_secs : ℕ

-- `decode secret issuer now token`, with `now` in seconds.
pub record Codec : Type 0 where
  pub encode : String → Claims → Option (List ℕ)
  pub decode : String → String → ℕ → List ℕ → Option Claims

-- What the crate documents: a token decodes to what was signed, under the same secret, if the
-- issuer is the expected one and the expiry has not passed.
pub record IsCodec (c : Codec) : Type 0 where
  pub decode-encode :
      (secret issuer : String) (now : ℕ) (claims : Claims) (token : List ℕ)
      → c.encode secret claims ≡ some token
      → c.decode secret issuer now token
        ≡ (if claims.iss == issuer && leb now claims.exp then some claims else none)

-- `jti` is a fresh id, `now` the clock in seconds.
unfoldable pub access_claims : String → ℕ → ℕ → ℕ → ℕ → ℕ → Claims
access_claims issuer user_id org_id ttl_secs jti now = record {
  sub = user_id;
  org = org_id;
  iat = now;
  exp = now + ttl_secs;
  jti = jti;
  iss = issuer;
  typ = "access";
}

unfoldable pub encode_access_token : Codec → String → String → ℕ → ℕ → ℕ → ℕ → ℕ → Option (List ℕ)
encode_access_token c secret issuer user_id org_id ttl_secs jti now =
    c.encode secret (access_claims issuer user_id org_id ttl_secs jti now)

abbrev if_access : Option Claims → Option Claims
if_access none = none
if_access (some claims) = if claims.typ == "access" then some claims else none

unfoldable pub decode_access_token : Codec → String → String → ℕ → List ℕ → Option Claims
decode_access_token c secret expected_issuer now token =
    if_access (c.decode secret expected_issuer now token)

-- With a codec as documented: a token that this service issued decodes, up to and at the second of
-- its expiry and at no later second, to claims with the user as the subject, the organisation, the
-- instant of issue, the expiry `ttl_secs` later, the token's id, the issuer and the type `access`;
-- and a token that was signed under the same secret with any claims whatever decodes to them exactly
-- if their type is `access`, their issuer is the expected one and their expiry has not passed.
pub decode_access_token-encode :
    (c : Codec) (secret issuer : String) (user_id org_id ttl_secs jti issued now : ℕ)
    (token : List ℕ) (claims : Claims) (signed : List ℕ)
    → IsCodec c
    → encode_access_token c secret issuer user_id org_id ttl_secs jti issued ≡ some token
    → c.encode secret claims ≡ some signed
    → (decode_access_token c secret issuer now token ≡ (
        if leb now (issued + ttl_secs)
        then some (record {
          sub = user_id;
          org = org_id;
          iat = issued;
          exp = issued + ttl_secs;
          jti = jti;
          iss = issuer;
          typ = "access";
        })
        else none))
      × (decode_access_token c secret issuer now signed ≡ (
          if claims.typ == "access" && claims.iss == issuer && leb now claims.exp
          then some claims
          else none))
unfolding encode_access_token decode_access_token access_claims
decode_access_token-encode c secret issuer user_id org_id ttl_secs jti issued now token claims
      signed h e s =
    (
      ground (
        arith,
        h.decode-encode secret issuer now (access_claims issuer user_id org_id ttl_secs jti issued)
            token e,
        beq_refl issuer,
      ),
      ground (arith, h.decode-encode secret issuer now claims signed s),
    )
