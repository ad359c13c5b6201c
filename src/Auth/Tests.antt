-- ===== src/Auth/Tests.antt =====
-- Tokens under a codec that satisfies what is asked of the crate's, and an extension's checks.
use egras.Prelude.{
  ℕ, String, none, some, Option, List, [], ◌∷◌, ◌≡◌, refl, ◌&&◌, leb, ◌==◌, String_eq,
  if◌then◌else◌, arith, beq_iff,
}
use egras.Auth.Jwt.{
  Claims, Codec, IsCodec, access_claims, encode_access_token, decode_access_token,
  decode_access_token-encode,
}

-- The five numbers of the claims of one issuer's access tokens.
unfoldable pub encode : String → Claims → Option (List ℕ)
encode secret c =
    if c.iss == "egras" && c.typ == "access"
    then some (c.sub ∷ c.org ∷ c.iat ∷ c.exp ∷ c.jti ∷ [])
    else none

unfoldable pub decode : String → String → ℕ → List ℕ → Option Claims
decode secret issuer now (sub ∷ org ∷ iat ∷ exp ∷ jti ∷ []) =
    if issuer == "egras" && leb now exp
    then some (record {
      sub = sub;
      org = org;
      iat = iat;
      exp = exp;
      jti = jti;
      iss = "egras";
      typ = "access";
    })
    else none
decode secret issuer now _ = none

abbrev pub codec : Codec
codec = record { encode = encode; decode = decode }

pub codec-IsCodec : IsCodec codec
unfolding encode decode
codec-IsCodec = record {
  decode-encode = λ secret issuer now claims token h.
      let iss : claims.iss ≡ "egras" = ground (arith, beq_iff claims.iss "egras") in
      let typ : claims.typ ≡ "access" = ground (arith, beq_iff claims.typ "access") in
      let form : token ≡ claims.sub ∷ claims.org ∷ claims.iat ∷ claims.exp ∷ claims.jti ∷ [] =
        ground arith in
      rw form (ground (arith, iss, typ, beq_iff issuer "egras", beq_iff claims.iss issuer));
}

encoded :
    encode_access_token codec "key" "egras" 7 1 60 9 1000 ≡ some (7 ∷ 1 ∷ 1000 ∷ 1060 ∷ 9 ∷ [])
unfolding encode_access_token encode access_claims
encoded = refl

abbrev pub claims : Claims
claims = record { sub = 7; org = 1; iat = 1000; exp = 1060; jti = 9; iss = "egras"; typ = "access" }

signed : codec.encode "key" claims ≡ some (7 ∷ 1 ∷ 1000 ∷ 1060 ∷ 9 ∷ [])
unfolding encode
signed = refl

decode_access_token-encode_example :
    (decode_access_token codec "key" "egras" 1060 (7 ∷ 1 ∷ 1000 ∷ 1060 ∷ 9 ∷ []) ≡ some claims)
    × (decode_access_token codec "key" "egras" 1060 (7 ∷ 1 ∷ 1000 ∷ 1060 ∷ 9 ∷ []) ≡ some claims)
decode_access_token-encode_example =
    decode_access_token-encode codec "key" "egras" 7 1 60 9 1000 1060 (7 ∷ 1 ∷ 1000 ∷ 1060 ∷ 9 ∷ [])
      claims (7 ∷ 1 ∷ 1000 ∷ 1060 ∷ 9 ∷ []) codec-IsCodec encoded signed
