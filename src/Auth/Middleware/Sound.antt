-- ===== src/Auth/Middleware/Sound.antt =====
-- Nothing is let through but by the specification.
use egras.Prelude.{
  ℕ, String, true, false, none, some, List, [], ◌∷◌, any, ok, ◌≡◌, ◌⊎◌, inl, inr, ◌∙◌, ap, arith,
  Option-cases, Result-cases, Bool-cases, ◌==◌, String_eq, beq_iff, bytes,
}
use egras.Json
use egras.Json.{Value, items, as_array, as_str}
use egras.Security.ApiKeySecret.{ParsedKey, parse}
use egras.Security.ApiKeySecret.Splitting.{strip_prefix_sound}
use egras.Security.ApiKeySecret.RoundTrip.{IsKey, render, parse_iff}
use egras.Auth.Jwt.{decode_access_token}
use egras.Auth.Middleware.{
  HeaderSource, x_api_key, authorization_bearer, slug, AuthDeps, Request, Forwarded, strings_of,
  handle_api_key, handle_jwt, x_api_key_token, bearer_token, with_token, call,
}
use egras.Auth.Middleware.Spec.{
  IsUnreadable, Presents, in_x_api_key, in_authorization, HoldsText, ByKey, ByJwt,
}

any-strings_of_sound :
    (s : String) (vs : List Value) → any (λ h. h == s) (strings_of vs) ≡ true → HoldsText s vs
unfolding strings_of
any-strings_of_sound s [] h = cc
any-strings_of_sound s (Json.string t ∷ vs) h =
    ground (arith, beq_iff t s, any-strings_of_sound s vs)
any-strings_of_sound s (v ∷ vs) h = inr (any-strings_of_sound s vs h)

module _ (deps : AuthDeps) (req : Request) where
  x_api_key_token_sound :
      (token : List ℕ) → x_api_key_token deps req ≡ some token → Presents deps req token x_api_key
  unfolding x_api_key_token
  x_api_key_token_sound token h = elim (Option-cases req.x_api_key) [
    | inl absent ↦ absurd (ground arith)
    | inr (v, present) ↦ in_x_api_key v present (ground arith)
  ]

  x_api_key_token-none : x_api_key_token deps req ≡ none → IsUnreadable deps req.x_api_key
  unfolding x_api_key_token
  x_api_key_token-none h = elim (Option-cases req.x_api_key) [
    | inl absent ↦ inl absent
    | inr (v, present) ↦ inr (v, present, ground arith)
  ]

  bearer_token_sound :
      (token : List ℕ)
      → IsUnreadable deps req.x_api_key
      → bearer_token deps req ≡ some token
      → Presents deps req token authorization_bearer
  unfolding bearer_token
  bearer_token_sound token u h = elim (Option-cases req.authorization) [
    | inl absent ↦ absurd (ground arith)
    | inr (v, present) ↦ elim (Option-cases (deps.to_str v)) [
      | inl opaque ↦ absurd (ground arith)
      | inr (text, read) ↦
          in_authorization v u present
            (read ∙ ap some (strip_prefix_sound (bytes "Bearer ") text token (ground arith)))
    ]
  ]

  handle_api_key_sound :
      (key : ParsedKey) (source : HeaderSource) (f : Forwarded)
      → IsKey key
      → Presents deps req (render key) source
      → handle_api_key deps key source ≡ ok f
      → ByKey deps req f
  unfolding handle_api_key
  handle_api_key_sound key source f k p h =
      elim (Result-cases (deps.verify key.prefix key.secret)) [
        | inr (e, failed) ↦ absurd (ground arith)
        | inl (none, unknown) ↦ absurd (ground arith)
        | inl (some verified, proved) ↦
            elim (Result-cases (deps.evaluate verified.organisation_id "auth.api_key_headers")) [
              | inr (e, failed) ↦ absurd (ground arith)
              | inl (Json.array headers, flag) ↦
                  elim (Result-cases (deps.load verified.sa_user_id verified.organisation_id)) [
                    | inr (e, failed) ↦ absurd (ground arith)
                    | inl (codes, loaded) ↦ record {
                      source = source;
                      key = key;
                      well_formed = k;
                      presented = p;
                      verified = verified;
                      proved = proved;
                      headers = headers;
                      flag = flag;
                      listed = any-strings_of_sound (slug source) (items headers) (ground arith);
                      codes = codes;
                      loaded = loaded;
                      result = ground arith;
                    }
                  ]
              | inl (v, flag) ↦ absurd (ground arith)
            ]
      ]

  handle_jwt_sound :
      (token : List ℕ) (f : Forwarded)
      → Presents deps req token authorization_bearer
      → parse token ≡ none
      → handle_jwt deps token ≡ ok f
      → ByJwt deps req f
  unfolding handle_jwt decode_access_token
  handle_jwt_sound token f p plain h =
      elim (Option-cases (deps.codec.decode deps.secret deps.issuer deps.now token)) [
        | inl bad ↦ absurd (ground arith)
        | inr (claims, decoded) ↦ elim (Bool-cases (claims.typ == "access")) [
          | inr other ↦ absurd (ground arith)
          | inl access ↦ elim (Result-cases (deps.is_revoked claims.jti)) [
            | inr (e, failed) ↦ absurd (ground arith)
            | inl (true, revoked) ↦ absurd (ground arith)
            | inl (false, live) ↦ elim (Result-cases (deps.load claims.sub claims.org)) [
              | inr (e, failed) ↦ absurd (ground arith)
              | inl (codes, loaded) ↦ record {
                token = token;
                presented = p;
                no_key = λ key k same. cc (plain, (parse_iff token key).1 (k, same));
                claims = claims;
                decoded = decoded;
                access = (beq_iff claims.typ "access").0 access;
                live = live;
                codes = codes;
                loaded = loaded;
                result = ground arith;
              }
            ]
          ]
        ]
      ]

  with_key :
      (token : List ℕ) (key : ParsedKey) (source : HeaderSource) (f : Forwarded)
      → Presents deps req token source
      → parse token ≡ some key
      → handle_api_key deps key source ≡ ok f
      → ByKey deps req f
  with_key token key source f p parsed h =
      let (k, same) = (parse_iff token key).0 parsed in
      handle_api_key_sound key source f k (rw same at p) h

  with_token_sound :
      (token : List ℕ) (source : HeaderSource) (f : Forwarded)
      → Presents deps req token source
      → with_token deps token source ≡ ok f
      → ByJwt deps req f ⊎ ByKey deps req f
  unfolding with_token
  with_token_sound token x_api_key f p h = elim (Option-cases (parse token)) [
    | inl plain ↦ absurd (ground arith)
    | inr (key, parsed) ↦
        inr (with_key token key x_api_key f p parsed (rw (parsed, with_token) at h))
  ]
  with_token_sound token authorization_bearer f p h = elim (Option-cases (parse token)) [
    | inl plain ↦ inl (handle_jwt_sound token f p plain (rw (plain, with_token) at h))
    | inr (key, parsed) ↦
        inr (with_key token key authorization_bearer f p parsed (rw (parsed, with_token) at h))
  ]

  pub call_sound : (f : Forwarded) → call deps req ≡ ok f → ByJwt deps req f ⊎ ByKey deps req f
  unfolding call
  call_sound f h = elim (Option-cases (x_api_key_token deps req)) [
    | inr (token, present) ↦
        with_token_sound token x_api_key f (x_api_key_token_sound token present)
          (rw (present, call) at h)
    | inl absent ↦ elim (Option-cases (bearer_token deps req)) [
      | inl missing ↦ absurd (ground arith)
      | inr (token, present) ↦
          with_token_sound token authorization_bearer f
            (bearer_token_sound token (x_api_key_token-none absent) present)
            (rw (absent, present, call) at h)
    ]
  ]
