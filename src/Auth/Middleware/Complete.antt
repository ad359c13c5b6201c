-- ===== src/Auth/Middleware/Complete.antt =====
-- Everything that the specification lets through is let through.
use egras.Prelude.{
  ℕ, String, true, none, List, [], ◌∷◌, any, ok, ◌≡◌, ◌⊎◌, ◌↔◌, inl, inr, refl, ◌∙◌, arith,
  Option-cases, ◌==◌, String_eq, beq_refl, beq_iff, bytes,
}
use egras.Json
use egras.Json.{Value, items, as_array, as_str}
use egras.Security.ApiKeySecret.{ParsedKey, parse}
use egras.Security.ApiKeySecret.Splitting.{strip_prefix_append}
use egras.Security.ApiKeySecret.RoundTrip.{IsKey, render, parse_iff}
use egras.Auth.Jwt.{decode_access_token}
use egras.Auth.Middleware.{
  HeaderSource, x_api_key, authorization_bearer, slug, AuthDeps, Request, Forwarded, strings_of,
  handle_api_key, handle_jwt, x_api_key_token, bearer_token, with_token, call,
}
use egras.Auth.Middleware.Spec.{Presents, in_x_api_key, in_authorization, HoldsText, ByKey, ByJwt}
use egras.Auth.Middleware.Sound.{call_sound}

any-strings_of_complete :
    (s : String) (vs : List Value) → HoldsText s vs → any (λ h. h == s) (strings_of vs) ≡ true
unfolding strings_of
any-strings_of_complete s [] h = absurd h
any-strings_of_complete s (v ∷ vs) (inl same) = rw same (ground (arith, beq_refl s))
any-strings_of_complete s (Json.string t ∷ vs) (inr h) =
    ground (arith, any-strings_of_complete s vs h)
any-strings_of_complete s (v ∷ vs) (inr h) = any-strings_of_complete s vs h

module _ (deps : AuthDeps) (req : Request) where
  -- `call` tries the token that the request presents.
  call_presented :
      (token : List ℕ) (source : HeaderSource)
      → Presents deps req token source
      → call deps req ≡ with_token deps token source
  unfolding call x_api_key_token bearer_token
  call_presented token x_api_key (in_x_api_key v present read) = ground arith
  call_presented token authorization_bearer (in_authorization v u present read) =
      ground (arith, strip_prefix_append (bytes "Bearer ") token)

  handle_api_key_complete :
      (f : Forwarded) (b : ByKey deps req f) → handle_api_key deps b.key b.source ≡ ok f
  unfolding handle_api_key
  handle_api_key_complete f b =
      let listed = any-strings_of_complete (slug b.source) (items b.headers) b.listed in
      ground (arith, b.proved, b.flag, b.loaded, b.result, listed)

  with_token_key :
      (key : ParsedKey) (source : HeaderSource)
      → IsKey key
      → with_token deps (render key) source ≡ handle_api_key deps key source
  unfolding with_token
  with_token_key key x_api_key k = rw ((parse_iff (render key) key).1 (k, refl), with_token)
  with_token_key key authorization_bearer k =
      rw ((parse_iff (render key) key).1 (k, refl), with_token)

  call-ByKey : (f : Forwarded) → ByKey deps req f → call deps req ≡ ok f
  call-ByKey f b =
      call_presented (render b.key) b.source b.presented
      ∙ with_token_key b.key b.source b.well_formed
      ∙ handle_api_key_complete f b

  pub parse_of_no_key :
      (token : List ℕ)
      → ((key : ParsedKey) → IsKey key → ¬ (token ≡ render key))
      → parse token ≡ none
  parse_of_no_key token h = elim (Option-cases (parse token)) [
    | inl plain ↦ plain
    | inr (key, parsed) ↦ let (k, same) = (parse_iff token key).0 parsed in absurd (h key k same)
  ]

  handle_jwt_complete : (f : Forwarded) (b : ByJwt deps req f) → handle_jwt deps b.token ≡ ok f
  unfolding handle_jwt decode_access_token
  handle_jwt_complete f b =
      ground (arith, b.decoded, b.access, b.live, b.loaded, b.result, beq_iff b.claims.typ "access")

  with_token_plain :
      (token : List ℕ)
      → parse token ≡ none
      → with_token deps token authorization_bearer ≡ handle_jwt deps token
  unfolding with_token
  with_token_plain token plain = rw (plain, with_token)

  call-ByJwt : (f : Forwarded) → ByJwt deps req f → call deps req ≡ ok f
  call-ByJwt f b =
      call_presented b.token authorization_bearer b.presented
      ∙ with_token_plain b.token (parse_of_no_key b.token b.no_key)
      ∙ handle_jwt_complete f b

  -- A request reaches the inner service, with some extensions, exactly when it presents a valid
  -- access token or a valid API key that give just those extensions: `X-API-Key` is read before
  -- `Authorization`, a key counts only through a header that its organisation allows, and a token
  -- that has the form of a key is never tried as an access token.
  pub call_iff : (f : Forwarded) → (call deps req ≡ ok f) ↔ (ByJwt deps req f ⊎ ByKey deps req f)
  call_iff f =
      (call_sound deps req f, λ h. elim h [ inl b ↦ call-ByJwt f b | inr b ↦ call-ByKey f b ])
