-- ===== src/Auth/Middleware/Logout.antt =====
-- A token that has been logged out, at the layer.
use egras.Prelude.{
  ℕ, String, Bool, true, false, ◌&&◌, ◌*◌, ◌/◌, ◌≤◌, Option, none, some, List, [], ◌∷◌, ◌++◌, any,
  Result, ok, ltb, leb, leb→le, ltb→lt, ◌==◌, ℕ_eq, String_eq, if◌then◌else◌, ◌≡◌, ◌≢◌, ◌↔◌, refl,
  inl, inr, sym, ap, ◌∙◌, Bool-cases, beq_refl, arith,
}
use egras.Json.{Value}
use egras.Features.Evaluate.{EvaluateError}
use egras.Security.ApiKeySecret.{parse}
use egras.Security.Model.{RevokedToken, Query}
use egras.Security.State.{nanos, AppState, Call, World}
use egras.Security.Login.{logout, LogoutError}
use egras.Security.Login.Kept.{logout-revoked_tokens}
use egras.Auth.Permissions.{user, from_codes}
use egras.Auth.Jwt.{Claims, decode_access_token}
use egras.Auth.Middleware.{
  AuthDeps, Request, Forwarded, handle_jwt, x_api_key_token, bearer_token, with_token, call,
}
use egras.Auth.Middleware.Strategies.{Catalogue, pg_load, pg_is_revoked, pg_deps}

any-last {ℓ} :
    {A : Type ℓ} (p q : A → Bool) (x : A) (xs : List A)
    → any q xs ≡ false
    → ((y : A) → p y ≡ true → q y ≡ true)
    → any p (xs ++ x ∷ []) ≡ p x
any-last p q x [] e h = ground arith
any-last p q x (y ∷ ys) e h =
    let below = h y in ground (arith, below, any-last p q x ys (ground arith) h)

-- The second that has come and is not past.
only_second :
    (now exp : ℕ) → leb (now / nanos) exp ≡ true → ltb now (exp * nanos) ≡ false → now / nanos ≡ exp
only_second now exp live due = omega (arith, leb→le (now / nanos) exp live, not_early now exp due)
  where
    not_early : (now exp : ℕ) → ltb now (exp * nanos) ≡ false → exp * nanos ≤ now
    not_early now exp h = ground arith

second_due : (now exp : ℕ) → now / nanos ≡ exp → ltb now (exp * nanos) ≡ false
second_due now exp e = elim (Bool-cases (ltb now (exp * nanos))) [
  | inr due ↦ due
  | inl early ↦ let h = ltb→lt now (exp * nanos) early in absurd (omega arith)
]

module _ (s : AppState) (t : Catalogue) (to_str : List ℕ → Option (List ℕ))
    (evaluate : ℕ → String → Result EvaluateError Value) (c d : Call) (claims : Claims)
    (token : List ℕ) (w : World) where
  -- The tables after the logout, which the handler asks for with the expiry of the token.
  abbrev pub logged_out : Result LogoutError (Unit {0}) × World
  logged_out = logout s c claims.sub claims.org claims.jti (claims.exp * nanos) w

  abbrev pub layer : AuthDeps
  layer = pg_deps s t to_str evaluate d logged_out.1.db

  -- What the layer's three questions answer for the token.
  pub record Answers (codes : List String) : Type 0 where
    pub decoded :
        s.codec.decode s.jwt_config.secret s.jwt_config.issuer (d.now / nanos) token
        ≡ (if leb (d.now / nanos) claims.exp then some claims else none)
    pub access : claims.typ ≡ "access"
    pub works : d.fails Query.is_revoked_query ≡ false
    pub loaded : pg_load t d.fails logged_out.1.db claims.sub claims.org ≡ ok codes

  revoked_answer :
      any (λ (r : RevokedToken). r.jti == claims.jti) w.db.revoked_tokens ≡ false
      → logged_out.0 ≡ ok tt
      → d.fails Query.is_revoked_query ≡ false
      → pg_is_revoked d.fails d.now logged_out.1.db claims.jti ≡ ok (ltb d.now (claims.exp * nanos))
  unfolding pg_is_revoked
  revoked_answer first e works =
      let rows =
        logout-revoked_tokens s c claims.sub claims.org claims.jti (claims.exp * nanos) w first e in
      let new : RevokedToken = record {
        jti = claims.jti;
        user_id = claims.sub;
        expires_at = claims.exp * nanos;
      } in
      let answer =
        any-last (λ (r : RevokedToken). r.jti == claims.jti && ltb d.now r.expires_at)
          (λ (r : RevokedToken). r.jti == claims.jti) new w.db.revoked_tokens first
          (λ r h. ground arith) in
      rw (works, pg_is_revoked, rows, answer) (ground (arith, beq_refl claims.jti))

  abbrev opened : List String → Forwarded
  opened codes = record {
    extensions = record {
      claims = some claims;
      permissions = some (from_codes codes);
      caller = some (user claims.sub claims.org claims.jti);
    };
    touched = none;
  }

  decoded_claims :
      (codes : List String)
      → Answers codes
      → leb (d.now / nanos) claims.exp ≡ true
      → decode_access_token s.codec s.jwt_config.secret s.jwt_config.issuer (d.now / nanos) token
        ≡ some claims
  unfolding decode_access_token
  decoded_claims codes a live =
      let access : (claims.typ == "access") ≡ true = rw a.access refl in
      rw (a.decoded, live) (rw access refl)

  expired_refused :
      (codes : List String) (f : Forwarded)
      → Answers codes
      → leb (d.now / nanos) claims.exp ≡ false
      → handle_jwt layer token ≢ ok f
  unfolding handle_jwt decode_access_token pg_deps
  expired_refused codes f a late e = let dec = a.decoded in ground arith

  revoked_refused :
      (codes : List String) (f : Forwarded)
      → Answers codes
      → leb (d.now / nanos) claims.exp ≡ true
      → pg_is_revoked d.fails d.now logged_out.1.db claims.jti ≡ ok true
      → handle_jwt layer token ≢ ok f
  unfolding handle_jwt pg_deps
  revoked_refused codes f a live revoked e = let dec = decoded_claims codes a live in ground arith

  window_passes :
      (codes : List String)
      → Answers codes
      → leb (d.now / nanos) claims.exp ≡ true
      → pg_is_revoked d.fails d.now logged_out.1.db claims.jti ≡ ok false
      → handle_jwt layer token ≡ ok (opened codes)
  unfolding handle_jwt pg_deps
  window_passes codes a live unrevoked =
      rw (decoded_claims codes a live, handle_jwt, unrevoked, a.loaded) refl

  call-handle_jwt :
      (req : Request)
      → x_api_key_token layer req ≡ none
      → bearer_token layer req ≡ some token
      → parse token ≡ none
      → call layer req ≡ handle_jwt layer token
  unfolding call with_token
  call-handle_jwt req no_key bearer no_parse = rw (no_key, call, bearer, with_token, no_parse) refl

  -- After the first logout of an access token, a request that bears it is let through in one second
  -- only, that of the token's expiry: before it the row of the logout refuses it, and after it the
  -- token itself has expired, but within it the row has expired and the token has not. A token that
  -- no key's form fits, presented alone; the later call finds the row, and meets no fault.
  pub logged_out_iff :
      (codes : List String) (req : Request)
      → any (λ (r : RevokedToken). r.jti == claims.jti) w.db.revoked_tokens ≡ false
      → logged_out.0 ≡ ok tt
      → Answers codes
      → x_api_key_token layer req ≡ none
      → bearer_token layer req ≡ some token
      → parse token ≡ none
      → ((f : Forwarded) × (call layer req ≡ ok f)) ↔ (d.now / nanos ≡ claims.exp)
  logged_out_iff codes req first e a no_key bearer no_parse =
      let same = call-handle_jwt req no_key bearer no_parse in
      let revoked = revoked_answer first e a.works in
      (
        λ p.
            let (f, through) = p in
            let handled : handle_jwt layer token ≡ ok f = sym same ∙ through in
            elim (Bool-cases (leb (d.now / nanos) claims.exp)) [
              | inr late ↦ absurd (expired_refused codes f a late handled)
              | inl live ↦ elim (Bool-cases (ltb d.now (claims.exp * nanos))) [
                | inl early ↦
                    absurd (revoked_refused codes f a live (revoked ∙ ap ok early) handled)
                | inr due ↦ only_second d.now claims.exp live due
              ]
            ],
        λ is_exp.
            let live : leb (d.now / nanos) claims.exp ≡ true = ground arith in
            let due : ltb d.now (claims.exp * nanos) ≡ false = second_due d.now claims.exp is_exp in
            (opened codes, same ∙ window_passes codes a live (revoked ∙ ap ok due)),
      )
