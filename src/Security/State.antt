-- ===== src/Security/State.antt =====
-- What the services of src/security/service share: `AppState` is what they take from the crates and
-- from the configuration, `Call` what one call finds: its instant, which queries fail, the fresh
-- id and the random bytes. `audit` lists the events that were handed to the recorder, whose result is
-- only logged.
use egras.Prelude.{ℕ, String, Bool, Option, List, [], ◌∷◌, ◌++◌, Result, ok, err, map_err}
use egras.Json.{Value}
use egras.Audit.Model.{AuditEvent, Stamp}
use egras.Auth.Jwt.{Codec, JwtConfig}
use egras.Security.Model.{Db, Query}
use egras.Security.PasswordHash.{Argon2}
use egras.Security.Users.{Text}

abbrev pub nanos : ℕ
nanos = 1000000000

pub record AppState : Type 0 where
  pub text : Text
  pub argon2 : Argon2
  pub sha256_hex : List ℕ → List ℕ
  pub hex_encode : List ℕ → List ℕ
  pub base64_encode : List ℕ → List ℕ
  pub text_of : List ℕ → String
  pub uuid_text : ℕ → String
  pub hex_decode : List ℕ → Option (List ℕ)
  pub uuid_json : ℕ → Value
  pub codec : Codec
  pub jwt_config : JwtConfig
  pub password_reset_ttl_secs : ℕ

pub record Call : Type 0 where
  pub fails : Query → Bool
  pub now : ℕ
  pub stamp : Stamp
  pub id : ℕ
  pub random : List ℕ

pub record World : Type 0 where
  pub db : Db
  pub audit : List AuditEvent

abbrev pub recorded : AuditEvent → World → World
recorded e w = record w { audit = w.audit ++ e ∷ [] }

abbrev pub or_error {ℓ κ μ} : {D : Type ℓ} {E : Type κ} {A : Type μ} → E → Result D A → Result E A
or_error e r = map_err (λ _. e) r

-- The tables after a write that may fail.
abbrev pub after {ℓ} : {E : Type ℓ} → Db → Result E Db → Db
after db (ok db') = db'
after db (err _) = db
