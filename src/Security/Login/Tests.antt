-- ===== src/Security/Login/Tests.antt =====
-- A login that goes through.
use egras.Prelude.{◌*◌, [], ◌∷◌, ok, ◌≡◌, ◌↔◌, refl, bytes}
use egras.Security.Tests.{app, call_at, membership, world}
use egras.Security.State.{nanos}
use egras.Security.Tokens.{revoke}
use egras.Security.Login.{LoginInput, LoginOutput, login, logout}
use egras.Security.Login.Sound.{LogsIn, login-ok_iff}

abbrev input : LoginInput
input = record { username_or_email = "ada"; password = bytes "first password" }

abbrev answer : LoginOutput
answer = record {
  token = 7 ∷ 1 ∷ 1001 ∷ 1061 ∷ 2 ∷ [];
  user_id = 7;
  active_org_id = 1;
  memberships = membership ∷ [];
}

login-ok_iff_example :
    ((login app (call_at 1001 2) input world).0 ≡ ok answer)
    ↔ LogsIn app (call_at 1001 2) input world.db answer
login-ok_iff_example = login-ok_iff app (call_at 1001 2) input world answer refl refl

pub logout_goes_through :
    ((logout app (call_at 1010 2) 7 1 9 (1060 * nanos) world).0 ≡ ok tt)
    × ((logout app (call_at 1010 2) 7 1 9 (1060 * nanos) world).1.db.memberships
        ≡ world.db.memberships)
unfolding logout revoke
logout_goes_through = (refl, refl)
