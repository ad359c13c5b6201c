-- ===== src/Features/Handlers/Tests.antt =====
-- A caller who sets a flag of the own organisation.
use egras.Prelude.{true, false, some, [], ◌∷◌, ok, ◌≡◌, refl}
use egras.Json
use egras.Auth.Permissions.{Extensions, user, has, is_operator_over_tenants}
use egras.Auth.Extractors.{AuthedCaller, authed_caller}
use egras.Auth.Tests.{claims}
use egras.Features.Evaluate.{with_ttl}
use egras.Features.Evaluate.Tests.{catalogue, no_faults}
use egras.Features.Service.{World}
use egras.Features.Service.Abroad.{SameAbroad}
use egras.Features.Service.Tests.{fits}
use egras.Features.Handlers.Home.{putting, write, flags_abroad_stay}

abbrev manager : AuthedCaller
manager = record { claims = claims; permissions = record { codes = "features.manage" ∷ [] } }

abbrev parts : Extensions
parts = record {
  claims = some manager.claims;
  permissions = some manager.permissions;
  caller = some (user 7 1 9);
}

abbrev world : World
world = record { db = catalogue; evaluator = with_ttl 60; audit = [] }

is_manager : authed_caller parts ≡ ok manager
unfolding authed_caller
is_manager = refl

is_plain : is_operator_over_tenants manager.permissions ≡ false
unfolding is_operator_over_tenants has
is_plain = refl

flags_abroad_stay_example : SameAbroad 1 world (
    write no_faults
      (λ a b. true)
      5
      (record { id = 1; occurred_at = 4 })
      parts
      1
      "limit"
      (putting fits (Json.number 9))
      world)
flags_abroad_stay_example =
    flags_abroad_stay no_faults (λ a b. true) 5 (record { id = 1; occurred_at = 4 }) parts 1 "limit"
      manager (putting fits (Json.number 9)) world is_manager is_plain
