-- ===== src/Security/Accounts/Tests.antt =====
-- Two service accounts, by pages of one.
use egras.Prelude.{some, none, [], ◌∷◌, All, sort_by, any, true, ok, ◌≡◌, ◌≢◌, refl, arith}
use egras.Security.Model.{ServiceAccount, Db}
use egras.Security.ServiceAccounts.{account_id, list}
use egras.Security.Tests.{call_at, account, world}
use egras.Security.Accounts.{ListServiceAccountsOutput, list_service_accounts}
use egras.Security.Accounts.Skipping.{key_of, has_key, page_skips}

abbrev second : ServiceAccount
second = record account { user_id = 9; name = "second"; created_at = 4 }

abbrev two_accounts : Db
two_accounts = record world.db { service_accounts = account ∷ second ∷ [] }

abbrev first_page : ListServiceAccountsOutput
first_page = record { items = account ∷ []; next_cursor = some (4, 9) }

abbrev last_page : ListServiceAccountsOutput
last_page = record { items = []; next_cursor = none }

first_made : list_service_accounts (call_at 1000 1) 1 1 none two_accounts ≡ ok first_page
unfolding list_service_accounts list sort_by
first_made = refl

last_made : list_service_accounts (call_at 1000 1) 1 1 (some (4, 9)) two_accounts ≡ ok last_page
unfolding list_service_accounts list sort_by
last_made = refl

page_skips_example :
    (any (has_key 1 (4, 9)) two_accounts.service_accounts ≡ true)
    × All (λ a. account_id a ≢ 9) first_page.items
    × All (λ a. key_of a ≢ (4, 9)) last_page.items
page_skips_example =
    page_skips (call_at 1000 1) 1 1 two_accounts none (4, 9) first_page last_page
      ((λ e. omega arith, tt), (tt, tt)) first_made refl last_made
