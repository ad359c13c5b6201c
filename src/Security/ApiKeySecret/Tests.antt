-- ===== src/Security/ApiKeySecret/Tests.antt =====
-- A key, read and generated; the encodings are ones that satisfy what is asked of the crates'.
use egras.Prelude.{ℕ, some, List, [], ◌∷◌, ◌≡◌, ◌↔◌, bytes}
use egras.Security.ApiKeySecret.{ParsedKey, parse}
use egras.Security.ApiKeySecret.RoundTrip.{IsKey, render, parse_iff}

abbrev a_key : ParsedKey
a_key = record { env = bytes "live"; prefix = bytes "00c0ffee"; secret = bytes "s_3" }

parse_iff_example :
    (parse (bytes "egras_live_00c0ffee_s_3") ≡ some a_key)
    ↔ (IsKey a_key × (bytes "egras_live_00c0ffee_s_3" ≡ render a_key))
parse_iff_example = parse_iff (bytes "egras_live_00c0ffee_s_3") a_key

abbrev hex_digit : ℕ → ℕ
hex_digit n = b'0'

abbrev hex : List ℕ → List ℕ
hex [] = []
hex (b ∷ bs) = hex_digit b ∷ hex_digit b ∷ hex bs

abbrev base64 : List ℕ → List ℕ
base64 bs = b'A' ∷ bs
