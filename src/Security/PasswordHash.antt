-- ===== src/Security/PasswordHash.antt =====
-- src/security/service/password_hash.rs. `Argon2` is the argon2 crate: its hash with the three costs,
-- a salt and a password, whether a text is a hash of its format, and its check of a password.
use egras.Prelude.{
  ℕ, Bool, true, false, ◌||◌, not, Option, none, some, List, [], ◌∷◌, Result, ok, err, ok_or,
  if◌then◌else◌, bytes, ◌≡◌, arith,
}
use egras.Security.ApiKeySecret.{strip_prefix}
use egras.Security.Model.{Failure, failure}

pub data Verified : Type 0 where
  matched wrong_password other_error : Verified

pub record Argon2 : Type 0 where
  pub hash : ℕ → ℕ → ℕ → List ℕ → List ℕ → Option (List ℕ)
  pub is_hash : List ℕ → Bool
  pub verify : List ℕ → List ℕ → Verified

-- What the crate documents: a hash that it made is one of its format, and the password matches it.
pub record IsArgon2 (a : Argon2) : Type 0 where
  pub reads :
      (m t p : ℕ) (salt password h : List ℕ)
      → a.hash m t p salt password ≡ some h
      → a.is_hash h ≡ true
  pub matches :
      (m t p : ℕ) (salt password h : List ℕ)
      → a.hash m t p salt password ≡ some h
      → a.verify password h ≡ matched

abbrev m_cost : ℕ
m_cost = 19456

abbrev t_cost : ℕ
t_cost = 2

abbrev p_cost : ℕ
p_cost = 1

abbrev expected_params_fragment : List ℕ
expected_params_fragment = bytes "m=19456,t=2,p=1"

is_prefix : List ℕ → List ℕ → Bool
unfolding strip_prefix
is_prefix needle s = elim (strip_prefix needle s) [ none ↦ false | some _ ↦ true ]

-- `str::contains`
contains_text : List ℕ → List ℕ → Bool
unfolding is_prefix
contains_text needle [] = is_prefix needle []
contains_text needle (c ∷ s) = is_prefix needle (c ∷ s) || contains_text needle s

pub needs_rehash : List ℕ → Bool
unfolding contains_text
needs_rehash hash = not (contains_text expected_params_fragment hash)

abbrev outcome : Verified → Result Failure Bool
outcome matched = ok true
outcome wrong_password = ok false
outcome other_error = err failure

module _ (a : Argon2) where
  unfoldable pub hash_password : List ℕ → List ℕ → Result Failure (List ℕ)
  hash_password salt password = ok_or (a.hash m_cost t_cost p_cost salt password) failure

  unfoldable pub verify_password : List ℕ → List ℕ → Result Failure Bool
  verify_password password hash =
      if a.is_hash hash then outcome (a.verify password hash) else err failure

  -- A password matches its own hash.
  pub verify-hash :
      (salt password h : List ℕ)
      → IsArgon2 a
      → hash_password salt password ≡ ok h
      → verify_password password h ≡ ok true
  unfolding hash_password verify_password
  verify-hash salt password h law e = ground (
    arith,
    law.reads m_cost t_cost p_cost salt password h,
    law.matches m_cost t_cost p_cost salt password h,
  )
