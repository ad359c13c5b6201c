-- ===== src/Pagination.antt =====
-- src/pagination.rs: opaque cursors. `Format` is what the source takes from the crates: serde_json's
-- bytes of a value and its reading of them, and base64's text of bytes and its reading of that.
use egras.Prelude.{ℕ, Option, none, some, List, ◌≡◌}

pub record Format {ℓ} (A : Type ℓ) : Type ℓ where
  pub to_vec : A → List ℕ
  pub from_slice : List ℕ → Option A
  pub base64_encode : List ℕ → List ℕ
  pub base64_decode : List ℕ → Option (List ℕ)

-- What the crates document: each reading undoes its writing.
pub record IsFormat {ℓ} {A : Type ℓ} (f : Format A) : Type ℓ where
  pub from_slice-to_vec : (x : A) → f.from_slice (f.to_vec x) ≡ some x
  pub decode-encode64 : (bs : List ℕ) → f.base64_decode (f.base64_encode bs) ≡ some bs

module _ {ℓ} {A : Type ℓ} (f : Format A) where
  pub encode : A → List ℕ
  encode value = f.base64_encode (f.to_vec value)

  -- `none` is a `CursorDecodeError`.
  pub decode : List ℕ → Option A
  decode raw = elim (f.base64_decode raw) [ none ↦ none | some bs ↦ f.from_slice bs ]

  -- A cursor is read back as what was written.
  pub decode-encode : IsFormat f → (value : A) → decode (encode value) ≡ some value
  unfolding encode decode
  decode-encode law value =
      rw (law.decode-encode64 (f.to_vec value), decode) (law.from_slice-to_vec value)
