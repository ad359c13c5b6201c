-- ===== src/Security/ApiKeySecret/RoundTrip.antt =====
-- `parse` accepts exactly the wire format, and reads back what `generate` writes.
use egras.Prelude.{
  ℕ, true, some, List, [], ◌∷◌, ◌++◌, length, all, ℕ_eq, ◌≡◌, ◌≢◌, ◌↔◌, sym, ◌∙◌, ap, arith,
  Option-cases, inl, inr, bytes,
}
use egras.Security.ApiKeySecret.{
  ParsedKey, strip_prefix, split_once, splitn, parse_parts, parse, is_ascii_hexdigit, egras_prefix,
  generate,
}
use egras.Security.ApiKeySecret.Splitting.{
  strip_prefix_append, strip_prefix_sound, Lacks, split_once_append, split_once_sound, Lacks-of_hex,
}

-- `egras_<env>_<prefix>_<secret>`
abbrev pub render : ParsedKey → List ℕ
render k = bytes "egras_" ++ (k.env ++ (b'_' ∷ (k.prefix ++ (b'_' ∷ k.secret))))

-- The environment has no underscore, the prefix is eight hexadecimal digits, and the secret, in
-- which underscores may stand, is not empty.
pub record IsKey (k : ParsedKey) : Type 0 where
  pub env : Lacks b'_' k.env
  pub length : length k.prefix ≡ 8
  pub digits : all is_ascii_hexdigit k.prefix ≡ true
  pub secret : k.secret ≢ []

parse_parts_sound :
    (env prefix secret : List ℕ) (k : ParsedKey)
    → parse_parts (env ∷ prefix ∷ secret ∷ []) ≡ some k
    → (k ≡ record { env = env; prefix = prefix; secret = secret })
      × (length prefix ≡ 8)
      × (all is_ascii_hexdigit prefix ≡ true)
      × (secret ≢ [])
unfolding parse_parts
parse_parts_sound env prefix [] k h = absurd (ground arith)
parse_parts_sound env prefix (c ∷ secret) k h = (ground arith, ground arith, ground arith, λ e. cc)

splitn_sound :
    (body : List ℕ) (k : ParsedKey)
    → parse_parts (splitn 3 b'_' body) ≡ some k
    → IsKey k × (body ≡ k.env ++ (b'_' ∷ (k.prefix ++ (b'_' ∷ k.secret))))
unfolding splitn
splitn_sound body k h = elim (Option-cases (split_once b'_' body)) [
  | inl whole ↦ absurd (unfold parse_parts in ground arith)
  | inr ((env, rest), first) ↦ elim (Option-cases (split_once b'_' rest)) [
    | inl one ↦ absurd (unfold parse_parts in ground arith)
    | inr ((prefix, secret), second) ↦
        let (same, eight, digits, some_secret) =
          parse_parts_sound env prefix secret k (ground arith) in
        let (lacks, body_eq) = split_once_sound b'_' body env rest first in
        let (_, rest_eq) = split_once_sound b'_' rest prefix secret second in
        rw same (
          record { env = lacks; length = eight; digits = digits; secret = some_secret },
          rw (body_eq, rest_eq),
        )
  ]
]

parse_of_body :
    (s body : List ℕ)
    → strip_prefix egras_prefix s ≡ some body
    → parse s ≡ parse_parts (splitn 3 b'_' body)
unfolding parse
parse_of_body s body h = rw (h, parse)

parse_sound : (s : List ℕ) (k : ParsedKey) → parse s ≡ some k → IsKey k × (s ≡ render k)
parse_sound s k h = elim (Option-cases (strip_prefix egras_prefix s)) [
  | inl missing ↦ absurd (unfold parse in ground arith)
  | inr (body, found) ↦
      let (key, same) = splitn_sound body k (sym (parse_of_body s body found) ∙ h) in
      (
        key,
        strip_prefix_sound egras_prefix s body found ∙ ap (λ (r : List ℕ). egras_prefix ++ r) same,
      )
]

splitn_complete :
    (k : ParsedKey)
    → IsKey k
    → splitn 3 b'_' (k.env ++ (b'_' ∷ (k.prefix ++ (b'_' ∷ k.secret))))
      ≡ k.env ∷ k.prefix ∷ k.secret ∷ []
unfolding splitn
splitn_complete k h = ground (
  arith,
  split_once_append b'_' k.env (k.prefix ++ (b'_' ∷ k.secret)) h.env,
  split_once_append b'_' k.prefix k.secret (Lacks-of_hex k.prefix h.digits),
)

parse_parts_complete :
    (k : ParsedKey) → IsKey k → parse_parts (k.env ∷ k.prefix ∷ k.secret ∷ []) ≡ some k
unfolding parse_parts
parse_parts_complete k h = ground arith

parse_complete : (k : ParsedKey) → IsKey k → parse (render k) ≡ some k
parse_complete k h =
    let body : List ℕ = k.env ++ (b'_' ∷ (k.prefix ++ (b'_' ∷ k.secret))) in
    parse_of_body (render k) body (strip_prefix_append egras_prefix body)
    ∙ ap parse_parts (splitn_complete k h)
    ∙ parse_parts_complete k h

-- `parse` succeeds exactly on the texts `egras_<env>_<prefix>_<secret>` with no underscore in the
-- environment, a prefix of eight hexadecimal digits and a secret that is not empty; the three
-- parts are the only ones that the text can be read as.
pub parse_iff : (s : List ℕ) (k : ParsedKey) → (parse s ≡ some k) ↔ (IsKey k × (s ≡ render k))
parse_iff s k = (parse_sound s k, λ h. rw h.1 (parse_complete k h.0))

module _ (hex_encode base64_encode : List ℕ → List ℕ) where
  -- With the hex encoding of the four random bytes eight hexadecimal digits long, and the base64
  -- encoding of the other bytes not empty, `parse` reads the plaintext of a generated key back as
  -- the environment `live` with the prefix and the secret that are stored.
  pub parse-generate :
      (prefix_bytes secret_bytes : List ℕ)
      → length (hex_encode prefix_bytes) ≡ 8
      → all is_ascii_hexdigit (hex_encode prefix_bytes) ≡ true
      → base64_encode secret_bytes ≢ []
      → let g = generate hex_encode base64_encode prefix_bytes secret_bytes in
        parse g.plaintext
        ≡ some (record { env = bytes "live"; prefix = g.prefix; secret = g.secret })
  unfolding generate
  parse-generate prefix_bytes secret_bytes eight digits nonempty =
      parse_complete
        (record {
          env = bytes "live";
          prefix = hex_encode prefix_bytes;
          secret = base64_encode secret_bytes;
        })
        (record { env = omega arith; length = eight; digits = digits; secret = nonempty })
