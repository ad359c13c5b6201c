-- ===== src/Security/ApiKeySecret/Splitting.antt =====
-- What the string functions of `parse` find, as equations between texts.
use egras.Prelude.{
  ℕ, true, some, List, [], ◌∷◌, ◌++◌, all, All, ◌==◌, ℕ_eq, ◌≡◌, ◌≢◌, refl, ap, arith, Bool-cases,
  Option-cases, inl, inr,
}
use egras.Security.ApiKeySecret.{strip_prefix, split_once, is_ascii_hexdigit}

pub strip_prefix_append : (p s : List ℕ) → strip_prefix p (p ++ s) ≡ some s
unfolding strip_prefix
strip_prefix_append [] s = refl
strip_prefix_append (c ∷ p) s = ground (arith, strip_prefix_append p s)

pub strip_prefix_sound : (p s rest : List ℕ) → strip_prefix p s ≡ some rest → s ≡ p ++ rest
unfolding strip_prefix
strip_prefix_sound [] s rest h = ground arith
strip_prefix_sound (c ∷ p) [] rest h = cc
strip_prefix_sound (c ∷ p) (d ∷ s) rest h = ground (arith, strip_prefix_sound p s rest)

-- The text does not hold the separator.
abbrev pub Lacks : ℕ → List ℕ → Type 0
Lacks sep s = All (λ c. c ≢ sep) s

pub split_once_append :
    (sep : ℕ) (a b : List ℕ) → Lacks sep a → split_once sep (a ++ (sep ∷ b)) ≡ some (a, b)
unfolding split_once
split_once_append sep [] b h = ground arith
split_once_append sep (c ∷ a) b (p, h) = ground (arith, split_once_append sep a b h)

pub split_once_sound :
    (sep : ℕ) (s a b : List ℕ) → split_once sep s ≡ some (a, b) → Lacks sep a × (s ≡ a ++ (sep ∷ b))
unfolding split_once
split_once_sound sep [] a b h = absurd (ground arith)
split_once_sound sep (c ∷ s) a b h = elim (Bool-cases (c == sep)) [
  | inl here ↦ let first : [] ≡ a = ground arith in rw (← first) (tt, ground arith)
  | inr later ↦ elim (Option-cases (split_once sep s)) [
    | inl missing ↦ absurd (ground arith)
    | inr ((x, y), found) ↦
        let (lacks, same) = split_once_sound sep s x y found in
        let first : c ∷ x ≡ a = ground arith in
        let second : y ≡ b = ground arith in
        rw (← first, ← second) ((ground arith, lacks), ap (λ (r : List ℕ). c ∷ r) same)
  ]
]

-- A hexadecimal digit is not the separator.
pub Lacks-of_hex : (s : List ℕ) → all is_ascii_hexdigit s ≡ true → Lacks b'_' s
unfolding is_ascii_hexdigit
Lacks-of_hex [] h = tt
Lacks-of_hex (c ∷ s) h = (λ e. ground arith, Lacks-of_hex s (ground arith))
