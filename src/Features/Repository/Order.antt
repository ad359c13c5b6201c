-- ===== src/Features/Repository/Order.antt =====
-- What `ORDER BY slug ASC` does to the rows, for a collation that orders the slugs.
use egras.Prelude.{
  String, Bool, true, false, List, [], ◌∷◌, map, count, All, ok, ◌≡◌, refl, ap, arith, ◌==◌, ◌∙◌,
  String_eq, Bool-cases, Option-cases, Result-cases, inl, inr,
}
use egras.Features.Model.{FeatureDefinition, try_from_str}
use egras.Features.Repository.{
  Db, Query, DefinitionRow, of_rows, insert_by_slug, order_by_slug, list_definitions,
}

-- A collation is a strict order of the texts, in which texts may also rank the same.
pub record IsCollation (before : String → String → Bool) : Type 0 where
  pub asymmetric : (s t : String) → before s t ≡ true → before t s ≡ false
  pub not_before-trans :
      (s t u : String) → before s t ≡ false → before t u ≡ false → before s u ≡ false

-- No slug comes after one that it should come before.
abbrev pub IsOrdered : (String → String → Bool) → List String → Type 0
IsOrdered before [] = Unit
IsOrdered before (s ∷ slugs) = All (λ t. before t s ≡ false) slugs × IsOrdered before slugs

module _ {ℓ} {R : Type ℓ} (before : String → String → Bool) (slug_of : R → String) where
  count-insert_by_slug :
      (p : R → Bool) (r : R) (rows : List R)
      → count p (insert_by_slug before slug_of r rows) ≡ count p (r ∷ rows)
  unfolding insert_by_slug
  count-insert_by_slug p r [] = refl
  count-insert_by_slug p r (s ∷ rows) = ground (arith, count-insert_by_slug p r rows)

  count-order_by_slug :
      (p : R → Bool) (rows : List R) → count p (order_by_slug before slug_of rows) ≡ count p rows
  unfolding order_by_slug
  count-order_by_slug p [] = refl
  count-order_by_slug p (r ∷ rows) = ground (
    arith,
    count-insert_by_slug p r (order_by_slug before slug_of rows),
    count-order_by_slug p rows,
  )

  All-insert_by_slug :
      (P : String → Type 0) (r : R) (rows : List R)
      → P (slug_of r)
      → All P (map slug_of rows)
      → All P (map slug_of (insert_by_slug before slug_of r rows))
  unfolding insert_by_slug
  All-insert_by_slug P r [] p h = (p, tt)
  All-insert_by_slug P r (s ∷ rows) p (q, h) = elim (Bool-cases (before (slug_of s) (slug_of r))) [
    | inl first ↦ rw first (q, All-insert_by_slug P r rows p h)
    | inr last ↦ rw last (p, (q, h))
  ]

  module _ (collation : IsCollation before) where
    All-not_before :
        (s t : String) (slugs : List String)
        → before s t ≡ false
        → All (λ u. before u s ≡ false) slugs
        → All (λ u. before u t ≡ false) slugs
    All-not_before s t [] e h = tt
    All-not_before s t (u ∷ slugs) e (p, h) =
        (collation.not_before-trans u s t p e, All-not_before s t slugs e h)

    insert_by_slug-IsOrdered :
        (r : R) (rows : List R)
        → IsOrdered before (map slug_of rows)
        → IsOrdered before (map slug_of (insert_by_slug before slug_of r rows))
    unfolding insert_by_slug
    insert_by_slug-IsOrdered r [] h = (tt, tt)
    insert_by_slug-IsOrdered r (s ∷ rows) (p, h) =
        elim (Bool-cases (before (slug_of s) (slug_of r))) [
          | inl first ↦ rw first (
            All-insert_by_slug (λ t. before t (slug_of s) ≡ false) r rows
                (collation.asymmetric (slug_of s) (slug_of r) first) p,
            insert_by_slug-IsOrdered r rows h,
          )
          | inr last ↦
              rw last
                ((last, All-not_before (slug_of s) (slug_of r) (map slug_of rows) last p), (p, h))
        ]

    order_by_slug-IsOrdered :
        (rows : List R) → IsOrdered before (map slug_of (order_by_slug before slug_of rows))
    unfolding order_by_slug
    order_by_slug-IsOrdered [] = tt
    order_by_slug-IsOrdered (r ∷ rows) =
        insert_by_slug-IsOrdered r (order_by_slug before slug_of rows)
          (order_by_slug-IsOrdered rows)

abbrev pub slugs : List FeatureDefinition → List String
slugs defs = map (λ d. d.slug) defs

of_rows-slugs :
    (rows : List DefinitionRow) (defs : List FeatureDefinition)
    → of_rows rows ≡ ok defs
    → slugs defs ≡ map (λ r. r.slug) rows
unfolding of_rows
of_rows-slugs [] defs e = let none_left : [] ≡ defs = ground arith in rw (← none_left) refl
of_rows-slugs (r ∷ rows) defs e = elim (Option-cases (try_from_str r.value_type)) [
  | inl bad ↦ absurd (ground (arith, bad))
  | inr (t, good) ↦ elim (Result-cases (of_rows rows)) [
    | inr (f, failed) ↦ absurd (ground (arith, good, failed))
    | inl (others, listed) ↦
        let d : FeatureDefinition = record {
          slug = r.slug;
          value_type = t;
          default_value = r.default_value;
          description = r.description;
          self_service = r.self_service;
        } in
        let here : d ∷ others ≡ defs = ground (arith, good, listed) in
        rw (← here) (ap (λ ss. r.slug ∷ ss) (of_rows-slugs rows others listed))
  ]
]

count-slugs :
    (slug : String) (rows : List DefinitionRow)
    → count (λ s. s == slug) (map (λ (r : DefinitionRow). r.slug) rows)
      ≡ count (λ (r : DefinitionRow). r.slug == slug) rows
count-slugs slug [] = refl
count-slugs slug (r ∷ rows) = ground (arith, count-slugs slug rows)

-- The slugs of a listing are in order, and each is there as often as in the table.
pub list_definitions_sound :
    (fails : Query → Bool) (before : String → String → Bool) (db : Db)
    (defs : List FeatureDefinition) (slug : String)
    → IsCollation before
    → list_definitions fails before db ≡ ok defs
    → IsOrdered before (slugs defs)
      × (count (λ s. s == slug) (slugs defs)
          ≡ count (λ (r : DefinitionRow). r.slug == slug) db.definitions)
unfolding list_definitions
list_definitions_sound fails before db defs slug collation h =
    let rows = order_by_slug before (λ (r : DefinitionRow). r.slug) db.definitions in
    let decoded : of_rows rows ≡ ok defs = ground arith in
    let same = of_rows-slugs rows defs decoded in
    rw same (
      order_by_slug-IsOrdered before (λ (r : DefinitionRow). r.slug) collation db.definitions,
      count-slugs slug rows
          ∙ count-order_by_slug before (λ (r : DefinitionRow). r.slug) (λ r. r.slug == slug)
              db.definitions,
    )
