-- ===== src/Features/Service/WellTyped.antt =====
-- Every value that the tables hold, and so every value that is served, has its flag's type.
use native.Mathlib.Nat.{le_refl}
use egras.Prelude.{
  ℕ, String, Bool, ◌&&◌, some, ok, ◌≡◌, arith, Bool-cases, Result-cases, inl, inr, ◌==◌, String_eq,
  ℕ_eq, beq_iff,
}
use egras.Json.{Value}
use egras.Audit.Model.{Stamp}
use egras.Features.Model.{FeatureValueType, OrgFeatureOverride, try_from_str}
use egras.Features.Model.Typing.{HasType}
use egras.Features.Repository.{Db, Query, DefinitionRow, definition_row, override_row}
use egras.Features.Evaluate.{PgFeatureEvaluator, evaluate}
use egras.Features.Evaluate.Effective.{IsSeen, overridden, defaulted}
use egras.Features.Evaluate.Staleness.{Reach, evaluate_staleness}
use egras.Features.Service.{
  World, SetOrgFeatureInput, ClearOrgFeatureInput, set_org_feature, clear_org_feature,
}
use egras.Features.Service.Guards.{
  MaySet, set_org_feature_sound, set_org_feature_error_unchanged, clear_org_feature_error_unchanged,
}
use egras.Features.Service.Visibility.{
  new_row, IsStored, set_org_feature-IsStored, IsCleared, clear_org_feature-IsCleared,
}

-- The flag is in the catalogue with this type.
abbrev pub IsFlag : Db → String → FeatureValueType → Type 0
IsFlag db slug t =
    (d : DefinitionRow) × (definition_row slug db.definitions ≡ some d)
    × (try_from_str d.value_type ≡ some t)

same_type :
    (db : Db) (slug : String) (t u : FeatureValueType) → IsFlag db slug t → IsFlag db slug u → t ≡ u
same_type db slug t u (d, known, decoded) (e, known', decoded') =
    let same : d ≡ e = cc in ground arith

module _ (is_i64 : ℕ → Bool) where
  pub record IsWellTyped (db : Db) : Type 0 where
    pub defaults :
        (slug : String) (d : DefinitionRow) (t : FeatureValueType)
        → definition_row slug db.definitions ≡ some d
        → try_from_str d.value_type ≡ some t
        → HasType is_i64 t d.default_value
    pub overrides :
        (org : ℕ) (slug : String) (r : OrgFeatureOverride) (t : FeatureValueType)
        → override_row org slug db.overrides ≡ some r
        → IsFlag db slug t
        → HasType is_i64 t r.value

  IsStored-IsWellTyped :
      (now : ℕ) (input : SetOrgFeatureInput) (w w' : World)
      → MaySet is_i64 input w.db
      → IsStored now input w w'
      → IsWellTyped w.db
      → IsWellTyped w'.db
  IsStored-IsWellTyped now input w w' m s h = record {
    defaults = λ slug d t known. h.defaults slug d t (rw (← s.definitions) known);
    overrides = λ org slug r t found flag.
        let flag' : IsFlag w.db slug t = (flag.0, rw (← s.definitions) flag.1, flag.2) in
        elim (Bool-cases (input.organisation_id == org && input.slug == slug)) [
          | inr other ↦
              h.overrides org slug r t (ground (arith, s.overrides org slug, found, other)) flag'
          | inl key ↦
              let row : new_row now input ≡ r = ground (arith, s.overrides org slug, found, key) in
              let slugs : input.slug ≡ slug = ground (arith, beq_iff input.slug slug) in
              let typed =
                same_type w.db slug m.value_type t (m.row, rw (← slugs) m.known, m.decoded) flag' in
              rw (← row, ← typed) m.typed
        ];
  }

  IsCleared-IsWellTyped :
      (input : ClearOrgFeatureInput) (w w' : World)
      → IsCleared input w w'
      → IsWellTyped w.db
      → IsWellTyped w'.db
  IsCleared-IsWellTyped input w w' s h = record {
    defaults = λ slug d t known. h.defaults slug d t (rw (← s.definitions) known);
    overrides = λ org slug r t found flag.
        h.overrides org slug r t (ground (arith, s.overrides org slug, found))
          (flag.0, rw (← s.definitions) flag.1, flag.2);
  }

  -- Setting and clearing flags, successfully or not, keeps every default and every override of the
  -- tables at the declared type of its flag.
  pub set_clear-IsWellTyped :
      (fails : Query → Bool) (now : ℕ) (stamp : Stamp) (w : World)
      → IsWellTyped w.db
      → ((input : SetOrgFeatureInput)
          → IsWellTyped (set_org_feature fails is_i64 now stamp input w).1.db)
        × ((input : ClearOrgFeatureInput)
            → IsWellTyped (clear_org_feature fails stamp input w).1.db)
  set_clear-IsWellTyped fails now stamp w h = (
    λ input. elim (Result-cases (set_org_feature fails is_i64 now stamp input w).0) [
      | inl (tt, done) ↦
          IsStored-IsWellTyped now input w (set_org_feature fails is_i64 now stamp input w).1
            (set_org_feature_sound fails is_i64 now stamp input w done)
            (set_org_feature-IsStored fails is_i64 now stamp input w done) h
      | inr (e, failed) ↦
          rw (set_org_feature_error_unchanged fails is_i64 now stamp input w e failed) h
    ],
    λ input. elim (Result-cases (clear_org_feature fails stamp input w).0) [
      | inl (tt, done) ↦
          IsCleared-IsWellTyped input w (clear_org_feature fails stamp input w).1
            (clear_org_feature-IsCleared fails stamp input w done) h
      | inr (e, failed) ↦ rw (clear_org_feature_error_unchanged fails stamp input w e failed) h
    ],
  )

  seen-HasType :
      (db db' : Db) (org : ℕ) (slug : String) (v : Value) (t : FeatureValueType)
      → IsWellTyped db × IsFlag db slug t
      → IsWellTyped db' × IsFlag db' slug t
      → IsSeen db db' org slug v
      → HasType is_i64 t v
  seen-HasType db db' org slug v t (h, flag) _ (overridden r found e) =
      rw e (h.overrides org slug r t found flag)
  seen-HasType db db' org slug v t _ (h, flag) (defaulted d u missing known decoded e) =
      let same = same_type db' slug t u flag (d, known, decoded) in
      rw (e, same) (h.defaults slug d u known decoded)

  -- If the tables are well typed and the flag has the same type at every instant, then whatever
  -- the evaluator answers has that type, however its calls and the changes interleave.
  pub evaluate-HasType :
      (hist : ℕ → Db) (fails : ℕ → Query → Bool) (ttl t org : ℕ) (slug : String) (v : Value)
      (ev : PgFeatureEvaluator) (value_type : FeatureValueType)
      → ((l : ℕ) → IsWellTyped (hist l) × IsFlag (hist l) slug value_type)
      → Reach hist fails ttl t ev
      → (evaluate (fails t) t org slug (hist t) ev).0 ≡ ok v
      → HasType is_i64 value_type v
  evaluate-HasType hist fails ttl t org slug v ev value_type always r answered =
      let (l, m, ordered, before, fresh, seen) =
        evaluate_staleness hist fails ttl t t t t org slug v ev ev (le_refl t) (le_refl t)
          (le_refl t) r answered in
      seen-HasType (hist l) (hist m) org slug v value_type (always l) (always m) seen
