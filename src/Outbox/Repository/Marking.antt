-- ===== src/Outbox/Repository/Marking.antt =====
-- What marking leaves unrelayed, and what the claim selects.
use egras.Prelude.{
  ℕ, String, Bool, true, false, ◌&&◌, not, List, [], ◌∷◌, All, All-mono, count, contains, ok, ◌≡◌,
  refl, arith, Bool-cases, inl, inr, ℕ_eq, Keyed, Lacking, IsRow, Keyed-selection, selection-IsRow,
  ap, sym, ◌∙◌, length, length-selection, count_cong, All-trivial, min,
}
use mathlib.Core.Bool.{and-eq-true_iff}
use egras.Json.{Value}
use egras.Outbox.Model.{OutboxEvent}
use egras.Outbox.Repository.{
  Query, mark_query, is_unrelayed, selected, mark_rows, mark_relayed_in_tx,
}

-- The events not yet relayed whose type and payload pass a test.
abbrev pub count_unrelayed : (String → Value → Bool) → List OutboxEvent → ℕ
count_unrelayed p rows = count (λ e. is_unrelayed e && p e.event_type e.payload) rows

abbrev pub id_of : OutboxEvent → ℕ
id_of e = e.id

pub count_unrelayed-mark_rows :
    (p : String → Value → Bool) (now : ℕ) (chosen : List ℕ) (rows : List OutboxEvent)
    → count_unrelayed p (mark_rows now chosen rows)
      ≡ count (λ e. not (contains chosen e.id) && (is_unrelayed e && p e.event_type e.payload)) rows
unfolding mark_rows
count_unrelayed-mark_rows p now chosen [] = refl
count_unrelayed-mark_rows p now chosen (e ∷ rows) =
    let rest = count_unrelayed-mark_rows p now chosen rows in
    elim (Bool-cases (contains chosen e.id)) [
      | inl hit ↦ rw hit rest
      | inr miss ↦ rw miss (ground (arith, rest))
    ]

Lacking-mark_rows :
    (now k : ℕ) (chosen : List ℕ) (rows : List OutboxEvent)
    → Lacking id_of k rows
    → Lacking id_of k (mark_rows now chosen rows)
unfolding mark_rows
Lacking-mark_rows now k chosen [] h = tt
Lacking-mark_rows now k chosen (e ∷ rows) (n, h) = (
  elim (Bool-cases (contains chosen e.id)) [ inl hit ↦ rw hit n | inr miss ↦ rw miss n ],
  Lacking-mark_rows now k chosen rows h,
)

pub Keyed-mark_rows :
    (now : ℕ) (chosen : List ℕ) (rows : List OutboxEvent)
    → Keyed id_of rows
    → Keyed id_of (mark_rows now chosen rows)
unfolding mark_rows
Keyed-mark_rows now chosen [] h = tt
Keyed-mark_rows now chosen (e ∷ rows) (n, h) = (
  elim (Bool-cases (contains chosen e.id)) [
    | inl hit ↦ rw hit (Lacking-mark_rows now e.id chosen rows n)
    | inr miss ↦ rw miss (Lacking-mark_rows now e.id chosen rows n)
  ],
  Keyed-mark_rows now chosen rows h,
)

pub mark_rows-nil : (now : ℕ) (rows : List OutboxEvent) → mark_rows now [] rows ≡ rows
unfolding mark_rows
mark_rows-nil now [] = refl
mark_rows-nil now (e ∷ rows) = rw (mark_rows-nil now rows) refl

pub mark_relayed_in_tx-ok :
    (fails : Query → Bool) (now : ℕ) (chosen : List ℕ) (rows rows' : List OutboxEvent)
    → mark_relayed_in_tx fails now chosen rows ≡ ok rows'
    → rows' ≡ mark_rows now chosen rows
unfolding mark_relayed_in_tx
mark_relayed_in_tx-ok fails now [] rows rows' h = ground (arith, mark_rows-nil now rows)
mark_relayed_in_tx-ok fails now (id ∷ chosen) rows rows' h = ground arith

pub mark_relayed_in_tx-works :
    (fails : Query → Bool) (now : ℕ) (chosen : List ℕ) (rows : List OutboxEvent)
    → fails mark_query ≡ false
    → mark_relayed_in_tx fails now chosen rows ≡ ok (mark_rows now chosen rows)
unfolding mark_relayed_in_tx
mark_relayed_in_tx-works fails now [] rows h = ap ok (sym (mark_rows-nil now rows))
mark_relayed_in_tx-works fails now (id ∷ chosen) rows h = ground arith

pub selected-Keyed :
    (locked : ℕ → Bool) (limit : ℕ) (rows : List OutboxEvent)
    → Keyed id_of rows
    → Keyed id_of (selected locked limit rows)
unfolding selected
selected-Keyed locked limit rows h =
    Keyed-selection id_of _ (λ e. is_unrelayed e && not (locked e.id)) limit rows h

-- Each selected event is a row of the table that is not relayed.
pub selected-IsRow :
    (locked : ℕ → Bool) (limit : ℕ) (rows : List OutboxEvent)
    → Keyed id_of rows
    → All
        (λ (e : OutboxEvent). IsRow id_of rows e × (is_unrelayed e ≡ true))
        (selected locked limit rows)
unfolding selected
selected-IsRow locked limit rows h =
    All-mono
      (λ (e : OutboxEvent). IsRow id_of rows e × ((is_unrelayed e && not (locked e.id)) ≡ true))
      (λ (e : OutboxEvent). IsRow id_of rows e × (is_unrelayed e ≡ true))
      (selected locked limit rows) (λ e p. (p.0, ((and-eq-true_iff _ _).0 p.1).0))
      (selection-IsRow id_of _ (λ e. is_unrelayed e && not (locked e.id)) limit rows h)

pub selected-length :
    (locked : ℕ → Bool) (limit : ℕ) (rows : List OutboxEvent)
    → ((id : ℕ) → locked id ≡ false)
    → length (selected locked limit rows) ≡ min limit (count is_unrelayed rows)
unfolding selected
selected-length locked limit rows free =
    let size = length-selection _ (λ e. is_unrelayed e && not (locked e.id)) limit rows in
    let same =
      count_cong (λ e. is_unrelayed e && not (locked e.id)) is_unrelayed rows
        (All-trivial _ rows (λ e. ground (arith, free e.id))) in
    size ∙ ap (min limit) same

pub backlog-mark_rows :
    (now : ℕ) (chosen : List ℕ) (rows : List OutboxEvent)
    → count is_unrelayed (mark_rows now chosen rows)
      ≡ count (λ e. not (contains chosen e.id) && is_unrelayed e) rows
unfolding mark_rows
backlog-mark_rows now chosen [] = refl
backlog-mark_rows now chosen (e ∷ rows) =
    let rest = backlog-mark_rows now chosen rows in
    elim (Bool-cases (contains chosen e.id)) [
      | inl hit ↦ rw hit rest
      | inr miss ↦ rw miss (ground (arith, rest))
    ]
