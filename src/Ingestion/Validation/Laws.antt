-- ===== src/Ingestion/Validation/Laws.antt =====
-- What the validators let through, and the counts of the validation.
use growth_track.RowLaws.{All}
use growth_track.Models.{RawRow, EntityType, SourceRow}
use growth_track.Session.{Outcome, ok, raised}
use growth_track.Ingestion.Source.{Decimal, finite, not_finite, Source}
use growth_track.Ingestion.Validation.{
  validate, rejection_of, columns_of_original, is_doctors, Checked, add_row, add_outcome,
  check_rows, ◌or_else◌, reason_if, is_blank, decimal_reason, amount_reason,
  positive_integer_reason, max_postgres_integer,
}
use growth_track.Persistence.Staging.{Verdict}
use growth_track.Prelude.{
  ℕ, ◌+◌, ◌≤◌, String, subst, ◌≡◌, refl, ap, inl, inr, Bool, true, false, Option, none, some, List,
  [], ◌∷◌, map, arith, Option-cases, length, is_negative, ℤ, pos, negsuc,
}

pub or_else-none : (a b : Option String) → a or_else b ≡ none → (a ≡ none) × (b ≡ none)
or_else-none none b h = (refl, h)
or_else-none (some a) b h = cc

pub reason_if-none : (b : Bool) (reason : String) → reason_if b reason ≡ none → b ≡ false
reason_if-none true reason h = cc
reason_if-none false reason h = refl

-- An integer that the validators accept lies between 1 and the maximum of the column.
pub positive_integer_reason-none :
    (o : Option ℤ)
    → positive_integer_reason o ≡ none
    → (n : ℕ) × (o ≡ some (pos n)) × (1 ≤ n) × (n ≤ max_postgres_integer)
positive_integer_reason-none none h = cc
positive_integer_reason-none (some (negsuc n)) h = cc
positive_integer_reason-none (some (pos n)) h = (n, refl, ground (arith, h), ground (arith, h))

pub decimal_reason-none :
    (o : Option Decimal) → decimal_reason o ≡ none → (n : ℤ) × (o ≡ some (finite n))
decimal_reason-none none h = cc
decimal_reason-none (some not_finite) h = cc
decimal_reason-none (some (finite n)) h = (n, refl)

pub amount_reason-none :
    (o : Option Decimal)
    → amount_reason o ≡ none
    → (n : ℤ) × (o ≡ some (finite n)) × (is_negative n ≡ false)
amount_reason-none none h = cc
amount_reason-none (some not_finite) h = cc
amount_reason-none (some (finite n)) h = (n, refl, ground (arith, h))

-- A cell that is not blank has a text.
pub is_blank-false : (o : Option String) → is_blank o ≡ false → (s : String) × (o ≡ some s)
is_blank-false none h = cc
is_blank-false (some s) h = (s, refl)

module _ (source : Source) (entity_type : EntityType) (original_rows : List SourceRow) where
  rejection_of-none :
      (sequence : ℕ) (row : RawRow)
      → rejection_of source entity_type original_rows sequence row ≡ ok none
      → validate source entity_type row ≡ none
  unfolding rejection_of
  rejection_of-none sequence row h = elim (Option-cases (validate source entity_type row)) [
    | inl e ↦ e
    | inr (reason, e) ↦
        let k : ok (some reason) ≡ ok none =
          subst
            (λ o.
              (elim o [
                | some r ↦ ok (some r)
                | none ↦
                    columns_of_original source entity_type original_rows (is_doctors entity_type)
                      sequence
              ])
              ≡ ok none)
            e h in
        cc
  ]

  -- What a loop over the rows guarantees of the rows that it has passed.
  abbrev pub Accounted : List (ℕ × RawRow) → Checked → Type 0
  Accounted staged c =
      (length c.valid_rows + c.rejected ≡ length staged)
      × (map (λ (v : Verdict). v.0) c.results ≡ map (λ (r : ℕ × RawRow). r.0) staged)
      × All (λ row. validate source entity_type row ≡ none) c.valid_rows

  add_row-Accounted :
      (sequence : ℕ) (row : RawRow) (reason : Option String) (staged : List (ℕ × RawRow))
      (c : Checked)
      → rejection_of source entity_type original_rows sequence row ≡ ok reason
      → Accounted staged c
      → Accounted ((sequence, row) ∷ staged) (add_row sequence row reason c)
  add_row-Accounted sequence row none staged c e (n, m, a) =
      (ground (arith, n), ap (λ xs. sequence ∷ xs) m, (rejection_of-none sequence row e, a))
  add_row-Accounted sequence row (some reason) staged c e (n, m, a) =
      (ground (arith, n), ap (λ xs. sequence ∷ xs) m, a)

  add_outcome-ok :
      (sequence : ℕ) (row : RawRow) (o : Outcome (Option String)) (rest : Outcome Checked)
      (c : Checked)
      → add_outcome sequence row o rest ≡ ok c
      → (reason : Option String) × (c' : Checked) × (o ≡ ok reason)
        × (rest ≡ ok c')
        × (add_row sequence row reason c' ≡ c)
  add_outcome-ok sequence row (raised e) rest c h = cc
  add_outcome-ok sequence row (ok reason) (raised e) c h = cc
  add_outcome-ok sequence row (ok reason) (ok c') c h = (reason, c', refl, refl, cc)

  -- If the validation of one entity type succeeds, each staged row gets one verdict, in order, and
  -- is valid or counted as rejected; and the rows that are valid have passed the validator.
  pub check_rows-accounts :
      (staged : List (ℕ × RawRow)) (c : Checked)
      → check_rows source entity_type original_rows staged ≡ ok c
      → Accounted staged c
  unfolding check_rows
  check_rows-accounts [] c h =
      let none_yet : Checked = record { results = []; valid_rows = []; rejected = 0 } in
      let e : none_yet ≡ c = cc in subst (λ x. Accounted [] x) e (ground arith, refl, tt)
  check_rows-accounts ((sequence, row) ∷ staged) c h =
      let (reason, c', e, f, g) =
        add_outcome-ok sequence row (rejection_of source entity_type original_rows sequence row)
          (check_rows source entity_type original_rows staged) c h in
      subst (λ x. Accounted ((sequence, row) ∷ staged) x) g
        (add_row-Accounted sequence row reason staged c' e (check_rows-accounts staged c' f))
