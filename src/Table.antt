-- ===== src/Table.antt =====
-- A table of entities: an association list from ids, with the first entry of an id in force. It
-- stands for the entity store of the host (load and save by id) and for maps keyed by texts.
pub mod Totals
pub mod Keys
use web3_nft.Prelude.{
  ◌-◌, String, ◌≡◌, sym, ap, ◌∙◌, ◌≢◌, inl, inr, Option, none, some, List, [], ◌∷◌, arith, str_eq,
  eq_iff, if◌then◌else◌, Bool-cases,
}

abbrev pub Table {ℓ} : Type ℓ → Type ℓ
Table V = List (String × V)

module _ {ℓ} {V : Type ℓ} where
  -- Loading: the row under the id.
  unfoldable pub lookup : String → Table V → Option V
  lookup id [] = none
  lookup id ((name, row) ∷ rows) = if str_eq name id then some row else lookup id rows

  -- Saving: the row takes the place of the one under its id, or the last place.
  unfoldable pub insert : String → V → Table V → Table V
  insert id new [] = (id, new) ∷ []
  insert id new ((name, row) ∷ rows) =
      let later = insert id new rows in
      if str_eq name id then (name, new) ∷ rows else (name, row) ∷ later

  pub lookup-insert_self :
      (id : String) (new : V) (rows : Table V) → lookup id (insert id new rows) ≡ some new
  unfolding lookup insert
  lookup-insert_self id new [] = ground (arith, eq_iff id id)
  lookup-insert_self id new ((name, row) ∷ rows) =
      let later = lookup-insert_self id new rows in ground arith

  pub lookup-insert_ne :
      (id other : String) (new : V) (rows : Table V)
      → id ≢ other
      → lookup other (insert id new rows) ≡ lookup other rows
  unfolding lookup insert
  lookup-insert_ne id other new [] ne = ground (arith, eq_iff id other)
  lookup-insert_ne id other new ((name, row) ∷ rows) ne =
      let later = lookup-insert_ne id other new rows ne in
      ground (arith, eq_iff name id, eq_iff name other)

  pub lookup-insert :
      (id other : String) (new : V) (rows : Table V)
      → lookup other (insert id new rows)
        ≡ (if str_eq id other then some new else lookup other rows)
  lookup-insert id other new rows = elim (Bool-cases (str_eq id other)) [
    | inl same ↦
        let at = (eq_iff id other).0 same in
        rw (same)
          (ap (λ key. lookup key (insert id new rows)) (sym at) ∙ lookup-insert_self id new rows)
    | inr differs ↦
        rw (differs) (lookup-insert_ne id other new rows (ground (arith, differs, eq_iff id other)))
  ]
