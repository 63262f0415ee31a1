-- ===== src/Table/Totals.antt =====
-- Totals over the rows of a table, and how one write changes them.
use web3_nft.Prelude.{
  String, ◌≡◌, Option, none, some, [], ◌∷◌, str_eq, ℤ, pos, ◌+ℤ◌, int_laws, parts_of_eq, Bool-cases,
  inl, inr,
}
use web3_nft.Table.{Table, lookup, insert}

module _ {ℓ} {V : Type ℓ} (weight : V → ℤ) where
  unfoldable pub total : Table V → ℤ
  total [] = pos 0
  total ((k, v) ∷ m) = weight v +ℤ total m

  -- A missing row weighs nothing.
  abbrev pub weight_of : Option V → ℤ
  weight_of none = pos 0
  weight_of (some v) = weight v

  pub total-insert :
      (k : String) (v : V) (m : Table V)
      → total (insert k v m) +ℤ weight_of (lookup k m) ≡ total m +ℤ weight v
  unfolding total lookup insert
  total-insert k v [] = omega int_laws
  total-insert k v ((j, w) ∷ m) = elim (Bool-cases (str_eq j k)) [
    | inl e ↦ rw e (omega int_laws)
    | inr e ↦ rw e (omega (int_laws, parts_of_eq _ _ (total-insert k v m)))
  ]
