-- ===== src/Table/Keys.antt =====
-- Tables whose rows stand under their own names, as saving an entity by its id keeps them.
use web3_nft.Prelude.{String, ◌≡◌, refl, some, [], ◌∷◌, arith, eq_iff}
use web3_nft.Table.{Table, lookup, insert}

module _ {ℓ} {V : Type ℓ} (name : V → String) where
  abbrev pub IsKeyed : Table V → Type 0
  IsKeyed [] = Unit
  IsKeyed ((k, v) ∷ m) = (name v ≡ k) × IsKeyed m

  pub lookup-IsKeyed :
      (k : String) (m : Table V) {v : V} → IsKeyed m → lookup k m ≡ some v → name v ≡ k
  unfolding lookup
  lookup-IsKeyed k [] h e = cc
  lookup-IsKeyed k ((j, w) ∷ m) {v} (p, h) e =
      ground (arith, eq_iff j k, lookup-IsKeyed k m {v = v} h)

  pub insert-IsKeyed : (v : V) (m : Table V) → IsKeyed m → IsKeyed (insert (name v) v m)
  unfolding insert
  insert-IsKeyed v [] h = (refl, tt)
  insert-IsKeyed v ((j, w) ∷ m) (p, h) = ground (arith, eq_iff j (name v), insert-IsKeyed v m h)
