-- ===== src/Webapp/Bid/Button.antt =====
-- The states of the bid button.
use web3_nft.Prelude.{String, ◌≡◌, refl, ap, ◌∙◌, Bool, true, false, Option, List, [], ◌∷◌}
use web3_nft.Webapp.Dao.Transactions.{
  Status, idle, mining, success, fail, exception, TransactionStatus,
}
use web3_nft.Webapp.Bid.{
  BidButton, is_mining, placing_effect, settling_effect, placing_effects, settling_effects,
}

-- Whether the button still spins: success is passed over while a bid is placed.
pub spins_placing : Bool → List TransactionStatus → Bool
spins_placing before [] = before
spins_placing before (tx ∷ txs) =
    spins_placing (elim tx.status [ mining ↦ true | success ↦ before | _ ↦ false ]) txs

pub spins_settling : Bool → List TransactionStatus → Bool
spins_settling before [] = before
spins_settling before (tx ∷ txs) = spins_settling (is_mining tx.status) txs

placing_step :
    (status : Status) (message : Option String) (button : BidButton)
    → (placing_effect false (record { status = status; error_message = message }) button).loading
      ≡ (elim status [ mining ↦ true | success ↦ button.loading | _ ↦ false ])
unfolding placing_effect
placing_step idle message button = refl
placing_step mining message button = refl
placing_step success message button = refl
placing_step fail message button = refl
placing_step exception message button = refl

settling_step :
    (status : Status) (message : Option String) (button : BidButton)
    → (settling_effect true (record { status = status; error_message = message }) button).loading
      ≡ is_mining status
unfolding settling_effect
settling_step idle message button = refl
settling_step mining message button = refl
settling_step success message button = refl
settling_step fail message button = refl
settling_step exception message button = refl

-- While the auction runs, the button spins after a run of states of placing a bid where the last state
-- that is not success is that of mining: a success alone does not stop it. After the end, it spins
-- where the last state of settling is that of mining, so that a success stops it.
pub effects-loading :
    (txs : List TransactionStatus) (button : BidButton)
    → ((placing_effects txs button).loading ≡ spins_placing button.loading txs)
      × ((settling_effects txs button).loading ≡ spins_settling button.loading txs)
unfolding placing_effects settling_effects spins_placing spins_settling
effects-loading [] button = (refl, refl)
effects-loading (tx ∷ txs) button = (
  (effects-loading txs (placing_effect false tx button)).0
      ∙ ap (λ b. spins_placing b txs) (placing_step tx.status tx.error_message button),
  (effects-loading txs (settling_effect true tx button)).1
      ∙ ap (λ b. spins_settling b txs) (settling_step tx.status tx.error_message button),
)
