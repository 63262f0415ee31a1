-- ===== src/Webapp/Bid.antt =====
-- components/Bid/index.tsx: placing a bid and the button's states. Amounts are wei; the least next bid is
-- a decimal with two places, kept in hundredths of a wei.
pub mod Minimum
pub mod Button
mod Examples
use web3_nft.Prelude.{
  ℕ, ◌+◌, ◌*◌, String, ◌≡◌, Bool, true, false, not, ◌&&◌, Option, none, some, List, [], ◌∷◌, ◌++◌,
  str_eq, ltb, ◌==◌, if◌then◌else◌,
}
use mathlib.Core.Option
use web3_nft.Webapp.Dao.Transactions.{
  Status, idle, mining, success, fail, exception, TransactionStatus, AlertModal, alert, or_text,
}
use web3_nft.Webapp.Auction.{IAuction}

-- The numbers of packages and of the language: a whole decimal is read as its number and any other
-- throws (`none`); a text in ETH is read as wei or throws; an amount in wei is rounded up, in floating
-- point, to hundredths of an ETH.
pub record Numbers : Type 0 where
  pub from_hundredths : ℕ → Option ℕ
  pub parse_ether : String → Option ℕ
  pub rounded_eth : ℕ → ℕ
  pub from_hundredths_lem : (h n : ℕ) → from_hundredths h ≡ some n → n * 100 ≡ h

-- In hundredths of a wei.
unfoldable pub compute_minimum_next_bid : ℕ → Option ℕ → ℕ
compute_minimum_next_bid current_bid none = 0
compute_minimum_next_bid current_bid (some percentage) = current_bid * (percentage + 100)

-- In hundredths of an ETH.
unfoldable pub min_bid_eth : Numbers → ℕ → Option ℕ
min_bid_eth numbers min_bid =
    if min_bid == 0
    then some 1
    else Option.map numbers.rounded_eth (numbers.from_hundredths min_bid)

-- An input that is missing or empty counts as nothing.
unfoldable pub current_bid : Numbers → Option String → Option ℕ
current_bid numbers none = some 0
current_bid numbers (some text) = if str_eq text "" then some 0 else numbers.parse_ether text

pub data BidOutcome : Type 0 where
  nothing : BidOutcome
  insufficient : ℕ → BidOutcome
  sent : ℕ → ℕ → ℕ → BidOutcome

-- `insufficient` asks for the minimum and writes it in the input; `sent` has the word's id, the value and
-- the limit of gas. `none` is an error thrown.
unfoldable pub place_bid_handler :
    Numbers → (ℕ → ℕ → Option ℕ) → Option IAuction → Option ℕ → Option String → Option BidOutcome
unfolding current_bid compute_minimum_next_bid min_bid_eth
place_bid_handler numbers estimate_gas none percentage input = some nothing
place_bid_handler numbers estimate_gas (some auction) percentage none = some nothing
place_bid_handler numbers estimate_gas (some auction) percentage (some text) =
    let min_bid = compute_minimum_next_bid auction.amount percentage in
    if str_eq text "" then some nothing else elim (current_bid numbers (some text)) [
      | none ↦ none
      | some value ↦
          if ltb (value * 100) min_bid
          then Option.map insufficient (min_bid_eth numbers min_bid)
          else Option.map (λ gas. sent auction.word_id value (gas + 10000))
              (estimate_gas auction.word_id value)
    ]

pub record BidButton : Type 0 where
  pub loading : Bool
  pub content : String
  pub alerts : List AlertModal

abbrev pub show : String → BidButton → BidButton
show content button = record button { loading = false; content = content }

abbrev pub spin : BidButton → BidButton
spin button = record button { loading = true; content = "" }

abbrev pub set_modal : AlertModal → BidButton → BidButton
set_modal a button = record button { alerts = button.alerts ++ a ∷ [] }

-- The effect of the state of placing a bid; success has no case of its own here.
unfoldable pub placing_effect : Bool → TransactionStatus → BidButton → BidButton
placing_effect auction_ended tx button = if auction_ended then button else elim tx.status [
  | idle ↦ show "Bid" button
  | mining ↦ spin button
  | success ↦ button
  | fail ↦
      show "Bid" (
        set_modal (alert "Transaction Failed" (or_text tx.error_message "Please try again."))
          button)
  | exception ↦
      show "Bid" (set_modal (alert "Error" (or_text tx.error_message "Please try again.")) button)
]

unfoldable pub settling_effect : Bool → TransactionStatus → BidButton → BidButton
settling_effect auction_ended tx button = if not auction_ended then button else elim tx.status [
  | idle ↦ show "Settle Auction" button
  | mining ↦ spin button
  | success ↦
      show "Settle Auction" (set_modal (alert "Success" "Settled auction successfully!") button)
  | fail ↦
      show "Settle Auction" (
        set_modal (alert "Transaction Failed" (or_text tx.error_message "Please try again."))
          button)
  | exception ↦
      show "Settle Auction"
        (set_modal (alert "Error" (or_text tx.error_message "Please try again.")) button)
]

abbrev pub is_mining : Status → Bool
is_mining mining = true
is_mining _ = false

-- The effect on a new auction state: a bid of the account that is being mined has arrived. The flag tells
-- that the transaction's state was set to success and the input cleared.
unfoldable pub successful_effect :
    Option String → IAuction → ℕ → TransactionStatus → BidButton → BidButton × Bool
successful_effect none auction bid tx button = (button, false)
successful_effect (some account) auction bid tx button =
    if is_mining tx.status && (str_eq auction.bidder account && bid == auction.amount)
    then (show "Bid" (set_modal (alert "Success" "Bid was placed successfully!") button), true)
    else (button, false)

unfoldable pub placing_effects : List TransactionStatus → BidButton → BidButton
unfolding placing_effect
placing_effects [] button = button
placing_effects (tx ∷ txs) button = placing_effects txs (placing_effect false tx button)

unfoldable pub settling_effects : List TransactionStatus → BidButton → BidButton
unfolding settling_effect
settling_effects [] button = button
settling_effects (tx ∷ txs) button = settling_effects txs (settling_effect true tx button)
