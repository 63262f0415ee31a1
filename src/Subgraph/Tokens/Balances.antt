-- ===== src/Subgraph/Tokens/Balances.antt =====
-- What a transfer does to the balances and the word lists of the accounts.
use web3_nft.Prelude.{
  ℕ, ◌+◌, ◌<◌, String, ◌≡◌, refl, ap, ◌≢◌, false, List, [], ◌∷◌, ◌++◌, map, arith, eq_iff, ◌==◌, ℤ,
  pos, ◌+ℤ◌, ◌-ℤ◌,
}
use web3_nft.Subgraph.Schema.{zero_address, Store}
use web3_nft.Subgraph.Helpers.Views.{account_at, AccountsAreKeyed}
use web3_nft.Subgraph.Tokens.{
  Transfer, Reference, read_texts, without, filtered, debit, credit, handle_transfer,
}
use web3_nft.Subgraph.Tokens.Accounts.{account_at-transfer}

-- No text of a row lies where the token's id does.
read_texts-without :
    (removed : Reference) (words : List String) (free : ℕ)
    → removed.place < free
    → map (λ (r : Reference). r.characters) (without removed (read_texts free words)) ≡ words
unfolding read_texts without
read_texts-without removed [] free h = refl
read_texts-without removed (w ∷ ws) free h =
    let rest : map (λ (r : Reference). r.characters) (without removed (read_texts (free + 1) ws))
        ≡ ws =
      read_texts-without removed ws (free + 1) (omega arith) in
    let apart : (free == removed.place) ≡ false = ground arith in rw apart (ap (λ l. w ∷ l) rest)

-- The filter leaves every word in the list.
pub filtered-same : (token : String) (words : List String) → filtered token words ≡ words
unfolding filtered
filtered-same token words =
    read_texts-without (record { place = 0; characters = token }) words 1 (omega arith)

abbrev pub balance : Store → String → ℤ
balance s id = (account_at s id).token_balance_raw

abbrev pub words_of : Store → String → List String
words_of s id = (account_at s id).words

module _ (event : Transfer) (s : Store) (h : AccountsAreKeyed s) where
  -- A transfer between two different accounts that is no mint takes one from the giver's balance and
  -- adds one to the receiver's; any other account `j` is unchanged. The word is added at the end of the
  -- receiver's list, but the giver's list stays as it is: the filter removes nothing.
  pub transfer_keeps_listed :
      (j : String)
      → event.source ≢ zero_address
      → event.source ≢ event.target
      → j ≢ event.source
      → j ≢ event.target
      → (balance (handle_transfer event s) event.source ≡ balance s event.source -ℤ pos 1)
        × (balance (handle_transfer event s) event.target ≡ balance s event.target +ℤ pos 1)
        × (words_of (handle_transfer event s) event.source ≡ words_of s event.source)
        × (words_of (handle_transfer event s) event.target
            ≡ words_of s event.target ++ event.token_id ∷ [])
        × (account_at (handle_transfer event s) j ≡ account_at s j)
  unfolding debit credit
  transfer_keeps_listed j ne other n m =
      let at = account_at-transfer event s h ne in
      (
        ground (
          arith,
          at event.source,
          eq_iff event.target event.source,
          eq_iff event.source event.source,
        ),
        ground (arith, at event.target, eq_iff event.target event.target),
        ground (
          arith,
          at event.source,
          eq_iff event.target event.source,
          eq_iff event.source event.source,
          filtered-same event.token_id (account_at s event.source).words,
        ),
        ground (arith, at event.target, eq_iff event.target event.target),
        ground (arith, at j, eq_iff event.target j, eq_iff event.source j),
      )

  -- A transfer of an account to itself is counted as a gain: its balance grows by one.
  pub self_transfer_inflates :
      event.source ≢ zero_address
      → event.source ≡ event.target
      → balance (handle_transfer event s) event.source ≡ balance s event.source +ℤ pos 1
  unfolding credit
  self_transfer_inflates ne same =
      ground
        (arith, account_at-transfer event s h ne event.source, eq_iff event.target event.source)
