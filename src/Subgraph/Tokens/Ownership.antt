-- ===== src/Subgraph/Tokens/Ownership.antt =====
-- The owner of a word and the number of words that an account owns, after the token's events.
use web3_nft.Prelude.{
  String, ◌≡◌, refl, sym, ap, ◌∙◌, ◌≢◌, inl, inr, false, Option, none, some, arith, str_eq, eq_iff,
  if◌then◌else◌, Bool-cases, Option-cases, ℤ, pos, ◌+ℤ◌, ◌-ℤ◌, parts_of_eq, int_laws,
}
use mathlib.Core.Path.{subst}
use web3_nft.Table.{Table, lookup, insert, lookup-insert}
use web3_nft.Table.Keys.{IsKeyed, lookup-IsKeyed, insert-IsKeyed}
use web3_nft.Table.Totals.{total, weight_of, total-insert}
use web3_nft.Subgraph.Schema.{zero_address, Word, Account, Store}
use web3_nft.Subgraph.Helpers.Views.{
  account_at, account_at-id, AccountsAreKeyed, get_or_create_delegate-frame,
}
use web3_nft.Subgraph.Tokens.{Transfer, Run, own_word, debit, credit, receive, handle_transfer}
use web3_nft.Subgraph.Tokens.Accounts.{
  receiver, before_receiver, transfer_stages, loaded_receiver, account_at-transfer, account_at-mint,
}
use web3_nft.Subgraph.Tokens.Balances.{balance}
use web3_nft.Subgraph.Tokens.Frames.{before_receiver-frame}

abbrev pub WordsAreKeyed : Store → Type 0
WordsAreKeyed s = IsKeyed (λ (w : Word). w.id) s.words

-- The owner of a row that may be missing.
abbrev pub owner_in : Option Word → Option String
owner_in none = none
owner_in (some w) = w.owner

abbrev pub owner_at : Store → String → Option String
owner_at s token = owner_in (lookup token s.words)

abbrev pub counts : String → Option String → ℤ
counts j none = pos 0
counts j (some owner) = if str_eq owner j then pos 1 else pos 0

-- How many words have a given owner.
unfoldable pub owned_by : String → Store → ℤ
owned_by j s = total (λ w. counts j w.owner) s.words

-- A token's event is in order where the giver owns the word, or the word is minted and has no owner.
abbrev pub IsOwned : Transfer → (String → Option String) → Type 0
IsOwned event owner =
    (event.source ≢ event.target)
    × (owner event.token_id
        ≡ (if str_eq event.source zero_address then none else some event.source))

pub weight_of-owner :
    (j : String) (o : Option Word)
    → weight_of (λ (w : Word). counts j w.owner) o ≡ counts j (owner_in o)
weight_of-owner j none = refl
weight_of-owner j (some w) = refl

-- The row of a word after a transfer to an owner.
abbrev pub moved_to : String → String → Store → Word
moved_to token owner s = record {
  id = token;
  seed = elim (lookup token s.words) [ none ↦ none | some w ↦ w.seed ];
  owner = some owner;
}

own_word-words :
    (token owner : String) (s : Store)
    → WordsAreKeyed s
    → (own_word token owner s).words ≡ insert token (moved_to token owner s) s.words
own_word-words token owner s h = elim (Option-cases (lookup token s.words)) [
  | inl e ↦ rw e refl
  | inr (w, e) ↦
      let same : w.id ≡ token = lookup-IsKeyed (λ (x : Word). x.id) token s.words h e in
      rw (e, same) refl
]

receive-words :
    (token : String) (a : Account) (r : Run)
    → (receive token a r).words ≡ (own_word token a.id r.store).words
unfolding receive
receive-words token a r = ground (arith, get_or_create_delegate-frame a.id r.store)

module _ (event : Transfer) (s : Store) (keyed : AccountsAreKeyed s) (words : WordsAreKeyed s) where
  abbrev moved : Word
  moved = moved_to event.token_id event.target s

  receiver_id : (receiver event s).id ≡ event.target
  receiver_id =
      ap (λ (a : Account). a.id) (loaded_receiver event s)
      ∙ account_at-id s.accounts event.target keyed

  pub transfer-words : (handle_transfer event s).words ≡ insert event.token_id moved s.words
  transfer-words =
      let r = before_receiver event s in
      let same : r.store.words ≡ s.words = (before_receiver-frame event s).words in
      ap (λ (t : Store). t.words) (transfer_stages event s)
      ∙ receive-words event.token_id (receiver event s) r
      ∙ own_word-words event.token_id (receiver event s).id r.store
          (subst (IsKeyed (λ (w : Word). w.id)) (sym same) words)
      ∙ ap
          (λ (ws : Table Word).
            insert event.token_id
              (moved_to event.token_id (receiver event s).id (record s { words = ws })) ws)
          same
      ∙ ap (λ id. insert event.token_id (moved_to event.token_id id s) s.words) receiver_id

  pub transfer-WordsAreKeyed : WordsAreKeyed (handle_transfer event s)
  transfer-WordsAreKeyed =
      subst (IsKeyed (λ (w : Word). w.id)) (sym transfer-words)
        (insert-IsKeyed (λ (w : Word). w.id) moved s.words words)

  pub transfer-owner :
      (w : String)
      → owner_at (handle_transfer event s) w
        ≡ (if str_eq event.token_id w then some event.target else owner_at s w)
  transfer-owner w =
      ap (λ (ws : Table Word). owner_in (lookup w ws)) transfer-words
      ∙ ap owner_in (lookup-insert event.token_id w moved s.words)
      ∙ ground arith

  transfer-owned_by :
      (j : String)
      → owned_by j (handle_transfer event s) +ℤ counts j (owner_at s event.token_id)
        ≡ owned_by j s +ℤ counts j (some event.target)
  unfolding owned_by
  transfer-owned_by j =
      let weight = λ (w : Word). counts j w.owner in
      ap (λ (ws : Table Word). total weight ws +ℤ counts j (owner_at s event.token_id))
        transfer-words
      ∙ ap (λ z. total weight (insert event.token_id moved s.words) +ℤ z)
          (sym (weight_of-owner j (lookup event.token_id s.words)))
      ∙ total-insert weight event.token_id moved s.words

  minted-balance :
      (j : String)
      → event.source ≡ zero_address
      → balance (handle_transfer event s) j ≡ balance s j +ℤ counts j (some event.target)
  unfolding credit
  minted-balance j minted =
      let view = account_at-mint event s keyed minted j in
      elim (Bool-cases (str_eq event.target j)) [
        | inl t ↦
            let at : event.target ≡ j = (eq_iff event.target j).0 t in
            let row : account_at (handle_transfer event s) j
                ≡ credit event.token_id (account_at s event.target) =
              rw t at view in
            rw t
              (ap (λ (a : Account). a.token_balance_raw) row ∙ ap (λ id. balance s id +ℤ pos 1) at)
        | inr t ↦
            let row : account_at (handle_transfer event s) j ≡ account_at s j = rw t at view in
            rw t (omega (int_laws, parts_of_eq _ _ (ap (λ (a : Account). a.token_balance_raw) row)))
      ]

  given-balance :
      (j : String)
      → event.source ≢ zero_address
      → event.source ≢ event.target
      → balance (handle_transfer event s) j +ℤ counts j (some event.source)
        ≡ balance s j +ℤ counts j (some event.target)
  unfolding debit credit
  given-balance j given other =
      let view = account_at-transfer event s keyed given j in
      elim (Bool-cases (str_eq event.target j)) [
        | inl t ↦
            let at : event.target ≡ j = (eq_iff event.target j).0 t in
            let apart : str_eq event.source j ≡ false = ground (arith, eq_iff event.source j) in
            let row : account_at (handle_transfer event s) j
                ≡ credit event.token_id (account_at s event.target) =
              rw t at view in
            let raised : balance (handle_transfer event s) j ≡ balance s j +ℤ pos 1 =
              ap (λ (a : Account). a.token_balance_raw) row ∙ ap (λ id. balance s id +ℤ pos 1) at in
            rw (t, apart) (omega (int_laws, parts_of_eq _ _ raised))
        | inr t ↦ elim (Bool-cases (str_eq event.source j)) [
          | inl u ↦
              let at : event.source ≡ j = (eq_iff event.source j).0 u in
              let row : account_at (handle_transfer event s) j
                  ≡ debit event.token_id (account_at s event.source) =
                rw (t, u) at view in
              let lowered : balance (handle_transfer event s) j ≡ balance s j -ℤ pos 1 =
                ap (λ (a : Account). a.token_balance_raw) row
                ∙ ap (λ id. balance s id -ℤ pos 1) at in
              rw (t, u) (omega (int_laws, parts_of_eq _ _ lowered))
          | inr u ↦
              let row : account_at (handle_transfer event s) j ≡ account_at s j =
                rw (t, u) at view in
              rw (t, u)
                (omega (int_laws, parts_of_eq _ _ (ap (λ (a : Account). a.token_balance_raw) row)))
        ]
      ]

  -- The giver of a mint is nobody.
  transfer-balance :
      (j : String)
      → event.source ≢ event.target
      → balance (handle_transfer event s) j
          +ℤ counts j (if str_eq event.source zero_address then none else some event.source)
        ≡ balance s j +ℤ counts j (some event.target)
  transfer-balance j other = elim (Bool-cases (str_eq event.source zero_address)) [
    | inl minted ↦ rw minted (
        omega (
          int_laws,
          parts_of_eq _ _ (minted-balance j ((eq_iff event.source zero_address).0 minted)),
        ))
    | inr given ↦
        rw given (given-balance j (ground (arith, given, eq_iff event.source zero_address)) other)
  ]

  pub transfer-owned :
      IsOwned event (owner_at s)
      → (j : String) → balance s j ≡ owned_by j s
      → balance (handle_transfer event s) j ≡ owned_by j (handle_transfer event s)
  transfer-owned (other, owned) j same = omega (
    int_laws,
    parts_of_eq _ _ (transfer-balance j other),
    parts_of_eq _ _ (transfer-owned_by j),
    parts_of_eq _ _ (ap (counts j) owned),
    parts_of_eq _ _ same,
  )
