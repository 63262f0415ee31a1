-- ===== src/Subgraph/Tokens.antt =====
-- nouns-erc-721.ts. An entity is loaded as a copy, and the code's order of loads and saves is kept:
-- what a copy loaded early overwrites when it is saved late is part of the model.
pub mod Accounts
pub mod Balances
pub mod Supply
pub mod Ownership
pub mod Holdings
pub mod HolderFrames
pub mod Queue
pub mod StaleCopies
pub mod Frames
pub mod Keys
pub mod Delegation
pub mod Votes
pub mod Counters
use web3_nft.Prelude.{
  ℕ, zero, ◌+◌, ◌-◌, String, not, ◌&&◌, Option, none, some, List, [], ◌∷◌, ◌++◌, map, str_eq, ltb,
  ◌==◌, if◌then◌else◌, or_else, includes, ℤ, pos, ◌+ℤ◌, ◌-ℤ◌, ltb_ℤ, eqb_ℤ, wrap_i32,
}
use web3_nft.Table.{lookup, insert}
use web3_nft.Subgraph.Schema.{
  zero_address, Seed, Word, Account, Delegate, Governance, Store, word_not_found, negative_balance,
  log_error,
}
use web3_nft.Subgraph.Helpers.{
  save_account, save_delegate, save_governance, get_governance_entity, get_or_create_account,
  get_or_create_delegate,
}

pub record WordCreated : Type 0 where
  pub token_id : String
  pub background : ℕ
  pub body : ℕ
  pub accessory : ℕ
  pub head : ℕ
  pub glasses : ℕ

pub record DelegateChanged : Type 0 where
  pub delegator : String
  pub from_delegate : String
  pub to_delegate : String

pub record DelegateVotesChanged : Type 0 where
  pub delegate : String
  pub previous_balance : ℕ
  pub new_balance : ℕ

pub record Transfer : Type 0 where
  pub source : String
  pub target : String
  pub token_id : String

abbrev pub save_word : Word → Store → Store
save_word w s = record s { words = insert w.id w s.words }

abbrev pub save_seed : Seed → Store → Store
save_seed x s = record s { seeds = insert x.id x s.seeds }

pub handle_word_created : WordCreated → Store → Store
handle_word_created event s =
    let s' =
      save_seed
        (record {
          id = event.token_id;
          background = event.background;
          body = event.body;
          accessory = event.accessory;
          head = event.head;
          glasses = event.glasses;
        })
        s in
    elim (lookup event.token_id s'.words) [
      | none ↦ log_error (word_not_found event.token_id) s'
      | some word ↦ save_word (record word { seed = some event.token_id }) s'
    ]

-- `words.filter(n => !removed.includes(n))`
unfoldable pub without_all : List String → List String → List String
unfolding includes
without_all removed [] = []
without_all removed (n ∷ ns) =
    let rest = without_all removed ns in if includes n removed then rest else n ∷ rest

-- A text by reference: its place in the memory, and its characters.
pub record Reference : Type 0 where
  pub place : ℕ
  pub characters : String

-- The texts of a row that is loaded are new ones, at places from a free one on.
unfoldable pub read_texts : ℕ → List String → List Reference
read_texts free [] = []
read_texts free (n ∷ ns) = record { place = free; characters = n } ∷ read_texts (free + 1) ns

-- `words.filter(n => n !== removed)`: on texts `!==` compares the places, where `!=` would compare
-- the characters.
unfoldable pub without : Reference → List Reference → List Reference
without removed [] = []
without removed (n ∷ ns) =
    let rest = without removed ns in if n.place == removed.place then rest else n ∷ rest

-- A row's words after the filter. The id of the event's token is a text of its own, at the place 0.
unfoldable pub filtered : String → List String → List String
unfolding read_texts without
filtered token words =
    let removed : Reference = record { place = 0; characters = token } in
    map (λ (r : Reference). r.characters) (without removed (read_texts 1 words))

-- The delegate that a holder of `words` leaves, and the one that it turns to.
pub unrepresent_holder : List String → Delegate → Delegate
unfolding without_all wrap_i32
unrepresent_holder words d = record d {
  token_holders_represented_amount = wrap_i32 (d.token_holders_represented_amount -ℤ pos 1);
  words_represented = without_all words d.words_represented;
}

pub represent_holder : List String → Delegate → Delegate
unfolding wrap_i32
represent_holder words d = record d {
  token_holders_represented_amount = wrap_i32 (d.token_holders_represented_amount +ℤ pos 1);
  words_represented = d.words_represented ++ words;
}

-- The two delegates are loaded as two copies, also where they are one; the new one is saved last.
pub handle_delegate_changed : DelegateChanged → Store → Store
unfolding unrepresent_holder represent_holder
handle_delegate_changed event s =
    let (holder, s₁) = get_or_create_account event.delegator s in
    let (previous, s₂) = get_or_create_delegate event.from_delegate s₁ in
    let (next, s₃) = get_or_create_delegate event.to_delegate s₂ in
    let s₄ = save_account (record holder { delegate = some next.id }) s₃ in
    save_delegate (represent_holder holder.words next)
      (save_delegate (unrepresent_holder holder.words previous) s₄)

-- The counters of `handleDelegateVotesChanged`, over the governance entity that it loaded first.
votes_counted : DelegateVotesChanged → Governance → Governance
votes_counted event g =
    let gained = event.previous_balance == 0 && ltb 0 event.new_balance in
    let lost = event.new_balance == 0 in
    let n = if gained then g.current_delegates +ℤ pos 1 else g.current_delegates in
    let raw = g.delegated_votes_raw +ℤ (pos event.new_balance -ℤ pos event.previous_balance) in
    record g {
      current_delegates = if lost then n -ℤ pos 1 else n;
      delegated_votes_raw = raw;
      delegated_votes = raw;
    }

pub handle_delegate_votes_changed : DelegateVotesChanged → Store → Store
unfolding votes_counted
handle_delegate_votes_changed event s =
    let governance = get_governance_entity s in
    let (delegate, s₁) = get_or_create_delegate event.delegate s in
    let delegate' = record delegate {
      delegated_votes_raw = pos event.new_balance;
      delegated_votes = pos event.new_balance;
    } in
    save_governance (votes_counted event governance) (save_delegate delegate' s₁)

-- The state of a run of `handleTransfer`: the store, and the copy of the governance entity that it
-- loaded at its start, changes and saves.
pub record Run : Type 0 where
  pub store : Store
  pub governance : Governance

abbrev pub count_holder : ℤ → ℤ → Run → Run
count_holder before after r =
    let g = r.governance in
    let fewer = record g { current_token_holders = g.current_token_holders -ℤ pos 1 } in
    let more = record g { current_token_holders = g.current_token_holders +ℤ pos 1 } in
    if eqb_ℤ after (pos 0) && ltb_ℤ (pos 0) before
    then record { store = save_governance fewer r.store; governance = fewer }
    else if ltb_ℤ (pos 0) after && eqb_ℤ before (pos 0)
    then record { store = save_governance more r.store; governance = more }
    else r

abbrev pub count_minted : Run → Run
count_minted r =
    let g = r.governance in
    let g' = record g { total_token_holders = g.total_token_holders +ℤ pos 1 } in
    record { store = save_governance g' r.store; governance = g' }

abbrev pub count_burned : Run → Run
count_burned r =
    let g = r.governance in
    let g' = record g { total_token_holders = g.total_token_holders -ℤ pos 1 } in
    record { store = save_governance g' r.store; governance = g' }

-- The list of the giver's delegate is filtered, where one is set.
pub unrepresent : String → Option String → Store → Store
unrepresent token none s = s
unrepresent token (some id) s =
    let (d, s') = get_or_create_delegate id s in
    save_delegate (record d { words_represented = filtered token d.words_represented }) s'

abbrev pub check_balance : Account → Store → Store
check_balance a s =
    if ltb_ℤ a.token_balance_raw (pos 0)
    then log_error (negative_balance a.id a.token_balance_raw) s
    else s

-- The giver's account after the transfer. An account that gave its last word has no delegate.
pub debit : String → Account → Account
unfolding filtered
debit token holder =
    let before = holder.token_balance_raw in
    let after = before -ℤ pos 1 in
    let emptied = eqb_ℤ after (pos 0) && ltb_ℤ (pos 0) before in
    record holder {
      token_balance_raw = after;
      token_balance = after;
      words = filtered token holder.words;
      delegate = if emptied then none else holder.delegate;
    }

-- The receiver's account after the transfer. An account that was empty becomes its own delegate.
pub credit : String → Account → Account
credit token holder =
    let before = holder.token_balance_raw in
    let after = before +ℤ pos 1 in
    let held = holder.total_tokens_held_raw +ℤ pos 1 in
    let emptied = eqb_ℤ after (pos 0) && ltb_ℤ (pos 0) before in
    let first = not emptied && (ltb_ℤ (pos 0) after && eqb_ℤ before (pos 0)) in
    record holder {
      token_balance_raw = after;
      token_balance = after;
      total_tokens_held_raw = held;
      total_tokens_held = held;
      words = holder.words ++ token ∷ [];
      delegate = if first then some holder.id else holder.delegate;
    }

-- The part of `handleTransfer` for a giver that is not the zero address.
pub give : String → Account → Run → Run
unfolding debit unrepresent
give token holder r =
    let before = holder.token_balance_raw in
    let s₁ = check_balance (debit token holder) (unrepresent token holder.delegate r.store) in
    let r₂ = count_holder before (before -ℤ pos 1) (record r { store = s₁ }) in
    record r₂ { store = save_account (debit token holder) r₂.store }

abbrev pub own_word : String → String → Store → Store
own_word token owner s =
    let word = or_else (lookup token s.words) (record { id = token; seed = none; owner = none }) in
    save_word (record word { owner = some owner }) s

abbrev pub represent : String → Delegate → Store → Store
represent token d s =
    save_delegate (record d { words_represented = d.words_represented ++ token ∷ [] }) s

-- The part of `handleTransfer` for the receiver, over the copy of its account loaded at the start.
pub receive : String → Account → Run → Store
unfolding credit
receive token holder r =
    let (d, s₁) = get_or_create_delegate holder.id r.store in
    let before = holder.token_balance_raw in
    let r₂ = count_holder before (before +ℤ pos 1) (record r { store = represent token d s₁ }) in
    save_account (credit token holder) (own_word token holder.id r₂.store)

pub handle_transfer : Transfer → Store → Store
unfolding give receive
handle_transfer event s =
    let (giver, s₁) = get_or_create_account event.source s in
    let (receiver, s₂) = get_or_create_account event.target s₁ in
    let r : Run = record { store = s₂; governance = get_governance_entity s₂ } in
    let r₁ =
      if str_eq event.source zero_address then count_minted r else give event.token_id giver r in
    let r₂ = if str_eq event.target zero_address then count_burned r₁ else r₁ in
    receive event.token_id receiver r₂
