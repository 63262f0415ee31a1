-- ===== src/Subgraph/Tokens/Queue.antt =====
-- The token's handlers leave the counter of queued proposals alone.
use web3_nft.Prelude.{
  String, ◌≡◌, refl, ◌∙◌, Bool, true, false, Option, none, some, arith, str_eq, if◌then◌else◌, ℤ,
  pos, ◌+ℤ◌, ◌-ℤ◌,
}
use web3_nft.Subgraph.Schema.{Store, Account, zero_address}
use web3_nft.Subgraph.Helpers.{get_governance_entity, get_or_create_account, get_or_create_delegate}
use web3_nft.Subgraph.Helpers.Views.{get_or_create_account-frame}
use web3_nft.Subgraph.Tokens.{
  WordCreated, DelegateChanged, DelegateVotesChanged, Transfer, Run, count_holder, count_minted,
  count_burned, unrepresent, check_balance, debit, give, represent, receive, votes_counted,
  handle_word_created, handle_delegate_changed, handle_delegate_votes_changed, handle_transfer,
}

abbrev pub counter : Store → ℤ
counter s = (get_governance_entity s).proposals_queued

pub account-counter : (id : String) (s : Store) → counter (get_or_create_account id s).1 ≡ counter s
unfolding get_governance_entity
account-counter id s = ground (arith, get_or_create_account-frame id s)

pub delegate-counter :
    (id : String) (s : Store) → counter (get_or_create_delegate id s).1 ≡ counter s
unfolding get_governance_entity get_or_create_delegate
delegate-counter id s = ground arith

pub word_created-counter :
    (e : WordCreated) (s : Store) → counter (handle_word_created e s) ≡ counter s
unfolding handle_word_created get_governance_entity
word_created-counter e s = ground arith

pub delegate_changed-counter :
    (e : DelegateChanged) (s : Store) → counter (handle_delegate_changed e s) ≡ counter s
unfolding handle_delegate_changed get_governance_entity
delegate_changed-counter e s =
    let s₁ = (get_or_create_account e.delegator s).1 in
    let s₂ = (get_or_create_delegate e.from_delegate s₁).1 in
    delegate-counter e.to_delegate s₂
    ∙ delegate-counter e.from_delegate s₁
    ∙ account-counter e.delegator s

pub votes_changed-counter :
    (e : DelegateVotesChanged) (s : Store) → counter (handle_delegate_votes_changed e s) ≡ counter s
unfolding handle_delegate_votes_changed votes_counted get_governance_entity
votes_changed-counter e s = refl

-- Both copies of the governance entity, the store's and the one that the run holds.
abbrev HasCounter : ℤ → Run → Type 0
HasCounter n r = (counter r.store ≡ n) × (r.governance.proposals_queued ≡ n)

count_holder-HasCounter :
    (n before after : ℤ) (r : Run) → HasCounter n r → HasCounter n (count_holder before after r)
unfolding get_governance_entity
count_holder-HasCounter n before after r (h, k) = ground arith

unrepresent-counter :
    (token : String) (o : Option String) (s : Store) → counter (unrepresent token o s) ≡ counter s
unfolding get_governance_entity unrepresent
unrepresent-counter token none s = refl
unrepresent-counter token (some id) s = delegate-counter id s

balance-counter : (a : Account) (s : Store) → counter (check_balance a s) ≡ counter s
unfolding get_governance_entity
balance-counter a s = ground arith

give-HasCounter :
    (n : ℤ) (token : String) (a : Account) (r : Run)
    → HasCounter n r
    → HasCounter n (give token a r)
unfolding give get_governance_entity
give-HasCounter n token a r (h, k) =
    let s₀ = unrepresent token a.delegate r.store in
    let s₁ = check_balance (debit token a) s₀ in
    let before = a.token_balance_raw in
    let kept =
      balance-counter (debit token a) s₀ ∙ unrepresent-counter token a.delegate r.store ∙ h in
    let p =
      count_holder-HasCounter n before (before -ℤ pos 1) (record r { store = s₁ }) (kept, k) in
    (p.0, p.1)

receive-counter :
    (n : ℤ) (token : String) (a : Account) (r : Run)
    → HasCounter n r
    → counter (receive token a r) ≡ n
unfolding receive get_governance_entity
receive-counter n token a r (h, k) =
    let (d, s₁) = get_or_create_delegate a.id r.store in
    let before = a.token_balance_raw in
    let kept = delegate-counter a.id r.store ∙ h in
    (count_holder-HasCounter n before (before +ℤ pos 1) (record r { store = represent token d s₁ })
      (kept, k)).0

if-HasCounter :
    (t : Bool) (n : ℤ) (r r' : Run)
    → HasCounter n r
    → HasCounter n r'
    → HasCounter n (if t then r else r')
if-HasCounter true n r r' h k = h
if-HasCounter false n r r' h k = k

pub transfer-counter : (e : Transfer) (s : Store) → counter (handle_transfer e s) ≡ counter s
unfolding handle_transfer get_governance_entity
transfer-counter e s =
    let (giver, s₁) = get_or_create_account e.source s in
    let (receiver, s₂) = get_or_create_account e.target s₁ in
    let r : Run = record { store = s₂; governance = get_governance_entity s₂ } in
    let loaded = account-counter e.target s₁ ∙ account-counter e.source s in
    let from_zero = str_eq e.source zero_address in
    let to_zero = str_eq e.target zero_address in
    let r₁ = if from_zero then count_minted r else give e.token_id giver r in
    let given : HasCounter (counter s) r₁ =
      if-HasCounter from_zero (counter s) (count_minted r) (give e.token_id giver r)
        (loaded, loaded) (give-HasCounter (counter s) e.token_id giver r (loaded, loaded)) in
    receive-counter (counter s) e.token_id receiver (if to_zero then count_burned r₁ else r₁)
      (if-HasCounter to_zero (counter s) (count_burned r₁) r₁ (given.1, given.1) given)
