-- ===== src/Webapp/Dao/Proposals/Lookup.antt =====
-- A proposal that is looked up by its id.
use web3_nft.Prelude.{
  ℕ, zero, suc, ◌+◌, ◌≤◌, ◌<◌, ◌≡◌, refl, ap, ◌∙◌, inl, inr, Bool, true, false, not, ◌&&◌, Option,
  none, some, List, [], map, arith, ◌==◌, if◌then◌else◌, ==_iff, Bool-cases, Option-cases, length,
  get_elem?, or_else,
}
use mathlib.Core.Option
use web3_nft.Webapp.Dao.VotePage.{ProposalState}
use web3_nft.Webapp.Dao.CreatedLogs.{FormattedLog}
use web3_nft.Webapp.Dao.Proposals.{
  ProposalCallResult, Proposal, ProposalData, indices_from, count_to_indices, proposal_of,
  proposals_from, use_all_proposals, has_id, find_proposal, use_proposal,
}

-- The contract answers for an index with the proposal of that id.
abbrev pub AnswersByIndex : (ℕ → Option ProposalCallResult) → Type 0
AnswersByIndex call = (i : ℕ) (p : ProposalCallResult) → call i ≡ some p → p.id ≡ i

get_elem?-indices :
    {A : Type 0} (f : ℕ → A) (i n k : ℕ)
    → k < n
    → get_elem? (map f (indices_from i n)) k ≡ some (f (suc (i + k)))
unfolding indices_from
get_elem?-indices f i zero k h = absurd (omega arith)
get_elem?-indices f i (suc n) zero h = ap (λ m. some (f (suc m))) (omega arith)
get_elem?-indices f i (suc n) (suc k) h =
    let same : suc i + k ≡ i + suc k = omega arith in
    get_elem?-indices f (suc i) n k (omega arith) ∙ ap (λ m. some (f (suc m))) same

length-indices : {A : Type 0} (f : ℕ → A) (i n : ℕ) → length (map f (indices_from i n)) ≡ n
unfolding indices_from
length-indices f i zero = refl
length-indices f i (suc n) = ap suc (length-indices f (suc i) n)

module _ (call : ℕ → Option ProposalCallResult) (by_index : AnswersByIndex call)
    (voting_delay : Option ℕ) (states : List (Option ProposalState)) (logs : List FormattedLog)
    (k : ℕ) (p : ProposalCallResult) (answered : call (suc k) ≡ some p) where
  abbrev entry : Proposal
  entry = proposal_of voting_delay (some p) (or_else (get_elem? states k) none) (get_elem? logs k)

  abbrev id_at : ℕ → Option ℕ
  id_at i = Option.map (λ (q : ProposalCallResult). q.id) (call (suc i))

  abbrev entry_at : ℕ → Proposal
  entry_at i =
      proposal_of voting_delay (call (suc i)) (or_else (get_elem? states i) none) (get_elem? logs i)

  abbrev rest : ℕ → ℕ → Option Proposal
  rest i n =
      find_proposal (suc k)
        (proposals_from voting_delay states logs (suc i) (map call (indices_from (suc i) n)))

  own_id : has_id (suc k) (id_at k) ≡ true
  unfolding has_id
  own_id = rw answered (rw (by_index (suc k) p answered) (ground arith))

  other_id : (i : ℕ) → (i == k) ≡ false → has_id (suc k) (id_at i) ≡ false
  unfolding has_id
  other_id i e = elim (Option-cases (call (suc i))) [
    | inl none_there ↦ rw (none_there, has_id) refl
    | inr (q, there) ↦ rw there (rw (by_index (suc i) q there) (ground arith))
  ]

  find_from :
      (i n : ℕ)
      → i ≤ k
      → k < i + n
      → find_proposal
          (suc k)
          (proposals_from voting_delay states logs i (map call (indices_from i n)))
        ≡ some entry
  unfolding find_proposal proposals_from indices_from proposal_of
  find_from i zero h g = absurd (omega arith)
  find_from i (suc n) h g = elim (Bool-cases (i == k)) [
    | inl e ↦
        let at : i ≡ k = (==_iff i k).0 e in
        ap (λ b. if b then some (entry_at i) else rest i n)
          (ap (λ j. has_id (suc k) (id_at j)) at ∙ own_id)
        ∙ ap (λ j. some (entry_at j)) at
        ∙ ap
            (λ o.
              some
                (proposal_of voting_delay o (or_else (get_elem? states k) none) (get_elem? logs k)))
            answered
    | inr e ↦
        ap (λ b. if b then some (entry_at i) else rest i n) (other_id i e)
        ∙ find_from (suc i) n (ground arith) (omega arith)
  ]

zero_plus : (n : ℕ) → 0 + n ≡ n
zero_plus n = omega arith

and_false : (b : Bool) → (b && false) ≡ false
and_false true = refl
and_false false = refl

abbrev shown : List Proposal → Bool → ProposalData
shown ps loading = record { data_list = ps; loading = loading }

-- Once the logs are there, the proposal that is looked up by an id from 1 to the count is made of the
-- contract's answer and state for that id and of the log at its place.
pub use_proposal_lem :
    (call : ℕ → Option ProposalCallResult) (state_call : ℕ → Option ProposalState)
    (voting_delay : Option ℕ) (logs : List FormattedLog) (count k : ℕ) (p : ProposalCallResult)
    → AnswersByIndex call
    → (length logs == 0) ≡ false
    → k < count
    → call (suc k) ≡ some p
    → use_proposal (suc k) (some count) voting_delay call state_call (some logs)
      ≡ some (proposal_of voting_delay (some p) (state_call (suc k)) (get_elem? logs k))
unfolding use_proposal use_all_proposals count_to_indices
use_proposal_lem call state_call voting_delay logs count k p by_index come within answered =
    let states = map state_call (indices_from 0 count) in
    let state : get_elem? states k ≡ some (state_call (suc k)) =
      get_elem?-indices state_call 0 count k within
      ∙ ap (λ n. some (state_call (suc n))) (zero_plus k) in
    let found =
      find_from call by_index voting_delay states logs k p answered 0 count (omega arith)
        (omega arith) in
    ap
      (λ b.
        find_proposal (suc k)
          (if not (length (map call (indices_from 0 count)) == 0) && b
            then shown [] true
            else shown (proposals_from voting_delay states logs 0 (map call (indices_from 0 count)))
                false).data_list)
      come
    ∙ ap
        (λ b.
          find_proposal (suc k)
            (if b
              then shown [] true
              else shown
                  (proposals_from voting_delay states logs 0 (map call (indices_from 0 count)))
                  false).data_list)
        (and_false (not (length (map call (indices_from 0 count)) == 0)))
    ∙ found
    ∙ ap (λ o. some (proposal_of voting_delay (some p) (or_else o none) (get_elem? logs k))) state
