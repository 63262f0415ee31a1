-- ===== src/Webapp/Functions/Tally.antt =====
-- Each proposal is tallied with all of its votes, in the order of the words, and with no other.
use web3_nft.Prelude.{
  ℕ, ◌≡◌, refl, sym, ap, ◌∙◌, inl, inr, Bool, true, false, List, [], ◌∷◌, ◌++◌, arith, ◌==◌,
  if◌then◌else◌, Bool-cases,
}
use mathlib.Core.List.{append_assoc, append-nil}
use web3_nft.Webapp.Functions.{
  NormalizedVote, NormalizedWord, ProposalVote, ProposalVotes, built_proposal_vote, push_vote,
  push_votes, reduce_votes, reduce_proposal_votes,
}

-- The votes under a proposal's id.
unfoldable pub votes_at : ℕ → ProposalVotes → List ProposalVote
votes_at id [] = []
votes_at id ((key, votes) ∷ acc) = if key == id then votes else votes_at id acc

-- A word's votes for a proposal, and those of a list of words.
unfoldable pub votes_of : ℕ → NormalizedWord → List NormalizedVote → List ProposalVote
votes_of id word [] = []
votes_of id word (vote ∷ votes) =
    let rest = votes_of id word votes in
    if vote.proposal_id == id then built_proposal_vote word vote ∷ rest else rest

unfoldable pub votes_in : ℕ → List NormalizedWord → List ProposalVote
unfolding votes_of
votes_in id [] = []
votes_in id (word ∷ words) = votes_of id word word.votes ++ votes_in id words

abbrev one_vote : Bool → ProposalVote → List ProposalVote
one_vote true vote = vote ∷ []
one_vote false vote = []

one_vote_first :
    (t : Bool) (vote : ProposalVote) (votes : List ProposalVote)
    → one_vote t vote ++ votes ≡ (if t then vote ∷ votes else votes)
one_vote_first true vote votes = refl
one_vote_first false vote votes = refl

votes_at-push_vote :
    (id key : ℕ) (vote : ProposalVote) (acc : ProposalVotes)
    → votes_at id (push_vote key vote acc) ≡ votes_at id acc ++ one_vote (key == id) vote
unfolding votes_at push_vote
votes_at-push_vote id key vote [] = elim (Bool-cases (key == id)) [
  | inl e ↦ rw (e) refl
  | inr e ↦ rw (e) refl
]
votes_at-push_vote id key vote ((other, votes) ∷ acc) = elim (Bool-cases (other == key)) [
  | inl e ↦ elim (Bool-cases (key == id)) [
    | inl f ↦ let g : (other == id) ≡ true = ground (arith, e, f) in rw (e, f, votes_at, g) refl
    | inr f ↦
        let g : (other == id) ≡ false = ground (arith, e, f) in
        rw (e, f, votes_at, g) (sym (append-nil (votes_at id acc)))
  ]
  | inr e ↦ elim (Bool-cases (other == id)) [
    | inl f ↦
        let g : (key == id) ≡ false = ground (arith, e, f) in
        rw (e, f, votes_at, g) (sym (append-nil votes))
    | inr f ↦ rw (e, votes_at, f) (votes_at-push_vote id key vote acc)
  ]
]

votes_at-push_votes :
    (id : ℕ) (word : NormalizedWord) (votes : List NormalizedVote) (acc : ProposalVotes)
    → votes_at id (push_votes word votes acc) ≡ votes_at id acc ++ votes_of id word votes
unfolding push_votes votes_of
votes_at-push_votes id word [] acc = sym (append-nil (votes_at id acc))
votes_at-push_votes id word (vote ∷ votes) acc =
    let built = built_proposal_vote word vote in
    votes_at-push_votes id word votes (push_vote vote.proposal_id built acc)
    ∙ ap (λ l. l ++ votes_of id word votes) (votes_at-push_vote id vote.proposal_id built acc)
    ∙ append_assoc (votes_at id acc) (one_vote (vote.proposal_id == id) built)
        (votes_of id word votes)
    ∙ ap (λ l. votes_at id acc ++ l)
        (one_vote_first (vote.proposal_id == id) built (votes_of id word votes))

votes_at-reduce_votes :
    (id : ℕ) (words : List NormalizedWord) (acc : ProposalVotes)
    → votes_at id (reduce_votes words acc) ≡ votes_at id acc ++ votes_in id words
unfolding reduce_votes votes_in
votes_at-reduce_votes id [] acc = sym (append-nil (votes_at id acc))
votes_at-reduce_votes id (word ∷ words) acc =
    votes_at-reduce_votes id words (push_votes word word.votes acc)
    ∙ ap (λ l. l ++ votes_in id words) (votes_at-push_votes id word word.votes acc)
    ∙ append_assoc (votes_at id acc) (votes_of id word word.votes) (votes_in id words)

-- Under each proposal stand the votes of all words for it, in the order of the words and of each
-- word's votes, and no others.
pub reduce_proposal_votes-tally :
    (id : ℕ) (words : List NormalizedWord)
    → votes_at id (reduce_proposal_votes words) ≡ votes_in id words
unfolding reduce_proposal_votes votes_at
reduce_proposal_votes-tally id words = votes_at-reduce_votes id words []
