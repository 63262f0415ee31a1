-- ===== src/Webapp/Functions.antt =====
-- functions/theGraph.ts, utils.ts, v0-proposal-votes and v0-noun-owners: the words of the subgraph in
-- a normal form, who owns or represents them, and the votes of each proposal. `number_of` is the
-- big number of a text, and `none` the error that it throws.
pub mod Tally
pub mod Verify
use web3_nft.Prelude.{
  ℕ, ◌+◌, ◌-◌, ◌/◌, String, Bool, false, ◌||◌, Option, none, some, List, [], ◌∷◌, ◌++◌, map, str_eq,
  ltb, ◌==◌, if◌then◌else◌, length,
}

pub record RawVote : Type 0 where
  pub proposal_id : ℕ
  pub support_detailed : ℕ

pub record WordSeed : Type 0 where
  pub background : ℕ
  pub body : ℕ
  pub accessory : ℕ
  pub head : ℕ
  pub glasses : ℕ

pub record RawWord : Type 0 where
  pub id : ℕ
  pub owner_id : String
  pub owner_delegate : Option String
  pub votes : List RawVote
  pub seed : WordSeed

pub record NormalizedVote : Type 0 where
  pub proposal_id : ℕ
  pub support_detailed : ℕ

pub record NormalizedWord : Type 0 where
  pub id : ℕ
  pub owner : String
  pub delegated_to : Option String
  pub votes : List NormalizedVote
  pub seed : WordSeed

abbrev pub normalize_vote : RawVote → NormalizedVote
normalize_vote vote = record {
  proposal_id = vote.proposal_id;
  support_detailed = vote.support_detailed;
}

abbrev pub normalize_seed : WordSeed → WordSeed
normalize_seed seed = record {
  background = seed.background;
  body = seed.body;
  accessory = seed.accessory;
  head = seed.head;
  glasses = seed.glasses;
}

abbrev pub normalize_word : RawWord → NormalizedWord
normalize_word word = record {
  id = word.id;
  owner = word.owner_id;
  delegated_to = word.owner_delegate;
  votes = map normalize_vote word.votes;
  seed = normalize_seed word.seed;
}

abbrev pub normalize_words : List RawWord → List NormalizedWord
normalize_words words = map normalize_word words

module _ (number_of : String → Option ℕ) where
  unfoldable pub big_numbers_equal : String → String → Option Bool
  big_numbers_equal a b = elim (number_of a) [
    | none ↦ none
    | some m ↦ elim (number_of b) [ none ↦ none | some n ↦ some (m == n) ]
  ]

  -- `R.filter` of a test that may throw.
  unfoldable pub filter_words :
      (NormalizedWord → Option Bool) → List NormalizedWord → Option (List NormalizedWord)
  filter_words test [] = some []
  filter_words test (word ∷ words) =
      let rest = filter_words test words in
      elim (test word) [
        | none ↦ none
        | some keep ↦ elim rest [
          | none ↦ none
          | some kept ↦ some (if keep then word ∷ kept else kept)
        ]
      ]

  abbrev pub owner_filter : String → List NormalizedWord → Option (List NormalizedWord)
  owner_filter address words = filter_words (λ word. big_numbers_equal address word.owner) words

  abbrev pub is_some_word : Option (List NormalizedWord) → Option Bool
  is_some_word none = none
  is_some_word (some words) = some (ltb 0 (length words))

  abbrev pub is_word_owner : String → List NormalizedWord → Option Bool
  is_word_owner address words = is_some_word (owner_filter address words)

  unfoldable pub delegated_to : String → Option String → Option Bool
  delegated_to address none = some false
  delegated_to address (some delegate) =
      if str_eq delegate "" then some false else big_numbers_equal address delegate

  abbrev pub delegate_filter : String → List NormalizedWord → Option (List NormalizedWord)
  delegate_filter address words =
      filter_words (λ word. delegated_to address word.delegated_to) words

  abbrev pub is_word_delegate : String → List NormalizedWord → Option Bool
  is_word_delegate address words = is_some_word (delegate_filter address words)

pub record LiteWord : Type 0 where
  pub id : ℕ
  pub owner : String
  pub delegated_to : Option String

abbrev pub lighten_word : NormalizedWord → LiteWord
lighten_word word = record { id = word.id; owner = word.owner; delegated_to = word.delegated_to }

pub record ProposalVote : Type 0 where
  pub word_id : ℕ
  pub owner : String
  pub delegated_to : Option String
  pub support_detailed : ℕ

abbrev pub ProposalVotes : Type 0
ProposalVotes = List (ℕ × List ProposalVote)

abbrev pub built_proposal_vote : NormalizedWord → NormalizedVote → ProposalVote
built_proposal_vote word vote = record {
  word_id = word.id;
  owner = word.owner;
  delegated_to = word.delegated_to;
  support_detailed = vote.support_detailed;
}

-- `acc[id] ||= []`, then `acc[id].push(vote)`
unfoldable pub push_vote : ℕ → ProposalVote → ProposalVotes → ProposalVotes
push_vote id vote [] = (id, vote ∷ []) ∷ []
push_vote id vote ((key, votes) ∷ acc) =
    let rest = push_vote id vote acc in
    if key == id then (key, votes ++ vote ∷ []) ∷ acc else (key, votes) ∷ rest

unfoldable pub push_votes : NormalizedWord → List NormalizedVote → ProposalVotes → ProposalVotes
unfolding push_vote
push_votes word [] acc = acc
push_votes word (vote ∷ votes) acc =
    push_votes word votes (push_vote vote.proposal_id (built_proposal_vote word vote) acc)

unfoldable pub reduce_votes : List NormalizedWord → ProposalVotes → ProposalVotes
unfolding push_votes
reduce_votes [] acc = acc
reduce_votes (word ∷ words) acc = reduce_votes words (push_votes word word.votes acc)

pub reduce_proposal_votes : List NormalizedWord → ProposalVotes
unfolding reduce_votes
reduce_proposal_votes words = reduce_votes words []
