-- ===== src/Webapp/Dao/Proposals/Headings.antt =====
-- A proposal's title, from the page that writes it to the list that shows it.
use web3_nft.Prelude.{
  ℕ, ◌≡◌, refl, ap, ◌∙◌, false, ◌&&◌, Option, some, [], ◌∷◌, ◌++◌, arith, ◌==◌, or_else,
}
use web3_nft.Sdk.Hex.{Text}
use web3_nft.Subgraph.Dao.{line_feeds}
use web3_nft.Webapp.Dao.VotePage.{ProposalState}
use web3_nft.Webapp.Dao.CreateProposal.{description_of}
use web3_nft.Webapp.Dao.Titles.{remove_pairs, remove_markdown_style, title_of, untitled}
use web3_nft.Webapp.Dao.Titles.Extraction.{IsLine, HasNoPair, extract_title-heading}
use web3_nft.Webapp.Dao.CreatedLogs.{FormattedLog}
use web3_nft.Webapp.Dao.Proposals.{ProposalCallResult, proposal_of}

-- No backslash (92) is followed by an "n" (110).
unfoldable pub HasNoEscape : Text → Type 0
HasNoEscape [] = Unit
HasNoEscape (c ∷ []) = Unit
HasNoEscape (c ∷ d ∷ cs) = ((c == 92 && d == 110) ≡ false) × HasNoEscape (d ∷ cs)

-- A title on one line that has nothing of what the list rewrites: no escaped line feed, no pair of
-- underscores (95) and no pair of stars (42).
pub record IsPlain (title : Text) : Type 0 where
  pub line : IsLine title
  pub escapes : HasNoEscape title
  pub italics : HasNoPair 95 title
  pub bold : HasNoPair 42 title

line_feeds-append :
    (cs rest : Text) → HasNoEscape cs → line_feeds (cs ++ 10 ∷ rest) ≡ cs ++ line_feeds (10 ∷ rest)
unfolding line_feeds HasNoEscape
line_feeds-append [] rest h = refl
line_feeds-append (c ∷ []) rest h =
    let apart : (c == 92 && 10 == 110) ≡ false = ground arith in rw apart refl
line_feeds-append (c ∷ d ∷ cs) rest (p, h) =
    rw p (ap (λ t. c ∷ t) (line_feeds-append (d ∷ cs) rest h))

begins_with_feed : (rest : Text) → (later : Text) × (line_feeds (10 ∷ rest) ≡ 10 ∷ later)
unfolding line_feeds
begins_with_feed [] = ([], refl)
begins_with_feed (d ∷ rest) = (line_feeds (d ∷ rest), refl)

heading-HasNoEscape : (title : Text) → HasNoEscape title → HasNoEscape (35 ∷ 32 ∷ title)
unfolding HasNoEscape
heading-HasNoEscape [] h = (refl, tt)
heading-HasNoEscape (c ∷ cs) h = (refl, (refl, h))

pub remove_pairs-same : (d : ℕ) (cs : Text) → HasNoPair d cs → remove_pairs d cs ≡ cs
unfolding remove_pairs HasNoPair
remove_pairs-same d [] h = refl
remove_pairs-same d (c ∷ []) h = refl
remove_pairs-same d (c ∷ e ∷ cs) (p, h) = rw p (ap (λ t. c ∷ t) (remove_pairs-same d (e ∷ cs) h))

title-heading :
    (title rest : Text) → IsPlain title → title_of (some (35 ∷ 32 ∷ title ++ 10 ∷ rest)) ≡ title
unfolding title_of remove_markdown_style
title-heading title rest h =
    ap (λ o. or_else (remove_markdown_style o) untitled) (extract_title-heading title rest h.line)
    ∙ ap (remove_pairs 42) (remove_pairs-same 95 title h.italics)
    ∙ remove_pairs-same 42 title h.bold

-- A title of one line that does not begin with a blank and has no backslash before an "n" and no pair
-- of underscores or stars: the list of proposals shows it for a proposal whose log has the description
-- that the page for a new proposal writes, whatever the body.
pub title-description :
    (voting_delay : Option ℕ) (call : Option ProposalCallResult) (state : Option ProposalState)
    (log : FormattedLog) (title body : Text)
    → IsPlain title
    → log.description ≡ description_of title body
    → (proposal_of voting_delay call state (some log)).title ≡ title
unfolding proposal_of
title-description voting_delay call state log title body h written =
    let (later, feeds) = begins_with_feed (10 ∷ body) in
    ap (λ t. title_of (some (line_feeds t))) written
    ∙ ap (λ t. title_of (some t))
        (line_feeds-append (35 ∷ 32 ∷ title) (10 ∷ body) (heading-HasNoEscape title h.escapes))
    ∙ ap (λ t. title_of (some (35 ∷ 32 ∷ title ++ t))) feeds
    ∙ title-heading title later h
