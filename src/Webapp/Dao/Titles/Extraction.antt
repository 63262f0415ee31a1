-- ===== src/Webapp/Dao/Titles/Extraction.antt =====
-- What the titles of proposals are.
use web3_nft.Prelude.{
  ℕ, ◌≡◌, refl, ap, ◌∙◌, ◌⊎◌, inl, inr, true, false, ◌&&◌, Option, none, some, [], ◌∷◌, ◌++◌, map,
  arith, ◌==◌, if◌then◌else◌, Bool-cases, Option-cases, length, get_elem?, or_else, All,
}
use web3_nft.Sdk.Hex.{Text}
use web3_nft.Webapp.Dao.Titles.{
  is_space, spaces, after_spaces, first_line, after_hashes, starts_with, line_after_run,
  extract_hash_title, extract_title, remove_pairs, remove_markdown_style, title_of,
}

-- A title on a line of its own that does not start with a blank.
pub record IsLine (title : Text) : Type 0 where
  pub one_line : All (λ c. (c == 10) ≡ false) title
  pub begins : or_else (get_elem? (map is_space title) 0) true ≡ false

first_line_lem :
    (title rest : Text)
    → All (λ c. (c == 10) ≡ false) title
    → first_line (title ++ 10 ∷ rest) ≡ title
unfolding first_line
first_line_lem [] rest h = refl
first_line_lem (c ∷ cs) rest (p, h) = rw p (ap (λ l. c ∷ l) (first_line_lem cs rest h))

hash_visible : is_space 35 ≡ false
unfolding is_space
hash_visible = refl

blank : is_space 32 ≡ true
unfolding is_space
blank = refl

hash_title :
    (c : ℕ) (cs : Text)
    → is_space c ≡ false
    → (c == 10) ≡ false
    → extract_hash_title (35 ∷ 32 ∷ c ∷ cs) ≡ some (c ∷ first_line cs)
unfolding extract_hash_title after_spaces after_hashes starts_with spaces line_after_run first_line
hash_title c cs e p =
    let whole = 35 ∷ 32 ∷ c ∷ cs in
    let hashes : after_spaces whole ≡ whole = rw hash_visible refl in
    let run : spaces (32 ∷ c ∷ cs) ≡ 32 ∷ [] = rw (blank, e) refl in
    let line : line_after_run 1 (32 ∷ c ∷ cs) ≡ some (c ∷ first_line cs) =
      rw (line_after_run, first_line, p) refl in
    ap
      (λ (t : Text).
        if starts_with 35 t
        then line_after_run (length (spaces (after_hashes 6 t))) (after_hashes 6 t)
        else none)
      hashes
    ∙ ap (λ (t : Text). line_after_run (length t) (32 ∷ c ∷ cs)) run
    ∙ line

-- The title of a text that begins with it, written as a heading.
pub extract_title-heading :
    (title rest : Text)
    → IsLine title
    → extract_title (some (35 ∷ 32 ∷ title ++ 10 ∷ rest)) ≡ some title
unfolding extract_title
extract_title-heading [] rest h = absurd (cc h.begins)
extract_title-heading (c ∷ cs) rest h =
    let found =
      hash_title c (cs ++ 10 ∷ rest) h.begins (h.one_line.0)
      ∙ ap (λ l. some (c ∷ l)) (first_line_lem cs rest (h.one_line.1)) in
    rw found refl

-- No pair of the character is left.
unfoldable pub HasNoPair : ℕ → Text → Type 0
HasNoPair d [] = Unit
HasNoPair d (c ∷ []) = Unit
HasNoPair d (c ∷ e ∷ cs) = ((c == d && e == d) ≡ false) × HasNoPair d (e ∷ cs)

keeps_pair_free :
    (d c : ℕ) (cs : Text)
    → ((c == d) ≡ false) ⊎ (starts_with d cs ≡ false)
    → HasNoPair d cs
    → HasNoPair d (c ∷ cs)
unfolding HasNoPair starts_with
keeps_pair_free d c [] h k = tt
keeps_pair_free d c (e ∷ cs) h k = (ground arith, k)

-- What is left starts by the character only where the text does.
remove_pairs-starts :
    (d : ℕ) (cs : Text) → starts_with d cs ≡ false → starts_with d (remove_pairs d cs) ≡ false
unfolding remove_pairs starts_with
remove_pairs-starts d [] h = refl
remove_pairs-starts d (c ∷ []) h = h
remove_pairs-starts d (c ∷ e ∷ cs) h = rw h h

one_differs :
    (d c e : ℕ) (cs : Text)
    → (c == d && e == d) ≡ false
    → ((c == d) ≡ false) ⊎ (starts_with d (remove_pairs d (e ∷ cs)) ≡ false)
unfolding starts_with
one_differs d c e cs t = elim (Bool-cases (c == d)) [
  | inr h ↦ inl h
  | inl h ↦ inr (remove_pairs-starts d (e ∷ cs) (rw h at t))
]

remove_pairs-HasNoPair : (d : ℕ) (cs : Text) → HasNoPair d (remove_pairs d cs)
unfolding remove_pairs HasNoPair
remove_pairs-HasNoPair d [] = tt
remove_pairs-HasNoPair d (c ∷ []) = tt
remove_pairs-HasNoPair d (c ∷ e ∷ cs) = elim (Bool-cases (c == d && e == d)) [
  | inl t ↦ rw t (remove_pairs-HasNoPair d cs)
  | inr t ↦ rw t (
      keeps_pair_free d c (remove_pairs d (e ∷ cs)) (one_differs d c e cs t)
        (remove_pairs-HasNoPair d (e ∷ cs)))
]

-- A title never shows a pair of stars.
pub title_of-HasNoPair : (description : Option Text) → HasNoPair 42 (title_of description)
unfolding title_of remove_markdown_style HasNoPair
title_of-HasNoPair description = elim (Option-cases (extract_title description)) [
  | inl e ↦ rw (e, remove_markdown_style) (refl, (refl, (refl, (refl, (refl, (refl, (refl, tt)))))))
  | inr (title, e) ↦
      rw (e, remove_markdown_style) (remove_pairs-HasNoPair 42 (remove_pairs 95 title))
]
