-- ===== src/Webapp/Dao/Titles.antt =====
-- The title of a proposal in wrappers/wordsDao.ts, from its description: two patterns on the text, matched
-- as regular expressions are, the longest run first and shorter ones after it.
pub mod Extraction
use web3_nft.Prelude.{
  ℕ, zero, suc, Bool, true, false, not, ◌&&◌, ◌||◌, Option, none, some, [], ◌∷◌, leb, ◌==◌,
  if◌then◌else◌, length, drop, or_else,
}
use web3_nft.Sdk.Hex.{Text}

-- `\s`: tab, line ends, the space and the other blanks of Unicode.
unfoldable pub is_space : ℕ → Bool
is_space c =
    (leb 9 c && leb c 13)
    || (c == 32
        || (c == 160
            || (c == 5760
                || ((leb 8192 c && leb c 8202)
                    || (c == 8232
                        || (c == 8233
                            || (c == 8239 || (c == 8287 || (c == 12288 || c == 65279)))))))))

-- The leading spaces, and what follows them.
unfoldable pub spaces : Text → Text
spaces [] = []
spaces (c ∷ cs) = let rest = c ∷ spaces cs in if is_space c then rest else []

unfoldable pub after_spaces : Text → Text
after_spaces [] = []
after_spaces (c ∷ cs) = let rest = after_spaces cs in if is_space c then rest else c ∷ cs

-- `[^\n]+` from the start of a text: its first line, and the rest from the line feed (10) on.
unfoldable pub first_line : Text → Text
first_line [] = []
first_line (c ∷ cs) = let rest = c ∷ first_line cs in if c == 10 then [] else rest

unfoldable pub after_line : Text → Text
after_line [] = []
after_line (c ∷ cs) = let rest = after_line cs in if c == 10 then c ∷ cs else rest

abbrev pub is_none_left : Text → Bool
is_none_left [] = true
is_none_left (c ∷ cs) = false

-- Up to `n` number signs (35), and how many there are.
unfoldable pub after_hashes : ℕ → Text → Text
after_hashes zero cs = cs
after_hashes (suc n) [] = []
after_hashes (suc n) (c ∷ cs) = let rest = after_hashes n cs in if c == 35 then rest else c ∷ cs

unfoldable pub starts_with : ℕ → Text → Bool
starts_with d [] = false
starts_with d (c ∷ cs) = c == d

-- `\s+([^\n]+)`: from the longest run of spaces back to the first one; `none` where no line follows.
unfoldable pub line_after_run : ℕ → Text → Option Text
unfolding first_line
line_after_run zero cs = none
line_after_run (suc n) cs =
    let shorter = line_after_run n cs in
    elim (first_line (drop (suc n) cs)) [ [] ↦ shorter | c ∷ line ↦ some (c ∷ line) ]

-- `/^\s*#{1,6}\s+([^\n]+)/`
unfoldable pub extract_hash_title : Text → Option Text
unfolding line_after_run after_spaces spaces after_hashes starts_with
extract_hash_title body =
    let hashes = after_spaces body in
    let rest = after_hashes 6 hashes in
    if starts_with 35 hashes then line_after_run (length (spaces rest)) rest else none

-- `={3,25}` or `-{3,25}` after a line feed.
unfoldable pub is_underlined : Text → Bool
is_underlined (n ∷ a ∷ b ∷ c ∷ cs) =
    n == 10 && ((a == 61 && (b == 61 && c == 61)) || (a == 45 && (b == 45 && c == 45)))
is_underlined _ = false

-- `\s*([^\n]+)\n(...)`: from the longest run of spaces back to none.
unfoldable pub underlined_after : Text → Option Text → Option Text
unfolding first_line after_line is_underlined
underlined_after cs shorter =
    if not (is_none_left (first_line cs)) && is_underlined (after_line cs)
    then some (first_line cs)
    else shorter

unfoldable pub underlined_after_run : ℕ → Text → Option Text
unfolding underlined_after
underlined_after_run zero cs = underlined_after cs none
underlined_after_run (suc n) cs = underlined_after (drop (suc n) cs) (underlined_after_run n cs)

-- `/^\s*([^\n]+)\n(={3,25}|-{3,25})/`
unfoldable pub extract_equal_title : Text → Option Text
unfolding underlined_after_run spaces
extract_equal_title body = underlined_after_run (length (spaces body)) body

-- An empty body counts as missing.
unfoldable pub extract_title : Option Text → Option Text
unfolding extract_hash_title extract_equal_title
extract_title none = none
extract_title (some body) = if is_none_left body then none else elim (extract_hash_title body) [
  | some title ↦ some title
  | none ↦ extract_equal_title body
]

-- `text.replace(/dd/g, '')`: pairs of a character, from the left.
unfoldable pub remove_pairs : ℕ → Text → Text
remove_pairs d [] = []
remove_pairs d (c ∷ []) = c ∷ []
remove_pairs d (c ∷ e ∷ cs) =
    let plain = c ∷ remove_pairs d (e ∷ cs) in
    let rest = remove_pairs d cs in if c == d && e == d then rest else plain

-- Pairs of underscores (95) go first, then pairs of stars (42).
unfoldable pub remove_markdown_style : Option Text → Option Text
unfolding remove_pairs
remove_markdown_style none = none
remove_markdown_style (some title) = some (remove_pairs 42 (remove_pairs 95 title))

-- "Untitled"
abbrev pub untitled : Text
untitled = 85 ∷ 110 ∷ 116 ∷ 105 ∷ 116 ∷ 108 ∷ 101 ∷ 100 ∷ []

unfoldable pub title_of : Option Text → Text
unfolding extract_title remove_markdown_style
title_of description = or_else (remove_markdown_style (extract_title description)) untitled
