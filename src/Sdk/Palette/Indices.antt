-- ===== src/Sdk/Palette/Indices.antt =====
-- The indices of the palette: a color's index is its place in it, and stays.
use web3_nft.Prelude.{
  ℕ, suc, ◌+◌, ◌-◌, ◌≤◌, ◌≡◌, refl, sym, ap, ◌∙◌, inl, inr, true, none, some, List, [], ◌∷◌, ◌++◌,
  arith, ◌==◌, ==_iff, Bool-cases, Option-cases, length, get_elem?,
}
use mathlib.Core.Path.{subst}
use web3_nft.Sdk.Hex.{Text}
use web3_nft.Sdk.Palette.{Colors, text_eq, get_color, add_color}

-- The keys of the map, in order: the palette that the encoder hands out.
unfoldable pub palette_of : Colors → List Text
palette_of [] = []
palette_of ((key, i) ∷ colors) = key ∷ palette_of colors

-- Every index is the color's place, counted from `k`.
unfoldable pub IsIndexed : ℕ → Colors → Type 0
IsIndexed k [] = Unit
IsIndexed k ((key, i) ∷ colors) = (i ≡ k) × IsIndexed (suc k) colors

text_eq-eq : (s t : Text) → text_eq s t ≡ true → s ≡ t
unfolding text_eq
text_eq-eq [] [] h = refl
text_eq-eq [] (d ∷ ds) h = ground arith
text_eq-eq (c ∷ cs) [] h = ground arith
text_eq-eq (c ∷ cs) (d ∷ ds) h = elim (Bool-cases (c == d)) [
  | inl e ↦
      let rest : text_eq cs ds ≡ true = ground (arith, h, e) in
      ap (λ x. x ∷ cs) ((==_iff c d).0 e) ∙ ap (λ l. d ∷ l) (text_eq-eq cs ds rest)
  | inr e ↦ absurd (ground arith)
]

text_eq_refl : (s : Text) → text_eq s s ≡ true
unfolding text_eq
text_eq_refl [] = refl
text_eq_refl (c ∷ cs) = let rest = text_eq_refl cs in ground arith

append-IsIndexed :
    (k : ℕ) (key : Text) (colors : Colors)
    → IsIndexed k colors
    → IsIndexed k (colors ++ (key, k + length colors) ∷ [])
unfolding IsIndexed
append-IsIndexed k key [] h = (omega arith, tt)
append-IsIndexed k key ((key', i) ∷ colors) (e, h) =
    let next : k + suc (length colors) ≡ suc k + length colors = omega arith in
    (
      e,
      subst (λ n. IsIndexed (suc k) (colors ++ (key, n) ∷ [])) (sym next)
          (append-IsIndexed (suc k) key colors h),
    )

pub add_color-IsIndexed :
    (key : Text) (colors : Colors) → IsIndexed 0 colors → IsIndexed 0 (add_color key colors)
unfolding add_color
add_color-IsIndexed key colors h = elim (Option-cases (get_color key colors)) [
  | inl e ↦
      let last_place : 0 + length colors ≡ length colors = omega arith in
      rw (e, add_color)
        (subst (λ n. IsIndexed 0 (colors ++ (key, n) ∷ [])) last_place
          (append-IsIndexed 0 key colors h))
  | inr (i, e) ↦ rw (e, add_color) h
]

-- A color that is found stands at its index in the palette.
get_color-at :
    (k : ℕ) (key : Text) (colors : Colors) (i : ℕ)
    → IsIndexed k colors
    → get_color key colors ≡ some i
    → (k ≤ i) × (get_elem? (palette_of colors) (i - k) ≡ some key)
unfolding IsIndexed get_color palette_of
get_color-at k key [] i h e = absurd (ground arith)
get_color-at k key ((key', j) ∷ colors) i (at, h) e = elim (Bool-cases (text_eq key' key)) [
  | inl same ↦
      let here : i ≡ k = ground (arith, same, e, at) in
      let start : i - k ≡ 0 = omega (arith, here) in
      (omega (arith, here), rw (start) (ap some (text_eq-eq key' key same)))
  | inr other ↦
      let later : get_color key colors ≡ some i = ground (arith, other, e) in
      let found = get_color-at (suc k) key colors i h later in
      let start : i - k ≡ suc (i - suc k) = omega (arith, found.0) in
      (omega (arith, found.0), rw (start) found.1)
]

get_color-append :
    (key : Text) (colors : Colors) (n : ℕ)
    → get_color key colors ≡ none
    → get_color key (colors ++ (key, n) ∷ []) ≡ some n
unfolding get_color
get_color-append key [] n h = rw (text_eq_refl key) refl
get_color-append key ((key', i) ∷ colors) n h = elim (Bool-cases (text_eq key' key)) [
  | inl e ↦ absurd (ground (arith, e, h))
  | inr e ↦
      let later : get_color key colors ≡ none = ground (arith, e, h) in
      rw (e) (get_color-append key colors n later)
]

get_color-before :
    (key : Text) (colors added : Colors) (i : ℕ)
    → get_color key colors ≡ some i
    → get_color key (colors ++ added) ≡ some i
unfolding get_color
get_color-before key [] added i h = absurd (ground (arith, h))
get_color-before key ((key', j) ∷ colors) added i h = elim (Bool-cases (text_eq key' key)) [
  | inl e ↦ let here : some j ≡ some i = ground (arith, e, h) in rw (e) here
  | inr e ↦
      let later : get_color key colors ≡ some i = ground (arith, e, h) in
      rw (e) (get_color-before key colors added i later)
]

add_color-found :
    (key : Text) (colors : Colors) → (i : ℕ) × (get_color key (add_color key colors) ≡ some i)
unfolding add_color
add_color-found key colors = elim (Option-cases (get_color key colors)) [
  | inl e ↦ (length colors, rw (e, add_color) (get_color-append key colors (length colors) e))
  | inr (i, e) ↦ (i, rw (e, add_color) e)
]

added_place :
    (key : Text) (colors : Colors) (i : ℕ)
    → IsIndexed 0 colors
    → get_color key colors ≡ some i
    → get_elem? (palette_of colors) i ≡ some key
added_place key colors i h e =
    let found = get_color-at 0 key colors i h e in
    let start : i - 0 ≡ i = omega arith in
    subst (λ n. get_elem? (palette_of colors) n ≡ some key) start found.1

-- Adding a color makes it found, at the index that is its place in the palette.
pub add_color-place :
    (key : Text) (colors : Colors)
    → IsIndexed 0 colors
    → (i : ℕ) × ((get_color key (add_color key colors) ≡ some i)
        × (get_elem? (palette_of (add_color key colors)) i ≡ some key))
add_color-place key colors h =
    let (i, found) = add_color-found key colors in
    (i, (found, added_place key (add_color key colors) i (add_color-IsIndexed key colors h) found))

-- Every color found before keeps its index when a color is added.
pub add_color-keeps :
    (key other : Text) (colors : Colors) (i : ℕ)
    → get_color other colors ≡ some i
    → get_color other (add_color key colors) ≡ some i
unfolding add_color
add_color-keeps key other colors i h = elim (Option-cases (get_color key colors)) [
  | inl e ↦ rw (e, add_color) (get_color-before other colors ((key, length colors) ∷ []) i h)
  | inr (j, e) ↦ rw (e, add_color) h
]
