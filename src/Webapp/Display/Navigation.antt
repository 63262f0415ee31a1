-- ===== src/Webapp/Display/Navigation.antt =====
-- Going back and forth between the auctions.
use web3_nft.Prelude.{
  ℕ, ◌+◌, ◌-◌, ◌≤◌, ◌<◌, ◌≡◌, refl, sym, ap, ◌∙◌, ◌≢◌, inl, inr, true, false, some, arith, ◌==◌,
  if◌then◌else◌, ==_iff, Bool-cases,
}
use mathlib.Core.Path.{subst}
use web3_nft.Webapp.Display.{
  OnDisplayAuctionState, set_prev_on_display_auction_word_id, set_next_on_display_auction_word_id,
  reduce_display, same_id,
}

-- An auction is on display, and it is none after the last one.
abbrev pub IsShown : OnDisplayAuctionState → ℕ → ℕ → Type 0
IsShown state id last_id =
    (state.on_display_auction_word_id ≡ some id)
    × (state.last_auction_word_id ≡ some last_id)
    × (id ≤ last_id)

abbrev showing : ℕ → ℕ → OnDisplayAuctionState
showing id last_id = record {
  last_auction_word_id = some last_id;
  on_display_auction_word_id = some id;
}

shown_state :
    (state : OnDisplayAuctionState) (id last_id : ℕ)
    → IsShown state id last_id
    → state ≡ showing id last_id
shown_state state id last_id (shown, last, order) =
    ap
      (λ o. record {
        last_auction_word_id = o;
        on_display_auction_word_id = state.on_display_auction_word_id;
      })
      last
    ∙ ap (λ o. record { last_auction_word_id = some last_id; on_display_auction_word_id = o }) shown

prev_showing :
    (id last_id : ℕ)
    → reduce_display set_prev_on_display_auction_word_id (showing id last_id)
      ≡ showing (id - 1) last_id
unfolding reduce_display
prev_showing id last_id = elim (Bool-cases (id == 0)) [
  | inl e ↦
      let first : id ≡ id - 1 = omega (arith, (==_iff id 0).0 e) in
      ap (λ t. if t then showing id last_id else showing (id - 1) last_id) e
      ∙ ap (λ n. showing n last_id) first
  | inr e ↦ ap (λ t. if t then showing id last_id else showing (id - 1) last_id) e
]

next_showing :
    (id last_id : ℕ)
    → id < last_id
    → reduce_display set_next_on_display_auction_word_id (showing id last_id)
      ≡ showing (id + 1) last_id
unfolding reduce_display same_id
next_showing id last_id h =
    let before : (last_id == id) ≡ false = ground arith in
    ap (λ t. if t then showing id last_id else showing (id + 1) last_id) before

next_at_last :
    (id : ℕ) → reduce_display set_next_on_display_auction_word_id (showing id id) ≡ showing id id
unfolding reduce_display same_id
next_at_last id =
    let at : (id == id) ≡ true = ground arith in
    ap (λ t. if t then showing id id else showing (id + 1) id) at

-- The auction after `id`, up to the last one.
abbrev pub next_id : ℕ → ℕ → ℕ
next_id id last_id = if id == last_id then last_id else id + 1

next_id-le : (id last_id : ℕ) → id ≤ last_id → next_id id last_id ≤ last_id
next_id-le id last_id h = ground arith

next_shown :
    (id last_id : ℕ)
    → id ≤ last_id
    → reduce_display set_next_on_display_auction_word_id (showing id last_id)
      ≡ showing (next_id id last_id) last_id
next_shown id last_id h = elim (Bool-cases (id == last_id)) [
  | inl e ↦
      let same : id ≡ last_id = (==_iff id last_id).0 e in
      let here : next_id id last_id ≡ last_id = ground (arith, e) in
      ap (λ n. reduce_display set_next_on_display_auction_word_id (showing n last_id)) same
      ∙ next_at_last last_id
      ∙ ap (λ n. showing n last_id) (sym here)
  | inr e ↦
      let on : next_id id last_id ≡ id + 1 = ground (arith, e) in
      let other : id ≢ last_id = ground (arith, e) in
      next_showing id last_id (omega (arith, other)) ∙ ap (λ n. showing n last_id) (sym on)
]

-- Going back and then forth, from an auction that is not the first, shows the auction again.
pub back_and_forth :
    (state : OnDisplayAuctionState) (id last_id : ℕ)
    → IsShown state id last_id
    → 0 < id
    → reduce_display set_next_on_display_auction_word_id
        (reduce_display set_prev_on_display_auction_word_id state)
      ≡ state
back_and_forth state id last_id shown h =
    let at = shown_state state id last_id shown in
    let again : id - 1 + 1 ≡ id = omega arith in
    ap
      (λ s.
        reduce_display set_next_on_display_auction_word_id
          (reduce_display set_prev_on_display_auction_word_id s))
      at
    ∙ ap (reduce_display set_next_on_display_auction_word_id) (prev_showing id last_id)
    ∙ next_showing (id - 1) last_id (omega (arith, shown.2))
    ∙ ap (λ n. showing n last_id) again
    ∙ sym at

-- A step forth from the last auction stays there; from an earlier one it shows the next. A step
-- back shows the one before, and from the first stays there.
pub step-IsShown :
    (state : OnDisplayAuctionState) (id last_id : ℕ)
    → IsShown state id last_id
    → IsShown (reduce_display set_prev_on_display_auction_word_id state) (id - 1) last_id
      × IsShown
          (reduce_display set_next_on_display_auction_word_id state)
          (next_id id last_id)
          last_id
step-IsShown state id last_id shown =
    let at = shown_state state id last_id shown in
    (
      subst (λ s. IsShown s (id - 1) last_id)
          (sym
            (ap (reduce_display set_prev_on_display_auction_word_id) at ∙ prev_showing id last_id))
          (refl, refl, omega (arith, shown.2)),
      subst (λ s. IsShown s (next_id id last_id) last_id)
          (sym (
            ap (reduce_display set_next_on_display_auction_word_id) at
            ∙ next_shown id last_id shown.2))
          (refl, refl, next_id-le id last_id shown.2),
    )
