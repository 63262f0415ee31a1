-- ===== src/Webapp/Logs/Results.antt =====
-- Results of a filter never go back to an earlier block, and no block is fetched twice.
use web3_nft.Prelude.{
  ℕ, String, ◌≡◌, refl, sym, ap, ◌∙◌, ◌≢◌, inl, inr, true, false, Option, none, some, List, [], ◌∷◌,
  arith, str_eq, eq_iff, leb, Bool-cases, Option-cases, or_else, pos, ◌+ℤ◌, ◌-ℤ◌,
}
use mathlib.Core.Path.{subst}
use web3_nft.Table.{lookup, insert, lookup-insert_self, lookup-insert_ne}
use web3_nft.Webapp.Logs.{
  LogResults, FetchState, LogsState, LogsAction, add_listener, fetching_logs, fetched_logs,
  fetched_logs_error, remove_listener, new_fetch_state, set_fetching, change, start_fetching,
  is_outdated, put_results, reduce_logs, reduce_all_logs, results_reached,
}

-- The key has a state whose results are of the block, or of a later one.
abbrev pub HasResults : String → ℕ → LogsState → Type 0
HasResults key block_number state =
    (fetch : FetchState) × ((lookup key state ≡ some fetch)
      × (results_reached block_number fetch.results ≡ true))

change-HasResults :
    (key other : String) (block_number : ℕ) (f : FetchState → FetchState) (state : LogsState)
    → ((fetch : FetchState)
        → results_reached block_number fetch.results ≡ true
        → results_reached block_number (f fetch).results ≡ true)
    → HasResults key block_number state
    → HasResults key block_number (change other f state)
unfolding change
change-HasResults key other block_number f state keeps (fetch, (at, reached)) =
    elim (Option-cases (lookup other state)) [
      | inl e ↦ rw (e, change) (fetch, (at, reached))
      | inr (found, e) ↦ elim (Bool-cases (str_eq other key)) [
        | inl same ↦
            let here : other ≡ key = (eq_iff other key).0 same in
            let found_is : some found ≡ some fetch = sym e ∙ ap (λ k. lookup k state) here ∙ at in
            let found_reached =
              ap (λ o. results_reached block_number (or_else o found).results) found_is ∙ reached in
            rw (e, change)
              (
                f found,
                (
                  ap (λ k. lookup k (insert other (f found) state)) (sym here)
                      ∙ lookup-insert_self other (f found) state,
                  keeps found found_reached,
                ),
              )
        | inr differs ↦
            let apart : other ≢ key = ground (arith, differs, eq_iff other key) in
            rw (e, change) (fetch, (lookup-insert_ne other key (f found) state apart ∙ at, reached))
      ]
    ]

newer_reached :
    (block_number new : ℕ) (old : Option LogResults)
    → results_reached block_number old ≡ true
    → is_outdated new old ≡ false
    → leb block_number new ≡ true
unfolding results_reached is_outdated
newer_reached block_number new none h k = absurd (ground (arith, h))
newer_reached block_number new (some old) h k = ground (arith, h, k)

put_results-reached :
    (block_number : ℕ) (new : LogResults) (fetch : FetchState)
    → results_reached block_number fetch.results ≡ true
    → results_reached block_number (put_results new fetch).results ≡ true
unfolding results_reached
put_results-reached block_number new fetch h =
    elim (Bool-cases (is_outdated new.block_number fetch.results)) [
      | inl e ↦ rw (e) h
      | inr e ↦ rw (e) (newer_reached block_number new.block_number fetch.results h e)
    ]

start_fetching-HasResults :
    (key : String) (block_number fetching : ℕ) (keys : List String) (state : LogsState)
    → HasResults key block_number state
    → HasResults key block_number (start_fetching keys fetching state)
unfolding start_fetching
start_fetching-HasResults key block_number fetching [] state h = h
start_fetching-HasResults key block_number fetching (other ∷ keys) state h =
    start_fetching-HasResults key block_number fetching keys
      (change other (set_fetching fetching) state)
      (change-HasResults key other block_number (set_fetching fetching) state (λ fetch k. k) h)

abbrev one_more : FetchState → FetchState
one_more fetch = record fetch { listeners = fetch.listeners +ℤ pos 1 }

absurd_none :
    (key : String) (state : LogsState) (fetch : FetchState)
    → lookup key state ≡ none
    → lookup key state ≡ some fetch
    → ⊥
absurd_none key state fetch h k = ground (arith, h, k)

listened :
    (key : String) (found : FetchState) (state : LogsState)
    → lookup key state ≡ some found
    → reduce_logs (add_listener key) state ≡ change key one_more state
unfolding reduce_logs change
listened key found state e = rw (e, change, reduce_logs) refl

reduce_logs-HasResults :
    (key : String) (block_number : ℕ) (action : LogsAction) (state : LogsState)
    → HasResults key block_number state
    → HasResults key block_number (reduce_logs action state)
unfolding reduce_logs
reduce_logs-HasResults key b (add_listener other) state h =
    elim (Option-cases (lookup other state)) [
      | inl e ↦
          let apart : other ≢ key =
            λ here. absurd_none key state h.0 (sym (ap (λ k. lookup k state) here) ∙ e) h.1.0 in
          rw (e, reduce_logs)
            (h.0, (lookup-insert_ne other key new_fetch_state state apart ∙ h.1.0, h.1.1))
      | inr (found, e) ↦
          subst (HasResults key b) (sym (listened other found state e))
            (change-HasResults key other b one_more state (λ fetch k. k) h)
    ]
reduce_logs-HasResults key b (fetching_logs keys n) state h =
    start_fetching-HasResults key b n keys state h
reduce_logs-HasResults key b (fetched_logs other n logs) state h =
    change-HasResults key other b (put_results (record { block_number = n; logs = some logs }))
      state (put_results-reached b (record { block_number = n; logs = some logs })) h
reduce_logs-HasResults key b (fetched_logs_error other n) state h =
    change-HasResults key other b (put_results (record { block_number = n; logs = none })) state
      (put_results-reached b (record { block_number = n; logs = none })) h
reduce_logs-HasResults key b (remove_listener other) state h =
    change-HasResults key other b (λ fetch. record fetch { listeners = fetch.listeners -ℤ pos 1 })
      state (λ fetch k. k) h

-- Once the results of a filter are of a block, they are of this block or a later one after any run of
-- actions: answers that arrive late or fail do not set them back.
pub reduce_all_logs-HasResults :
    (key : String) (block_number : ℕ) (actions : List LogsAction) (state : LogsState)
    → HasResults key block_number state
    → HasResults key block_number (reduce_all_logs actions state)
unfolding reduce_all_logs
reduce_all_logs-HasResults key b [] state h = h
reduce_all_logs-HasResults key b (action ∷ actions) state h =
    reduce_all_logs-HasResults key b actions (reduce_logs action state)
      (reduce_logs-HasResults key b action state h)
