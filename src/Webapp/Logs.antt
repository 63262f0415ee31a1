-- ===== src/Webapp/Logs.antt =====
-- state/slices/logs.ts and state/updaters/logs.ts: the logs that components listen to. A filter is
-- its key, the text that filterToKey gives.
pub mod Results
use web3_nft.Prelude.{
  ℕ, ◌+◌, ◌-◌, ◌/◌, String, Bool, false, not, ◌&&◌, Option, none, some, List, [], ◌∷◌, ltb, leb,
  if◌then◌else◌, ℤ, pos, ◌+ℤ◌, ◌-ℤ◌, eqb_ℤ,
}
use web3_nft.Table.{Table, lookup, insert}

pub record Log : Type 0 where
  pub topics : List String
  pub transaction_hash : String
  pub data_text : String

-- Results with no logs are an error.
pub record LogResults : Type 0 where
  pub block_number : ℕ
  pub logs : Option (List Log)

pub record FetchState : Type 0 where
  pub listeners : ℤ
  pub fetching_block_number : Option ℕ
  pub results : Option LogResults

abbrev pub LogsState : Type 0
LogsState = Table FetchState

pub data LogsAction : Type 0 where
  add_listener : String → LogsAction
  fetching_logs : List String → ℕ → LogsAction
  fetched_logs : String → ℕ → List Log → LogsAction
  fetched_logs_error : String → ℕ → LogsAction
  remove_listener : String → LogsAction

abbrev pub new_fetch_state : FetchState
new_fetch_state = record { listeners = pos 1; fetching_block_number = none; results = none }

abbrev pub set_fetching : ℕ → FetchState → FetchState
set_fetching block_number fetch = record fetch { fetching_block_number = some block_number }

-- A change of the state under a key, if there is one.
unfoldable pub change : String → (FetchState → FetchState) → LogsState → LogsState
change key f state = elim (lookup key state) [
  | none ↦ state
  | some fetch ↦ insert key (f fetch) state
]

unfoldable pub start_fetching : List String → ℕ → LogsState → LogsState
unfolding change
start_fetching [] block_number state = state
start_fetching (key ∷ keys) block_number state =
    start_fetching keys block_number (change key (set_fetching block_number) state)

-- Whether the results that are there belong to a later block.
unfoldable pub is_outdated : ℕ → Option LogResults → Bool
is_outdated block_number none = false
is_outdated block_number (some results) = ltb block_number results.block_number

abbrev pub put_results : LogResults → FetchState → FetchState
put_results results fetch =
    if is_outdated results.block_number fetch.results
    then fetch
    else record fetch { results = some results }

unfoldable pub reduce_logs : LogsAction → LogsState → LogsState
unfolding start_fetching change is_outdated
reduce_logs (add_listener key) state = elim (lookup key state) [
  | none ↦ insert key new_fetch_state state
  | some fetch ↦ insert key (record fetch { listeners = fetch.listeners +ℤ pos 1 }) state
]
reduce_logs (fetching_logs keys block_number) state = start_fetching keys block_number state
reduce_logs (fetched_logs key block_number logs) state =
    change key (put_results (record { block_number = block_number; logs = some logs })) state
reduce_logs (fetched_logs_error key block_number) state =
    change key (put_results (record { block_number = block_number; logs = none })) state
reduce_logs (remove_listener key) state =
    change key (λ fetch. record fetch { listeners = fetch.listeners -ℤ pos 1 }) state

unfoldable pub reduce_all_logs : List LogsAction → LogsState → LogsState
unfolding reduce_logs
reduce_all_logs [] state = state
reduce_all_logs (action ∷ actions) state = reduce_all_logs actions (reduce_logs action state)

-- Whether a block number is there that is at least the given one.
unfoldable pub has_reached : ℕ → Option ℕ → Bool
has_reached block_number none = false
has_reached block_number (some n) = leb block_number n

unfoldable pub results_reached : ℕ → Option LogResults → Bool
results_reached block_number none = false
results_reached block_number (some results) = leb block_number results.block_number

abbrev pub needs_fetch : ℕ → FetchState → Bool
needs_fetch block_number fetch =
    not (eqb_ℤ fetch.listeners (pos 0))
    && (not (has_reached block_number fetch.fetching_block_number)
        && not (results_reached block_number fetch.results))

-- `filtersNeedFetch`
unfoldable pub filters_need_fetch : ℕ → LogsState → List String
unfolding has_reached results_reached
filters_need_fetch block_number [] = []
filters_need_fetch block_number ((key, fetch) ∷ state) =
    let rest = filters_need_fetch block_number state in
    if needs_fetch block_number fetch then key ∷ rest else rest
