-- ===== src/Chain/Calls.antt =====
-- Reads by EVM address, `call` and `estimate_gas` of src/state/mod.rs.
pub mod Estimate
pub mod Traces
use hanvil.Prelude.{
  ℕ, zero, suc, ◌+◌, ◌-◌, ◌/◌, Bool, true, false, Option, none, some, [], Bytes, ltb, if◌then◌else◌,
  keep, map, List, is_some,
}
use hanvil.Prelude.Result.{Result, ok, err}
use hanvil.Prelude.Eq.{nat_eq}
use hanvil.Maps.BTreeMap
use hanvil.Maps.HashMap
use hanvil.Units.{Tinybar, Address, from_evm}
use hanvil.Time.{Timestamp}
use hanvil.Accounts.{Account, evm_address}
use hanvil.Blocks.{CallRequest}
use hanvil.Evm.{Externals, Mode, TxEnv, ExecutionResult, DbAccount, is_success, execute}
use hanvil.Chain.{
  ChainState, Error, rejected, no_gas_estimate, block_gas_limit, latest_block, account_by_evm,
}
use hanvil.Chain.Clock.{larger}
use hanvil.Chain.Filters.{smaller}
use hanvil.Chain.Execution.{block_input, sync_accounts_into_db, or_zero}

-- `unwrap_or(BLOCK_GAS_LIMIT).min(BLOCK_GAS_LIMIT)`
abbrev pub capped : Option ℕ → ℕ
capped none = block_gas_limit
capped (some gas) = smaller gas block_gas_limit

abbrev pub with_gas : ℕ → CallRequest → CallRequest
with_gas gas request = record request { gas = some gas }

module _ {Db : Type 0} (ext : Externals Db) where
  unfoldable pub balance_by_evm : Address → ChainState Db → Tinybar
  unfolding account_by_evm from_evm
  balance_by_evm address s = elim (account_by_evm s address) [
    | some a ↦ a.balance
    | none ↦ elim (ext.cached address s.db) [ none ↦ 0 | some entry ↦ from_evm entry.balance ]
  ]

  unfoldable pub nonce_by_evm : Address → ChainState Db → ℕ
  unfolding account_by_evm
  nonce_by_evm address s = elim (account_by_evm s address) [
    | some a ↦ a.nonce
    | none ↦ elim (ext.cached address s.db) [ none ↦ 0 | some entry ↦ entry.nonce ]
  ]

  abbrev or_empty : Option Bytes → Bytes
  or_empty none = []
  or_empty (some code) = code

  unfoldable pub code_by_evm : Address → ChainState Db → Bytes
  code_by_evm address s = elim (ext.cached address s.db) [
    | none ↦ []
    | some entry ↦ or_empty entry.code
  ]

  unfoldable pub storage_at : Address → ℕ → ChainState Db → ℕ
  storage_at address slot s = elim (ext.cached address s.db) [
    | none ↦ 0
    | some entry ↦ or_zero (HashMap.get slot entry.storage)
  ]

  unfoldable pub call_env : CallRequest → ChainState Db → TxEnv
  unfolding nonce_by_evm
  call_env request s = ext.build_fill (record {
    tx_type = 0;
    caller = or_zero request.from;
    nonce = nonce_by_evm (or_zero request.from) s;
    gas_limit = capped request.gas;
    gas_price = or_zero request.gas_price;
    to = request.to;
    value = request.value;
    input = request.input;
    chain_id = some s.chain_id;
    access_list = none;
    gas_priority_fee = none;
  })

  -- The run on the head state: the accounts written to the database stay there, nothing is mined.
  unfoldable pub call :
      CallRequest → Timestamp → ChainState Db → ChainState Db × Result Error ExecutionResult
  unfolding block_input sync_accounts_into_db call_env execute
  call request now s =
      let timestamp = larger (latest_block s).timestamp now.secs in
      let block = block_input timestamp s in
      let s1 = sync_accounts_into_db ext s in
      let (db, outcome) = execute ext s1.chain_id block Mode.call (call_env request s1) s1.db in
      (
        record s1 { db = db },
        elim outcome [ err e ↦ err (rejected e) | ok executed ↦ ok executed.result ],
      )

  unfoldable pub succeeds :
      CallRequest → Timestamp → ℕ → ChainState Db → ChainState Db × Result Error Bool
  unfolding call
  succeeds request now gas s =
      let (s1, run) = call (with_gas gas request) now s in
      (s1, elim run [ err e ↦ err e | ok r ↦ ok (is_success r) ])

  -- `while hi - lo > 1`, with fuel: `none` when it runs out. It leaves `hi`. Where `hi` is below `lo`,
  -- which takes a run that used more gas than its limit, the source's subtraction panics or wraps
  -- around, and this one is 0.
  unfoldable pub bisect :
      ℕ → CallRequest → Timestamp → ℕ → ℕ → ChainState Db → Option (ChainState Db × Result Error ℕ)
  unfolding succeeds
  bisect zero request now lo hi s = none
  bisect (suc n) request now lo hi s = elim (ltb 1 (hi - lo)) [
    | false ↦ some (s, ok hi)
    | true ↦
        (let mid = lo + (hi - lo) / 2 in
          let tried = succeeds request now mid s in
          elim tried.1 [
            | err e ↦ some (tried.0, err e)
            | ok true ↦ bisect n request now lo mid tried.0
            | ok false ↦ bisect n request now mid hi tried.0
          ])
  ]

  -- The last look at what the loop leaves.
  abbrev pub confirm :
      CallRequest → Timestamp → ℕ → ℕ → ChainState Db → ChainState Db × Result Error ℕ
  confirm request now cap gas s =
      let tried = succeeds request now gas s in
      (
        tried.0,
        elim tried.1 [ err e ↦ err e | ok true ↦ ok gas | ok false ↦ err (no_gas_estimate cap) ],
      )

  abbrev pub confirm_found :
      CallRequest
      → Timestamp
      → ℕ
      → Option (ChainState Db × Result Error ℕ)
      → Option (ChainState Db × Result Error ℕ)
  confirm_found request now cap none = none
  confirm_found request now cap (some (s, err e)) = some (s, err e)
  confirm_found request now cap (some (s, ok gas)) = some (confirm request now cap gas s)

  -- The search from the gas that the unconstrained run used up to the cap.
  abbrev pub search_gas :
      CallRequest → Timestamp → ℕ → ℕ → ChainState Db → Option (ChainState Db × Result Error ℕ)
  search_gas request now cap lo s =
      let tried = succeeds request now lo s in
      elim tried.1 [
        | err e ↦ some (tried.0, err e)
        | ok true ↦ some (tried.0, ok lo)
        | ok false ↦
            confirm_found request now cap (bisect (suc (cap - lo)) request now lo cap tried.0)
      ]

  unfoldable pub estimate_gas :
      CallRequest → Timestamp → ChainState Db → Option (ChainState Db × Result Error ℕ)
  unfolding call succeeds bisect
  estimate_gas request now s =
      let cap = capped request.gas in
      let ran = call (with_gas cap request) now s in
      elim ran.1 [
        | err e ↦ some (ran.0, err e)
        | ok unconstrained ↦
            if is_success unconstrained
            then search_gas request now cap unconstrained.gas_used ran.0
            else some (ran.0, ok cap)
      ]

module _ {Db : Type 0} where
  -- The addresses that the node signs for, in the order of the accounts.
  unfoldable pub signing_addresses : ChainState Db → List Address
  unfolding evm_address
  signing_addresses s =
      map evm_address (keep (λ a. is_some a.private_key_hex) (BTreeMap.values s.accounts))
