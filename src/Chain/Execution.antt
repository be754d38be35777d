-- ===== src/Chain/Execution.antt =====
-- EVM transactions on the chain, of src/state/mod.rs: accounts are written into revm's database,
-- the transaction runs, touched accounts are read back, and one block is mined.
pub mod Mining
use hanvil.Prelude.{
  ℕ, ◌+◌, false, Option, none, some, List, [], ◌∷◌, ◌++◌, Bytes, map, ltb, if◌then◌else◌, codes,
  any, ◌==◌, ◌&&◌, not,
}
use hanvil.Prelude.Result.{Result, ok, err}
use hanvil.Prelude.Eq.{nat_eq}
use hanvil.Word.{u64_mod, saturating_add, saturating_mul}
use hanvil.Maps.BTreeMap
use hanvil.Maps.HashMap
use hanvil.Units.{Tinybar, Address, to_evm, from_evm, long_zero_address}
use hanvil.Time.{Timestamp}
use hanvil.Accounts.{Account, evm_address}
use hanvil.Blocks.{
  B256, StoredLog, Receipt, TxRecord, TxBody, signed, unsigned, UnsignedTx, be_bytes,
}
use hanvil.Evm.{
  Externals, BlockInput, Mode, Rejected, gas_limit_too_high, TxEnv, Log, Verdict, ExecutionResult,
  Touched, Executed, DbAccount, Decoded, is_success, decode_signed, execute,
}
use hanvil.Chain.{
  ChainState, Error, decode, rejected, not_impersonated, fee_collector, block_gas_limit,
  block_number, insert_account, allocate_id, holds_key_for,
}
use hanvil.Chain.Clock.{next_block_timestamp, next_consensus}
use hanvil.Chain.Seal.{seal_block}
use hanvil.Chain.Filters.{smaller}
use hanvil.Chain.Transfers.{hollow}

abbrev pub or_zero : Option ℕ → ℕ
or_zero none = 0
or_zero (some n) = n

abbrev pub store_log : Log → StoredLog
store_log log = record {
  address = log.address;
  topics = log.topics;
  payload = log.payload;
  log_index = 0;
  tx_hash = 0;
  tx_index = 0;
  block_number = 0;
  block_hash = 0;
}

abbrev pub accrue_logs : {Db : Type 0} → Externals Db → ℕ → List Log → ℕ
accrue_logs ext acc [] = acc
accrue_logs ext acc (log ∷ rest) = accrue_logs ext (ext.accrue_log acc log) rest

-- The contract address, the output and the halt reason of each verdict.
abbrev pub outcome_of : Verdict → Option Address × Bytes × Option Bytes
outcome_of (Verdict.create address output) = (address, output, none)
outcome_of (Verdict.call output) = (none, output, none)
outcome_of (Verdict.revert output) = (none, output, none)
outcome_of (Verdict.halt reason) = (none, [], some reason)

unfoldable pub receipt_from : {Db : Type 0} → Externals Db → ExecutionResult → ℕ → Receipt
receipt_from ext result price =
    let (contract_address, output, halt_reason) = outcome_of result.verdict in
    record {
      success = is_success result;
      gas_used = result.gas_used;
      effective_gas_price = price;
      contract_address = contract_address;
      logs = map store_log result.logs;
      logs_bloom = accrue_logs ext 0 result.logs;
      output = output;
      halt_reason = halt_reason;
    }

-- `u64::try_from(p).ok()`
unfoldable pub priority_fee : TxEnv → Option ℕ
priority_fee env = elim env.gas_priority_fee [
  | none ↦ none
  | some p ↦ if ltb p u64_mod then some p else none
]

-- New contracts and addresses that only received value, in the order of the state.
abbrev pub Fresh : Type 0
Fresh = List Address × List (Address × Tinybar)

module _ {Db : Type 0} where
  unfoldable pub block_input : ℕ → ChainState Db → BlockInput
  unfolding long_zero_address
  block_input timestamp s = record {
    number = block_number s + 1;
    timestamp = timestamp;
    gas_limit = block_gas_limit;
    base_fee = s.gas_price;
    beneficiary = long_zero_address fee_collector;
  }

  unfoldable pub read_back : Touched → ChainState Db → Fresh → ChainState Db × Fresh
  unfolding from_evm
  read_back t s (contracts, hollows) =
      if not t.is_touched
      then (s, (contracts, hollows))
      else elim (HashMap.get t.address s.by_evm) [
        | some i ↦ (
          elim (BTreeMap.get i s.accounts) [
            | none ↦ s
            | some a ↦ record s {
              accounts =
                  BTreeMap.insert i (record a { balance = from_evm t.balance; nonce = t.nonce })
                    s.accounts;
            }
          ],
          (contracts, hollows),
        )
        | none ↦
            if HashMap.contains_key t.address s.contract_by_evm
            then (s, (contracts, hollows))
            else if t.has_code
            then (s, (contracts ++ t.address ∷ [], hollows))
            else if ltb 0 t.balance
            then (s, (contracts, hollows ++ (t.address, from_evm t.balance) ∷ []))
            else (s, (contracts, hollows))
      ]

  unfoldable pub read_all : List Touched → ChainState Db → Fresh → ChainState Db × Fresh
  unfolding read_back
  read_all [] s fresh = (s, fresh)
  read_all (t ∷ ts) s fresh = let (s', fresh') = read_back t s fresh in read_all ts s' fresh'

  unfoldable pub add_contracts : ℕ → List Address → ChainState Db → ChainState Db
  unfolding allocate_id
  add_contracts block [] s = s
  add_contracts block (address ∷ rest) s =
      let (i, s1) = allocate_id s in
      add_contracts block rest (record s1 {
        contracts =
            BTreeMap.insert i (record { address = address; created_block = block }) s1.contracts;
        contract_by_evm = HashMap.insert address i s1.contract_by_evm;
      })

  unfoldable pub add_hollows : Timestamp → List (Address × Tinybar) → ChainState Db → ChainState Db
  unfolding allocate_id insert_account
  add_hollows at [] s = s
  add_hollows at ((address, balance) ∷ rest) s =
      let (i, s1) = allocate_id s in
      add_hollows at rest (insert_account (hollow i address balance at) s1)

  unfoldable pub sync_db_into_accounts : List Touched → Timestamp → ChainState Db → ChainState Db
  unfolding read_all add_contracts add_hollows
  sync_db_into_accounts state created_at s =
      let block = block_number s + 1 in
      let (s1, (contracts, hollows)) = read_all state s ([], []) in
      add_hollows created_at hollows (add_contracts block contracts s1)

  -- revm burns the base fee; it goes to the fee collector.
  unfoldable pub credit_burned_base_fee : ℕ → ChainState Db → ChainState Db
  unfolding saturating_mul saturating_add
  credit_burned_base_fee gas_used s =
      let burned = saturating_mul gas_used s.gas_price in
      elim (BTreeMap.get fee_collector s.accounts) [
        | none ↦ s
        | some a ↦ record s {
          accounts =
              BTreeMap.insert fee_collector (record a { balance = saturating_add a.balance burned })
                s.accounts;
        }
      ]

module _ {Db : Type 0} (ext : Externals Db) where
  -- The entry of an address, made visible to revm.
  unfoldable pub db_account : Address → Db → DbAccount
  db_account address db = record (ext.load_account address db) { not_existing = false }

  unfoldable pub sync_all : List Account → Db → Db
  unfolding db_account evm_address
  sync_all [] db = db
  sync_all (a ∷ rest) db = sync_all rest (
      ext.put_account (evm_address a)
        (record (db_account (evm_address a) db) { balance = to_evm a.balance; nonce = a.nonce }) db)

  unfoldable pub sync_accounts_into_db : ChainState Db → ChainState Db
  unfolding sync_all
  sync_accounts_into_db s = record s { db = sync_all (BTreeMap.values s.accounts) s.db }

  -- The record before its block is sealed.
  abbrev pub unsealed : B256 → TxBody → Address → ℕ → Timestamp → ℕ → Executed → TxRecord
  unsealed hash body from price consensus number executed = record {
    hash = hash;
    body = body;
    from = from;
    block_number = number;
    block_hash = 0;
    index = 0;
    consensus_timestamp = consensus;
    receipt = receipt_from ext executed.result price;
  }

  -- What a run that was not refused leaves: accounts, database, receipt and block.
  unfoldable pub finish :
      B256 → TxBody → Address → ℕ → ℕ → Timestamp → ℕ → Executed → ChainState Db → ChainState Db
  unfolding sync_db_into_accounts credit_burned_base_fee receipt_from seal_block
  finish hash body from price timestamp consensus number executed s =
      let s1 = sync_db_into_accounts executed.state consensus s in
      let s2 = record s1 { db = ext.commit executed.state s1.db } in
      let s3 = credit_burned_base_fee executed.result.gas_used s2 in
      seal_block ext timestamp consensus
        (unsealed hash body from price consensus number executed ∷ []) s3

  -- The timestamps of the block to come, and the transaction run on it. A refusal comes after the
  -- timestamps were taken: they stay taken.
  abbrev pub run_next :
      TxEnv
      → Timestamp
      → ChainState Db
      → (ℕ × Timestamp × BlockInput) × ChainState Db × Result Rejected Executed
  run_next env now s =
      let (timestamp, s1) = next_block_timestamp now s in
      let (consensus, s2) = next_consensus (record { secs = timestamp; nanos = now.nanos }) s1 in
      let block = block_input timestamp s2 in
      let s3 = sync_accounts_into_db s2 in
      let (db, outcome) = execute ext s3.chain_id block Mode.transaction env s3.db in
      ((timestamp, consensus, block), record s3 { db = db }, outcome)

  abbrev pub settle_run :
      B256
      → TxBody
      → Address
      → ℕ
      → (ℕ × Timestamp × BlockInput)
      → ChainState Db
      → Result Rejected Executed
      → ChainState Db × Result Error B256
  settle_run hash body from price (timestamp, consensus, block) s (err e) = (s, err (rejected e))
  settle_run hash body from price (timestamp, consensus, block) s (ok executed) =
      (finish hash body from price timestamp consensus block.number executed s, ok hash)

  unfoldable pub execute_and_mine :
      B256
      → TxBody
      → Address
      → TxEnv
      → ℕ
      → Timestamp
      → ChainState Db
      → ChainState Db × Result Error B256
  unfolding next_block_timestamp next_consensus block_input sync_accounts_into_db execute finish
  execute_and_mine hash body from env price now s =
      if ltb block_gas_limit env.gas_limit
      then (s, err (rejected (gas_limit_too_high env.gas_limit block_gas_limit)))
      else (let (times, s', outcome) = run_next env now s in
          settle_run hash body from price times s' outcome)

  unfoldable pub effective_gas_price : Decoded → ChainState Db → ℕ
  unfolding priority_fee saturating_add
  effective_gas_price d s =
      smaller d.gas_price (saturating_add s.gas_price (or_zero (priority_fee d.env)))

  unfoldable pub send_raw : Bytes → Timestamp → ChainState Db → ChainState Db × Result Error B256
  unfolding decode_signed effective_gas_price execute_and_mine
  send_raw raw now s = elim (decode_signed ext raw) [
    | err e ↦ (s, err (decode e))
    | ok d ↦ execute_and_mine d.hash (signed raw) d.from d.env (effective_gas_price d s) now s
  ]

  unfoldable pub unsigned_hash : UnsignedTx → ChainState Db → B256
  unfolding be_bytes
  unsigned_hash tx s = ext.keccak256 (
      codes "hanvil unsigned"
      ++ (be_bytes 20 tx.from ++ (be_bytes 8 tx.nonce ++ be_bytes 8 s.chain_id)))

  unfoldable pub send_unsigned :
      UnsignedTx → Timestamp → ChainState Db → ChainState Db × Result Error B256
  unfolding holds_key_for unsigned_hash execute_and_mine
  send_unsigned tx now s =
      if not (holds_key_for s tx.from) && not (any (λ a. a == tx.from) s.impersonated)
      then (s, err (not_impersonated tx.from))
      else elim (ext.build (record {
        tx_type = 0;
        caller = tx.from;
        nonce = tx.nonce;
        gas_limit = tx.gas_limit;
        gas_price = tx.gas_price;
        to = tx.to;
        value = tx.value;
        input = tx.input;
        chain_id = some s.chain_id;
        access_list = none;
        gas_priority_fee = none;
      })) [
        | err e ↦ (s, err (rejected (Rejected.other e)))
        | ok env ↦
            execute_and_mine (unsigned_hash tx s) (unsigned tx) tx.from env tx.gas_price now s
      ]
