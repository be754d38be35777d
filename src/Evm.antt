-- ===== src/Evm.antt =====
-- src/evm/mod.rs: decoding a signed transaction and running one on revm. revm, alloy and the hash
-- functions stand outside the repository: they are the fields of `Externals`.
pub mod Reverts
use hanvil.Prelude.{ℕ, Bool, true, false, Option, none, some, List, Bytes, ltb}
use hanvil.Prelude.Result.{Result, ok, ◌>>=◌, ◌>>◌, refuse_if, map_err}
use hanvil.Units.{Tinybar, Address, UnitError, from_weibar_exact, from_weibar_floor, to_evm}
use hanvil.Blocks.{B256, Bloom}

pub record BlockInput : Type 0 where
  pub number : ℕ
  pub timestamp : ℕ
  pub gas_limit : ℕ
  pub base_fee : ℕ
  pub beneficiary : Address

pub data Mode : Type 0 where
  transaction call : Mode

pub data Rejected : Type 0 where
  nonce_too_low nonce_too_high : (tx state : ℕ) → Rejected
  insufficient_funds : (need have : ℕ) → Rejected
  gas_price_too_low : (base_fee : ℕ) → Rejected
  chain_id : (tx : Option ℕ) (expected : ℕ) → Rejected
  gas_limit_too_high : (tx most : ℕ) → Rejected
  other : Bytes → Rejected

pub data DecodeError : Type 0 where
  envelope signature : Bytes → DecodeError
  tx_type : ℕ → DecodeError
  units : UnitError → DecodeError

-- revm's transaction environment: the fields that the program sets.
pub record TxEnv : Type 0 where
  pub tx_type : ℕ
  pub caller : Address
  pub nonce : ℕ
  pub gas_limit : ℕ
  pub gas_price : ℕ
  pub to : Option Address
  pub value : ℕ
  pub input : Bytes
  pub chain_id : Option ℕ
  pub access_list : Option Bytes
  pub gas_priority_fee : Option ℕ

-- alloy's envelope, by its accessors.
pub record Envelope : Type 0 where
  pub hash : B256
  pub tx_type : ℕ
  pub value : ℕ
  pub max_fee_per_gas : ℕ
  pub max_priority_fee_per_gas : Option ℕ
  pub nonce : ℕ
  pub gas_limit : ℕ
  pub to : Option Address
  pub input : Bytes
  pub chain_id : Option ℕ
  pub access_list : Option Bytes

pub record Log : Type 0 where
  pub address : Address
  pub topics : List B256
  pub payload : Bytes

pub data Verdict : Type 0 where
  create : Option Address → Bytes → Verdict
  call : Bytes → Verdict
  revert : Bytes → Verdict
  halt : Bytes → Verdict

-- revm's `ExecutionResult`, by its accessors.
pub record ExecutionResult : Type 0 where
  pub gas_used : ℕ
  pub logs : List Log
  pub verdict : Verdict

-- `is_success`
abbrev pub is_success : ExecutionResult → Bool
is_success r = elim r.verdict [
  | create a b ↦ true
  | call b ↦ true
  | revert b ↦ false
  | halt b ↦ false
]

-- One account of revm's `EvmState`.
pub record Touched : Type 0 where
  pub address : Address
  pub is_touched : Bool
  pub balance : ℕ
  pub nonce : ℕ
  pub has_code : Bool

pub record Executed : Type 0 where
  pub result : ExecutionResult
  pub state : List Touched

-- revm's errors: those that `rejection` names, and the text of any other.
pub data EvmError : Type 0 where
  nonce_too_low nonce_too_high : (tx state : ℕ) → EvmError
  lack_of_fund_for_max_fee : (fee balance : ℕ) → EvmError
  gas_price_less_than_basefee invalid_chain_id caller_gas_limit_more_than_block : EvmError
  other : Bytes → EvmError

pub record Cfg : Type 0 where
  pub chain_id : ℕ
  pub disable_balance_check : Bool
  pub disable_nonce_check : Bool
  pub disable_base_fee : Bool
  pub disable_block_gas_limit : Bool

-- An entry of revm's `CacheDB`.
pub record DbAccount : Type 0 where
  pub not_existing : Bool
  pub balance : ℕ
  pub nonce : ℕ
  pub code : Option Bytes
  pub storage : List (ℕ × ℕ)

-- What the program takes from its dependencies. `load_account` and `put_account` are the read and
-- the write through the `&mut DbAccount` that `CacheDB::load_account` hands out.
pub record Externals (Db : Type 0) : Type 0 where
  pub keccak256 : Bytes → B256
  pub sha384 : Bytes → Bytes
  pub accrue_bloom : Bloom → Bloom → Bloom
  pub accrue_log : Bloom → Log → Bloom
  pub decode_2718 : Bytes → Result Bytes Envelope
  pub recover_signer : Envelope → Result Bytes Address
  pub build : TxEnv → Result Bytes TxEnv
  pub build_fill : TxEnv → TxEnv
  pub transact : Cfg → BlockInput → TxEnv → Db → Db × Result EvmError Executed
  pub commit : List Touched → Db → Db
  pub cached : Address → Db → Option DbAccount
  pub load_account : Address → Db → DbAccount
  pub put_account : Address → DbAccount → Db → Db

pub record Decoded : Type 0 where
  pub hash : B256
  pub from : Address
  pub env : TxEnv
  pub gas_price : Tinybar

abbrev pub priority_tinybar : Option ℕ → Result UnitError (Option ℕ)
priority_tinybar none = ok none
priority_tinybar (some p) = do t ← from_weibar_floor p; ok (some t)

unfoldable pub rejection : EvmError → ℕ → BlockInput → ℕ → Rejected
rejection (nonce_too_low tx state) expected block gas_limit = nonce_too_low tx state
rejection (nonce_too_high tx state) expected block gas_limit = nonce_too_high tx state
rejection (lack_of_fund_for_max_fee fee balance) expected block gas_limit =
    insufficient_funds fee balance
rejection gas_price_less_than_basefee expected block gas_limit = gas_price_too_low block.base_fee
rejection invalid_chain_id expected block gas_limit = chain_id none expected
rejection caller_gas_limit_more_than_block expected block gas_limit =
    gas_limit_too_high gas_limit block.gas_limit
rejection (other text) expected block gas_limit = other text

-- A read-only call skips the balance, nonce and fee checks.
abbrev pub cfg_for : ℕ → Mode → Cfg
cfg_for chain transaction = record {
  chain_id = chain;
  disable_balance_check = false;
  disable_nonce_check = false;
  disable_base_fee = false;
  disable_block_gas_limit = false;
}
cfg_for chain call = record {
  chain_id = chain;
  disable_balance_check = true;
  disable_nonce_check = true;
  disable_base_fee = true;
  disable_block_gas_limit = true;
}

module _ {Db : Type 0} (ext : Externals Db) where
  unfoldable pub decode_signed : Bytes → Result DecodeError Decoded
  unfolding from_weibar_exact from_weibar_floor
  decode_signed raw = do
    tx ← map_err DecodeError.envelope (ext.decode_2718 raw)
    refuse_if (ltb 2 tx.tx_type) (DecodeError.tx_type tx.tx_type)
    from ← map_err DecodeError.signature (ext.recover_signer tx)
    value ← map_err DecodeError.units (from_weibar_exact tx.value)
    gas_price ← map_err DecodeError.units (from_weibar_floor tx.max_fee_per_gas)
    priority ← map_err DecodeError.units (priority_tinybar tx.max_priority_fee_per_gas)
    env ← map_err DecodeError.envelope (
        ext.build (record {
          tx_type = tx.tx_type;
          caller = from;
          nonce = tx.nonce;
          gas_limit = tx.gas_limit;
          gas_price = gas_price;
          to = tx.to;
          value = to_evm value;
          input = tx.input;
          chain_id = tx.chain_id;
          access_list = tx.access_list;
          gas_priority_fee = priority;
        }))
    ok (record { hash = tx.hash; from = from; env = env; gas_price = gas_price })

  -- The database that the run leaves is kept on every branch; nothing is committed.
  unfoldable pub execute : ℕ → BlockInput → Mode → TxEnv → Db → Db × Result Rejected Executed
  unfolding rejection
  execute chain block mode tx db =
      let (db', outcome) = ext.transact (cfg_for chain mode) block tx db in
      (db', map_err (λ e. rejection e chain block tx.gas_limit) outcome)
