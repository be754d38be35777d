-- ===== src/Chain.antt =====
-- src/state/mod.rs: the one chain state, its constants and its reads. Each operation is a function
-- from a state to a state; the proofs stand in the modules below.
pub mod Clock
pub mod Seal
pub mod Supply
pub mod Refusals
pub mod Transfers
pub mod Filters
pub mod Snapshots
pub mod Cheats
pub mod Execution
pub mod Apply
pub mod Calls
pub mod Genesis
pub mod Journal
use hanvil.Prelude.{
  ℕ, ◌+◌, ◌-◌, ℤ, Bool, true, false, Option, none, some, List, [], ◌∷◌, Bytes, leb, if◌then◌else◌,
  length, last_or, get_elem?, is_some,
}
use hanvil.Word.{add_u64}
use hanvil.Maps.BTreeMap.{BTreeMap}
use hanvil.Maps.BTreeMap
use hanvil.Maps.HashMap.{HashMap}
use hanvil.Maps.HashMap
use hanvil.Prelude.Eq.{nat_eq}
use hanvil.Units.{Tinybar, Address, UnitError, long_zero_address}
use hanvil.Time.{Timestamp}
use hanvil.Accounts.{EntityId, Account, evm_address}
use hanvil.Blocks.{B256, Block, TxRecord, Filter}
use hanvil.Records.{TxId, tx_id_has_eq, Topic, Record, Rejection}
use hanvil.Evm.{Rejected, DecodeError}
use hanvil.Keys.{KeyError}

abbrev pub first_user_id : EntityId
first_user_id = 1002

abbrev pub treasury : EntityId
treasury = 2

abbrev pub node_id : EntityId
node_id = 3

abbrev pub fee_collector : EntityId
fee_collector = 98

abbrev pub block_gas_limit : ℕ
block_gas_limit = 15_000_000

abbrev pub hapi_fee : Tinybar
hapi_fee = 10_000

abbrev pub default_max_rejections : ℕ
default_max_rejections = 1_000

abbrev pub max_rejection_message_bytes : ℕ
max_rejection_message_bytes = 512

pub data Error : Type 0 where
  key : KeyError → Error
  decode : DecodeError → Error
  rejected : Rejected → Error
  not_impersonated : Address → Error
  timestamp_not_after_latest : (requested latest : ℕ) → Error
  no_gas_estimate : ℕ → Error
  no_such_filter not_a_log_filter : ℕ → Error

pub record Contract : Type 0 where
  pub address : Address
  pub created_block : ℕ

-- The fields of `Chain` but `snapshots`. A copy under a snapshot id is taken while that map is
-- empty, so a copy is a `ChainState`.
pub record ChainState (Db : Type 0) : Type 0 where
  pub chain_id : ℕ
  pub gas_price : Tinybar
  pub accounts : BTreeMap Account
  pub by_evm : HashMap Address EntityId
  pub contracts : BTreeMap Contract
  pub contract_by_evm : HashMap Address EntityId
  pub next_id : ℕ
  pub db : Db
  pub blocks : List Block
  pub txs : HashMap B256 TxRecord
  pub time_offset : ℤ
  pub next_timestamp : Option ℕ
  pub last_consensus : Timestamp
  pub impersonated : List Address
  pub topics : BTreeMap Topic
  pub hapi_records : List Record
  pub rejections : List Rejection
  pub rejections_dropped : ℕ
  pub max_rejections : ℕ
  pub hapi_by_id : HashMap TxId ℕ
  pub next_snapshot : ℕ
  pub filters : BTreeMap Filter
  pub next_filter : ℕ

pub record Chain (Db : Type 0) : Type 0 where
  pub state : ChainState Db
  pub snapshots : BTreeMap (ChainState Db)

-- What an index into an empty vector would give; the source panics there, and genesis pushes
-- block 0, so no chain is without a block.
abbrev pub no_block : Block
no_block = record {
  number = 0;
  hash = 0;
  parent_hash = 0;
  timestamp = 0;
  consensus_timestamp = record { secs = 0; nanos = 0 };
  gas_limit = 0;
  gas_used = 0;
  base_fee = 0;
  transactions = [];
  logs_bloom = 0;
}

module _ {Db : Type 0} where
  unfoldable pub insert_account : Account → ChainState Db → ChainState Db
  unfolding evm_address long_zero_address
  insert_account a s = record s {
    by_evm =
        HashMap.insert (long_zero_address a.id) a.id (HashMap.insert (evm_address a) a.id s.by_evm);
    next_id =
        if leb first_user_id a.id
        then (if leb s.next_id (add_u64 a.id 1) then add_u64 a.id 1 else s.next_id)
        else s.next_id;
    accounts = BTreeMap.insert a.id a s.accounts;
  }

  -- The id handed out and the state behind it.
  unfoldable pub allocate_id : ChainState Db → EntityId × ChainState Db
  unfolding add_u64
  allocate_id s = (s.next_id, record s { next_id = add_u64 s.next_id 1 })

  abbrev pub block_number : ChainState Db → ℕ
  block_number s = length s.blocks - 1

  abbrev pub latest_block : ChainState Db → Block
  latest_block s = last_or no_block s.blocks

  abbrev pub block_by_number : ChainState Db → ℕ → Option Block
  block_by_number s n = get_elem? s.blocks n

  abbrev pub transaction : ChainState Db → B256 → Option TxRecord
  transaction s hash = HashMap.get hash s.txs

  abbrev pub account : ChainState Db → EntityId → Option Account
  account s i = BTreeMap.get i s.accounts

  unfoldable pub account_by_evm : ChainState Db → Address → Option Account
  account_by_evm s a = elim (HashMap.get a s.by_evm) [
    | none ↦ none
    | some i ↦ BTreeMap.get i s.accounts
  ]

  -- Balance in tinybar; zero for an id with no account.
  unfoldable pub balance_of : ChainState Db → EntityId → Tinybar
  balance_of s i = elim (BTreeMap.get i s.accounts) [ none ↦ 0 | some a ↦ a.balance ]

  -- Whether the id names an account that exists and was not deleted.
  unfoldable pub is_live : ChainState Db → EntityId → Bool
  is_live s i = elim (BTreeMap.get i s.accounts) [
    | none ↦ false
    | some a ↦ if a.deleted then false else true
  ]

  -- Whether the node holds the key of an address.
  unfoldable pub holds_key_for : ChainState Db → Address → Bool
  unfolding account_by_evm
  holds_key_for s a = elim (account_by_evm s a) [
    | none ↦ false
    | some b ↦ is_some b.private_key_hex
  ]

  abbrev pub topic : ChainState Db → EntityId → Option Topic
  topic s i = BTreeMap.get i s.topics

  unfoldable pub hapi_record : ChainState Db → TxId → Option Record
  hapi_record s i = elim (HashMap.get i s.hapi_by_id) [
    | none ↦ none
    | some n ↦ get_elem? s.hapi_records n
  ]

  abbrev pub has_transaction_id : ChainState Db → TxId → Bool
  has_transaction_id s i = HashMap.contains_key i s.hapi_by_id
