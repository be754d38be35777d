-- ===== src/Chain/Genesis.antt =====
-- `genesis`, `etch` and `reindex` of src/state/mod.rs: the first state of a chain, and the index
-- that is rebuilt when a saved one is read.
pub mod Supply
pub mod Reindex
use hanvil.Prelude.{
  ℕ, ◌+◌, false, ltb, if◌then◌else◌, Option, none, some, List, [], ◌∷◌, ◌++◌, Bytes, codes, length,
  pos,
}
use hanvil.Prelude.Result.{Result, ok, err, ◌>>=◌, map_err}
use hanvil.Word.{saturating_mul, saturating_sub, decimal}
use hanvil.Maps.HashMap.{HashMap}
use hanvil.Maps.HashMap
use hanvil.Maps.BTreeMap.{BTreeMap}
use hanvil.Maps.BTreeMap
use hanvil.Units.{Tinybar, Address, from_hbar, long_zero_address}
use hanvil.Time.{Timestamp}
use hanvil.Accounts.{EntityId, Account, Key}
use hanvil.Blocks.{Block}
use hanvil.Records.{TxId, tx_id_has_eq, Record}
use hanvil.Evm.{Externals}
use hanvil.Evm.Reverts.{revert_stub}
use hanvil.Keys.{KeyCurves, KeyError, predefined_accounts, treasury_key}
use hanvil.Chain.{
  ChainState, Chain, Error, first_user_id, treasury, node_id, fee_collector, default_max_rejections,
  block_gas_limit, insert_account,
}
use hanvil.Chain.Execution.{db_account}

pub record Genesis : Type 0 where
  pub chain_id : ℕ
  pub accounts_per_type : ℕ
  pub balance : Tinybar
  pub gas_price : Tinybar
  pub now : Timestamp

-- 50 billion hbar
unfoldable pub total_supply : Tinybar
unfolding from_hbar
total_supply = from_hbar 50_000_000_000

-- The HTS, exchange rate and PRNG system contracts, each with what a call to it reverts with.
abbrev pub unemulated_system_contracts : List (EntityId × Bytes)
unemulated_system_contracts =
    (359, codes "hanvil: HTS system contract not emulated; see README#system-contracts")
    ∷ (360, codes "hanvil: exchange rate system contract not emulated; see README#system-contracts")
    ∷ (361, codes "hanvil: PRNG system contract not emulated; see README#system-contracts")
    ∷ []

abbrev pub system_account : EntityId → Option Key → Tinybar → Timestamp → Account
system_account i key balance at = record {
  id = i;
  key = key;
  alias = none;
  balance = balance;
  nonce = 0;
  deleted = false;
  memo = [];
  created_at = at;
  private_key_hex = none;
}

-- The records' indices by id, behind the ones filed so far; a later record takes its id over.
unfoldable pub index_records : ℕ → List Record → HashMap TxId ℕ → HashMap TxId ℕ
unfolding HashMap.insert
index_records n [] index = index
index_records n (r ∷ rest) index = index_records (n + 1) rest (HashMap.insert r.id n index)

module _ {Db : Type 0} where
  -- A chain with nothing in it, on an empty database.
  abbrev pub empty_chain : Genesis → Db → ChainState Db
  empty_chain g db = record {
    chain_id = g.chain_id;
    gas_price = g.gas_price;
    accounts = [];
    by_evm = [];
    contracts = [];
    contract_by_evm = [];
    next_id = first_user_id;
    db = db;
    blocks = [];
    txs = [];
    time_offset = pos 0;
    next_timestamp = none;
    last_consensus = g.now;
    impersonated = [];
    topics = [];
    hapi_records = [];
    rejections = [];
    rejections_dropped = 0;
    max_rejections = default_max_rejections;
    hapi_by_id = [];
    next_snapshot = 0;
    filters = [];
    next_filter = 0;
  }

  unfoldable pub insert_all : List Account → ChainState Db → ChainState Db
  insert_all [] s = s
  insert_all (a ∷ rest) s = insert_all rest (insert_account a s)

  -- The index of one chain state; those under the snapshot ids are rebuilt the same way.
  unfoldable pub reindex : ChainState Db → ChainState Db
  unfolding index_records
  reindex s = record s { hapi_by_id = index_records 0 s.hapi_records [] }

  reindex_all : BTreeMap (ChainState Db) → BTreeMap (ChainState Db)
  reindex_all [] = []
  reindex_all ((i, s) ∷ rest) = (i, reindex s) ∷ reindex_all rest

  unfoldable pub reindex_chain : Chain Db → Chain Db
  unfolding reindex reindex_all
  reindex_chain c = record { state = reindex c.state; snapshots = reindex_all c.snapshots }

module _ {Db : Type 0} (ext : Externals Db) where
  -- Bytecode at an address, which gets no contract entity.
  unfoldable pub etch : Address → Bytes → ChainState Db → ChainState Db
  unfolding db_account
  etch address code s = record s {
    db = ext.put_account address (record (db_account ext address s.db) { code = some code }) s.db;
  }

  unfoldable pub etch_all : List (EntityId × Bytes) → ChainState Db → ChainState Db
  unfolding etch revert_stub long_zero_address
  etch_all [] s = s
  etch_all ((entity, reason) ∷ rest) s =
      etch_all rest (etch (long_zero_address entity) (revert_stub reason) s)

  abbrev pub genesis_block : Genesis → Block
  genesis_block g = record {
    number = 0;
    hash = ext.keccak256 (codes "hanvil genesis chain " ++ decimal g.chain_id);
    parent_hash = 0;
    timestamp = g.now.secs;
    consensus_timestamp = g.now;
    gas_limit = block_gas_limit;
    gas_used = 0;
    base_fee = g.gas_price;
    transactions = [];
    logs_bloom = 0;
  }

  -- The system accounts, the users and the stubs, in the order of the source.
  unfoldable pub populate : Genesis → Key → List Account → ChainState Db → ChainState Db
  unfolding insert_all etch_all total_supply insert_account
  populate g minter users s =
      let funded = saturating_mul g.balance (length users) in
      let s1 =
        insert_account
          (system_account treasury (some minter) (saturating_sub total_supply funded) g.now) s in
      let s2 = insert_account (system_account node_id none 0 g.now) s1 in
      let s3 = insert_account (system_account fee_collector none 0 g.now) s2 in
      let s4 = insert_all users s3 in
      let s5 = record s4 {
        next_id = if ltb s4.next_id first_user_id then first_user_id else s4.next_id;
      } in
      let s6 = etch_all unemulated_system_contracts s5 in
      record s6 { blocks = s6.blocks ++ genesis_block g ∷ [] }

  unfoldable pub genesis : KeyCurves → Genesis → Db → Result Error (ChainState Db)
  unfolding populate predefined_accounts treasury_key
  genesis curves g empty_db = do
    users ←
        map_err Error.key
          (predefined_accounts curves first_user_id g.accounts_per_type g.balance g.now)
    minter ← map_err Error.key (treasury_key curves)
    ok (populate g minter users (empty_chain g empty_db))
