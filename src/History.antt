-- ===== src/History.antt =====
-- The life of a node: submitted HAPI transactions, sent EVM transactions, empty blocks, cheats on
-- time, balances, code, nonces and storage, impersonations, installed and removed filters, restarts,
-- snapshots, reverts, polls of filters, calls, and refusals kept for JSON-RPC, one after the other,
-- each served by the operation of src/state/mod.rs behind it.
pub mod Commands
pub mod Journal
pub mod Supply
use hanvil.Prelude.{ℕ, Bool, true, false, List, [], ◌∷◌, map, Bytes}
use hanvil.Maps.BTreeMap.{BTreeMap}
use hanvil.Chain.{Chain}
use hanvil.Chain.Snapshots.{snapshot, revert}
use hanvil.Prelude.Result.{Result, ok, err}
use hanvil.Units.{Tinybar, Address}
use hanvil.Time.{Timestamp}
use hanvil.Blocks.{UnsignedTx, LogFilter, CallRequest}
use hanvil.Records.{Rejection}
use hanvil.Chain.Calls.{call}
use hanvil.Chain.Refusals.{reject}
use hanvil.Evm.{Externals}
use hanvil.Chain.{ChainState, Error}
use hanvil.Chain.Clock.{increase_time, set_next_timestamp}
use hanvil.Chain.Seal.{mine_empty}
use hanvil.Chain.Execution.{send_raw, send_unsigned}
use hanvil.Chain.Cheats.{
  set_balance, set_code, set_nonce, set_storage, impersonate, stop_impersonating,
}
use hanvil.Chain.Filters.{
  filter_changes, install_log_filter, install_block_filter, uninstall_filter,
}
use hanvil.Chain.Genesis.{reindex}
use hanvil.Wire.Proto.{Protobuf, Envelope}
use hanvil.Wire.Signatures.{Curves}
use hanvil.Wire.Precheck.{submit}

-- `restarted` is a node that saved its chain and read it again.
pub data Request : Type 0 where
  submitted : Envelope → Timestamp → Request
  raw_sent : Bytes → Timestamp → Request
  unsigned_sent : UnsignedTx → Timestamp → Request
  mined : Timestamp → Request
  time_increased next_timestamp_set : ℕ → Request
  balance_set : Address → Tinybar → Timestamp → Request
  code_set : Address → Bytes → Request
  nonce_set : Address → ℕ → Request
  storage_set : (address : Address) (slot value : ℕ) → Request
  impersonated no_longer_impersonated : Address → Request
  log_filter_installed : LogFilter → Request
  block_filter_installed : Request
  filter_polled : ℕ → Request
  filter_uninstalled : ℕ → Request
  called : CallRequest → Timestamp → Request
  rpc_refused : Rejection → Request
  restarted : Request

abbrev pub is_restart : Request → Bool
is_restart r = elim r [ restarted ↦ true | _ ↦ false ]

-- A request, or `evm_snapshot`, or `evm_revert` with the number of a snapshot.
pub data Command : Type 0 where
  asked : Request → Command
  snapshot_taken : Command
  reverted : ℕ → Command

-- A request that is refused leaves the state.
abbrev pub kept_or : {Db : Type 0} → ChainState Db → Result Error (ChainState Db) → ChainState Db
kept_or s (ok s') = s'
kept_or s (err e) = s

abbrev pub polled_or :
    {Db A : Type 0} → ChainState Db → Result Error (A × ChainState Db) → ChainState Db
polled_or s (ok (answer, s')) = s'
polled_or s (err e) = s

module _ {Db : Type 0} (ext : Externals Db) (proto : Protobuf) (curves : Curves)
    (verify : Bool) where
  unfoldable pub serve : Request → ChainState Db → ChainState Db
  unfolding submit send_raw send_unsigned mine_empty increase_time set_next_timestamp set_balance
      set_code set_nonce set_storage impersonate stop_impersonating install_log_filter
      install_block_filter uninstall_filter filter_changes call reject reindex
  serve (submitted envelope now) s = (submit ext proto curves s envelope now verify).0
  serve (raw_sent raw now) s = (send_raw ext raw now s).0
  serve (unsigned_sent tx now) s = (send_unsigned ext tx now s).0
  serve (mined now) s = mine_empty ext now s
  serve (time_increased seconds) s = (increase_time seconds s).1
  serve (next_timestamp_set timestamp) s = kept_or s (set_next_timestamp timestamp s)
  serve (balance_set address balance now) s = set_balance ext address balance now s
  serve (code_set address code) s = set_code ext address code s
  serve (nonce_set address nonce) s = set_nonce ext address nonce s
  serve (storage_set address slot value) s = set_storage ext address slot value s
  serve (impersonated address) s = impersonate address s
  serve (no_longer_impersonated address) s = stop_impersonating address s
  serve (log_filter_installed query) s = (install_log_filter query s).1
  serve block_filter_installed s = (install_block_filter s).1
  serve (filter_polled id) s = polled_or s (filter_changes id s)
  serve (filter_uninstalled id) s = (uninstall_filter id s).1
  serve (called request now) s = (call ext request now s).0
  serve (rpc_refused r) s = reject r s
  serve restarted s = reindex s

  -- A restart rebuilds the index of every snapshot as well.
  abbrev pub reread : Bool → BTreeMap (ChainState Db) → BTreeMap (ChainState Db)
  reread true copies = map (λ p. (p.0, reindex p.1)) copies
  reread false copies = copies

  unfoldable pub obey : Command → Chain Db → Chain Db
  unfolding serve reindex snapshot revert
  obey (asked r) c = record {
    state = serve r c.state;
    snapshots = reread (is_restart r) c.snapshots;
  }
  obey snapshot_taken c = (snapshot c).1
  obey (reverted id) c = (revert id c).1

  -- The commands in the order in which they arrive.
  unfoldable pub serve_all : List Command → Chain Db → Chain Db
  unfolding obey
  serve_all [] c = c
  serve_all (command ∷ rest) c = serve_all rest (obey command c)
