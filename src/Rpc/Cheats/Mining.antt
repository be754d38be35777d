-- ===== src/Rpc/Cheats/Mining.antt =====
-- `evm_mine` and `anvil_mine`, of src/rpc/cheats.rs.
use hanvil.Prelude.{ℕ, zero, suc, Option, none, some, List, Bytes, codes, get_elem?}
use hanvil.Prelude.Result.{Result, ok, map_err, ◌>>=◌}
use hanvil.Time.{Timestamp}
use hanvil.Evm.{Externals}
use hanvil.Chain.{ChainState}
use hanvil.Chain.Clock
use hanvil.Chain.Seal.{mine_empty}
use hanvil.Rpc.{Value, object, find, Formats}
use hanvil.Rpc.Errors.{RpcError, of_error}
use hanvil.Rpc.Params.{optional, parse_u64}

pub record Mine : Type 0 where
  pub count : ℕ
  pub pinned : Option ℕ
  pub interval : ℕ

abbrev or_value : ℕ → Option ℕ → ℕ
or_value d none = d
or_value d (some n) = n

module _ (formats : Formats) where
  abbrev pub u64_or : ℕ → Option Value → Bytes → Result RpcError ℕ
  u64_or d param name = optional (λ v. parse_u64 formats v name) param >>= λ n. ok (or_value d n)

  abbrev pinned_of : Option Value → Result RpcError (Option ℕ)
  pinned_of (some (object fs)) =
      optional (λ v. parse_u64 formats v (codes "timestamp")) (find (codes "timestamp") fs)
  pinned_of param = optional (λ v. parse_u64 formats v (codes "timestamp")) param

  unfoldable pub anvil_mine_params : List Value → Result RpcError Mine
  unfolding parse_u64
  anvil_mine_params params = do
    count ← u64_or 1 (get_elem? params 0) (codes "blocks")
    interval ← u64_or 0 (get_elem? params 1) (codes "interval")
    ok (record { count = count; pinned = none; interval = interval })

  unfoldable pub evm_mine_params : List Value → Result RpcError Mine
  unfolding parse_u64
  evm_mine_params params = do
    pinned ← pinned_of (get_elem? params 0)
    ok (record { count = 1; pinned = pinned; interval = 0 })

module _ {Db : Type 0} (ext : Externals Db) (now : Timestamp) where
  -- The blocks behind the first are spaced by the interval.
  unfoldable pub mine_spaced : ℕ → ℕ → ChainState Db → ChainState Db
  unfolding mine_empty Clock.increase_time
  mine_spaced zero interval s = s
  mine_spaced (suc n) interval s =
      mine_spaced n interval (mine_empty ext now (Clock.increase_time interval s).1)

  unfoldable pub mine_blocks : ℕ → ℕ → ChainState Db → ChainState Db
  unfolding mine_spaced mine_empty
  mine_blocks zero interval s = s
  mine_blocks (suc n) interval s = mine_spaced n interval (mine_empty ext now s)

module _ (formats : Formats) {Db : Type 0} (ext : Externals Db) (now : Timestamp) where
  abbrev pub pinned_first : Option ℕ → ChainState Db → Result RpcError (ChainState Db)
  pinned_first none s = ok s
  pinned_first (some timestamp) s =
      map_err (of_error formats) (Clock.set_next_timestamp timestamp s)

  unfoldable pub mine : Result RpcError Mine → ChainState Db → Result RpcError (ChainState Db)
  unfolding mine_blocks Clock.set_next_timestamp of_error
  mine asked s = do
    m ← asked
    s' ← pinned_first m.pinned s
    ok (mine_blocks ext now m.count m.interval s')
