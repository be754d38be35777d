-- ===== src/History/Supply.antt =====
-- The tinybar in the accounts of a node, over a history of HAPI transactions.
use hanvil.Prelude.{ℕ, ◌*◌, ◌≤◌, ◌≡◌, refl, ◌∙◌, arith, Bool, List, []}
use hanvil.Prelude.Result.{ok, outcome, value, error}
use hanvil.Time.{Timestamp}
use hanvil.Records.{Transaction, Rejection}
use hanvil.Evm.{Externals, execute}
use hanvil.Keys.{KeyCurves, per_group}
use hanvil.Chain.{ChainState, Chain}
use hanvil.Chain.Snapshots.Copies.{EachHolds}
use hanvil.History.Commands.{AreAllowed, serve_all-EachHolds}
use hanvil.Chain.Clock.{increase_time, set_next_timestamp, next_block_timestamp, next_consensus}
use hanvil.Chain.Seal.{mine_empty, seal_block}
use hanvil.Chain.Supply.{supply, IsSound, Conserves}
use hanvil.Chain.Refusals.{reject}
use hanvil.Chain.Cheats.{set_storage, impersonate, stop_impersonating}
use hanvil.Chain.Calls.{call}
use hanvil.Chain.Execution.{sync_accounts_into_db}
use hanvil.Chain.Filters.{
  filter_changes, install_log_filter, install_block_filter, uninstall_filter,
}
use hanvil.Chain.Apply.Bodies.{Fits}
use hanvil.Chain.Apply.Books.{keep_books}
use hanvil.Chain.Apply.Conservation.{apply_hapi-Conserves}
use hanvil.Chain.Genesis.{Genesis, genesis, reindex, total_supply}
use hanvil.Chain.Genesis.Supply.{genesis-IsSound}
use hanvil.Wire.Proto.{Protobuf, Envelope}
use hanvil.Wire.Signatures.{Curves}
use hanvil.Wire.Precheck.{precheck, submit}
use hanvil.Wire.Precheck.Gate.{precheck-IsAccepted}
use hanvil.History.{
  Request, submitted, raw_sent, unsigned_sent, mined, time_increased, next_timestamp_set,
  balance_set, code_set, nonce_set, storage_set, impersonated, no_longer_impersonated,
  log_filter_installed, block_filter_installed, filter_uninstalled, restarted, filter_polled,
  called, rpc_refused, Command, serve, serve_all,
}

module _ {Db : Type 0} where
  -- The whole supply is in sound books.
  abbrev pub IsWhole : ChainState Db → Type 0
  IsWhole s = (supply s ≡ total_supply) × IsSound s

  Conserves-IsWhole : {s s' : ChainState Db} → Conserves s s' → supply s ≡ total_supply → IsWhole s'
  Conserves-IsWhole c held = (c.same ∙ held, c.sound)

module _ {Db : Type 0} (ext : Externals Db) (proto : Protobuf) (curves : Curves)
    (verify : Bool) where
  -- No EVM transaction and no cheat on accounts or code; and what a HAPI transaction carries fits:
  -- its amounts are i64s and there are ids for what it creates.
  abbrev pub IsHapi : Request → ChainState Db → Type 0
  IsHapi (submitted envelope now) s =
      (tx : Transaction) → precheck ext proto curves s envelope now verify ≡ ok tx → Fits tx.body s
  IsHapi (raw_sent raw now) s = ⊥
  IsHapi (unsigned_sent tx now) s = ⊥
  IsHapi (balance_set address balance now) s = ⊥
  IsHapi (code_set address code) s = ⊥
  IsHapi (nonce_set address nonce) s = ⊥
  IsHapi _ s = Unit {0}

  abbrev pub AreHapi : List Command → Chain Db → Type 0
  AreHapi = AreAllowed ext proto curves verify IsHapi

  reject-Conserves : (r : Rejection) (s : ChainState Db) → IsSound s → Conserves s (reject r s)
  unfolding reject
  reject-Conserves r s v = keep_books s _ (ground arith) (ground arith) v

  submit-Conserves :
      (envelope : Envelope) (now : Timestamp) (s : ChainState Db)
      → IsSound s
      → IsHapi (submitted envelope now) s
      → Conserves s (submit ext proto curves s envelope now verify).0
  unfolding submit
  submit-Conserves envelope now s v fits =
      elim (outcome (precheck ext proto curves s envelope now verify)) [
        | value tx e ↦
            (let a = precheck-IsAccepted ext proto curves s envelope now verify tx e in
              rw (e, submit)
                (apply_hapi-Conserves ext tx now s a.payer v a.paid_by a.pays (fits tx e)))
        | error e eq ↦ rw (eq, submit) (reject-Conserves _ s v)
      ]

  mine_empty-Conserves :
      (now : Timestamp) (s : ChainState Db) → IsSound s → Conserves s (mine_empty ext now s)
  unfolding mine_empty next_consensus seal_block next_block_timestamp
  mine_empty-Conserves now s v = keep_books s _ (ground arith) (ground arith) v

  serve-Conserves :
      (request : Request) (s : ChainState Db)
      → IsSound s
      → IsHapi request s
      → Conserves s (serve ext proto curves verify request s)
  unfolding serve increase_time set_next_timestamp set_storage impersonate stop_impersonating
      install_log_filter install_block_filter uninstall_filter reindex filter_changes call
      sync_accounts_into_db execute
  serve-Conserves (submitted envelope now) s v h = submit-Conserves envelope now s v h
  serve-Conserves (raw_sent raw now) s v h = absurd h
  serve-Conserves (unsigned_sent tx now) s v h = absurd h
  serve-Conserves (mined now) s v h = mine_empty-Conserves now s v
  serve-Conserves (time_increased seconds) s v h = keep_books s _ refl refl v
  serve-Conserves (next_timestamp_set timestamp) s v h =
      keep_books s _ (ground arith) (ground arith) v
  serve-Conserves (balance_set address balance now) s v h = absurd h
  serve-Conserves (code_set address code) s v h = absurd h
  serve-Conserves (nonce_set address nonce) s v h = absurd h
  serve-Conserves (storage_set address slot word) s v h = keep_books s _ refl refl v
  serve-Conserves (impersonated address) s v h = keep_books s _ (ground arith) (ground arith) v
  serve-Conserves (no_longer_impersonated address) s v h = keep_books s _ refl refl v
  serve-Conserves (log_filter_installed query) s v h = keep_books s _ refl refl v
  serve-Conserves block_filter_installed s v h = keep_books s _ refl refl v
  serve-Conserves (filter_polled id) s v h = keep_books s _ (ground arith) (ground arith) v
  serve-Conserves (called request now) s v h = keep_books s _ refl refl v
  serve-Conserves (rpc_refused r) s v h = reject-Conserves r s v
  serve-Conserves (filter_uninstalled id) s v h = keep_books s _ refl refl v
  serve-Conserves restarted s v h = keep_books s _ refl refl v

  serve-IsWhole :
      (request : Request) (s : ChainState Db)
      → IsWhole s
      → IsHapi request s
      → IsWhole (serve ext proto curves verify request s)
  serve-IsWhole request s (held, v) h = Conserves-IsWhole (serve-Conserves request s v h) held

  reindex-IsWhole : (s : ChainState Db) → IsWhole s → IsWhole (reindex s)
  unfolding reindex
  reindex-IsWhole s (held, v) = Conserves-IsWhole (keep_books s (reindex s) refl refl v) held

  renumbered-IsWhole :
      (n : ℕ) (s : ChainState Db) → IsWhole s → IsWhole (record s { next_snapshot = n })
  renumbered-IsWhole n s (held, v) =
      Conserves-IsWhole (keep_books s (record s { next_snapshot = n }) refl refl v) held

  -- From genesis with predefined accounts that the supply covers, through any history of submitted
  -- HAPI transactions other than `ethereumTransaction`, empty blocks, cheats on time and storage,
  -- impersonations, installed and removed filters, restarts, snapshots, reverts, polls, calls and
  -- refusals kept for JSON-RPC, where the amounts of the transactions are i64s and ids are left for
  -- what they create: the accounts of the state, and those of every snapshot, hold exactly the
  -- total supply, and the books are sound.
  pub serve_all-supply :
      (keys : KeyCurves) (g : Genesis) (db : Db) (s : ChainState Db) (commands : List Command)
      → genesis ext keys g db ≡ ok s
      → g.balance * (3 * per_group g.accounts_per_type) ≤ total_supply
      → AreHapi commands (record { state = s; snapshots = [] })
      → EachHolds IsWhole
          (serve_all ext proto curves verify commands (record { state = s; snapshots = [] }))
  serve_all-supply keys g db s commands start fits h =
      let (v, held, linked) = genesis-IsSound ext keys g db s start fits in
      serve_all-EachHolds ext proto curves verify IsWhole renumbered-IsWhole reindex-IsWhole IsHapi
        serve-IsWhole commands (record { state = s; snapshots = [] }) h
        (record { head = (held, v); copies = tt })
