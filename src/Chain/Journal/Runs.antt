-- ===== src/Chain/Journal/Runs.antt =====
-- The EVM side leaves the HAPI records alone and the blocks linked.
use hanvil.Prelude.{
  ℕ, ◌+◌, ◌≡◌, refl, ◌∙◌, ap, arith, Bool, true, false, not, if◌then◌else◌, List, [], ◌∷◌, Bytes,
  ltb, any, ◌&&◌, ◌==◌,
}
use hanvil.Prelude.Result.{Result, ok, err, outcome, value, error}
use hanvil.Units.{Tinybar, Address}
use hanvil.Time.{Timestamp}
use hanvil.Blocks.{B256, TxBody, UnsignedTx, unsigned}
use hanvil.Evm.{Externals, BlockInput, TxEnv, Touched, Executed, Rejected, decode_signed}
use hanvil.Chain.{
  ChainState, Error, rejected, holds_key_for, insert_account, allocate_id, block_number,
  block_gas_limit,
}
use hanvil.Chain.Clock.{next_consensus}
use hanvil.Chain.Seal.{seal_block}
use hanvil.Chain.Execution.{
  read_back, read_all, add_contracts, add_hollows, sync_db_into_accounts, credit_burned_base_fee,
  finish, Fresh, run_next, settle_run, execute_and_mine, sync_accounts_into_db, send_raw,
  send_unsigned, unsigned_hash,
}
use hanvil.Chain.Execution.Mining.{execute_and_mine-IsMined, execute_and_mine_refused}
use hanvil.Chain.Journal.{
  filed, clock_journal, KeepsJournal, untouched-KeepsJournal, either-KeepsJournal,
}

module _ {Db : Type 0} where
  filed-read_back :
      (t : Touched) (s : ChainState Db) (fresh : Fresh) → filed (read_back t s fresh).0 ≡ filed s
  unfolding read_back
  filed-read_back t s fresh = ground arith

  filed-read_all :
      (ts : List Touched) (s : ChainState Db) (fresh : Fresh)
      → filed (read_all ts s fresh).0 ≡ filed s
  unfolding read_all
  filed-read_all [] s fresh = refl
  filed-read_all (t ∷ ts) s fresh =
      filed-read_all ts (read_back t s fresh).0 (read_back t s fresh).1 ∙ filed-read_back t s fresh

  contracts_filed :
      (block : ℕ) (l : List Address) (s : ChainState Db) → filed (add_contracts block l s) ≡ filed s
  unfolding add_contracts allocate_id
  contracts_filed block [] s = refl
  contracts_filed block (a ∷ l) s = contracts_filed block l _

  hollows_filed :
      (at : Timestamp) (l : List (Address × Tinybar)) (s : ChainState Db)
      → filed (add_hollows at l s) ≡ filed s
  unfolding add_hollows allocate_id insert_account
  hollows_filed at [] s = refl
  hollows_filed at ((a, b) ∷ l) s = hollows_filed at l _

  sync_filed :
      (state : List Touched) (at : Timestamp) (s : ChainState Db)
      → filed (sync_db_into_accounts state at s) ≡ filed s
  unfolding sync_db_into_accounts
  sync_filed state at s =
      let (s1, (contracts, hollows)) = read_all state s ([], []) in
      hollows_filed at hollows (add_contracts (block_number s + 1) contracts s1)
      ∙ (contracts_filed (block_number s + 1) contracts s1 ∙ filed-read_all state s ([], []))

  burned_filed : (gas : ℕ) (s : ChainState Db) → filed (credit_burned_base_fee gas s) ≡ filed s
  unfolding credit_burned_base_fee
  burned_filed gas s = ground arith

module _ {Db : Type 0} (ext : Externals Db) where
  filed-finish :
      (hash : B256) (body : TxBody) (from : Address) (price timestamp : ℕ) (consensus : Timestamp)
      (number : ℕ) (executed : Executed) (s : ChainState Db)
      → filed (finish ext hash body from price timestamp consensus number executed s) ≡ filed s
  unfolding finish seal_block
  filed-finish hash body from price timestamp consensus number executed s =
      let s1 = sync_db_into_accounts executed.state consensus s in
      let s2 : ChainState Db = record s1 { db = ext.commit executed.state s1.db } in
      burned_filed executed.result.gas_used s2 ∙ sync_filed executed.state consensus s

  filed-run_next :
      (env : TxEnv) (now : Timestamp) (s : ChainState Db)
      → filed (run_next ext env now s).1 ≡ filed s
  unfolding sync_accounts_into_db next_consensus
  filed-run_next env now s = ap (λ j. j.1) (clock_journal now s)

  filed-settle_run :
      (hash : B256) (body : TxBody) (from : Address) (price : ℕ)
      (times : ℕ × Timestamp × BlockInput) (s : ChainState Db) (m : Result Rejected Executed)
      → filed (settle_run ext hash body from price times s m).0 ≡ filed s
  filed-settle_run hash body from price times s (err e) = refl
  filed-settle_run hash body from price times s (ok executed) =
      filed-finish hash body from price times.0 times.1 times.2.number executed s

  either_filed :
      {R : Type 0} (b : Bool) (p q : ChainState Db × R) (s : ChainState Db)
      → filed p.0 ≡ filed s
      → filed q.0 ≡ filed s
      → filed (if b then p else q).0 ≡ filed s
  either_filed true p q s h k = h
  either_filed false p q s h k = k

  run_filed :
      (hash : B256) (body : TxBody) (from : Address) (env : TxEnv) (price : ℕ) (now : Timestamp)
      (s : ChainState Db)
      → filed (execute_and_mine ext hash body from env price now s).0 ≡ filed s
  unfolding execute_and_mine
  run_filed hash body from env price now s =
      let (times, s', m) = run_next ext env now s in
      either_filed (ltb block_gas_limit env.gas_limit) _
        (settle_run ext hash body from price times s' m) s refl
        (filed-settle_run hash body from price times s' m ∙ filed-run_next env now s)

  run-KeepsJournal :
      (hash : B256) (body : TxBody) (from : Address) (env : TxEnv) (price : ℕ) (now : Timestamp)
      (s : ChainState Db)
      → KeepsJournal s (execute_and_mine ext hash body from env price now s).0
  run-KeepsJournal hash body from env price now s =
      let run = execute_and_mine ext hash body from env price now s in
      record {
        same_filed = run_filed hash body from env price now s;
        linked = λ l. elim (outcome run.1) [
          | value answer e ↦
              (execute_and_mine-IsMined ext hash answer body from env price now s run.0 l
                (ap (λ m. (run.0, m)) e)).1.linked
          | error e eq ↦
              rw
                ((execute_and_mine_refused ext hash body from env price now s run.0 e
                  (ap (λ m. (run.0, m)) eq)).same_blocks)
                l
        ];
      }

  pub send_raw-KeepsJournal :
      (raw : Bytes) (now : Timestamp) (s : ChainState Db)
      → KeepsJournal s (send_raw ext raw now s).0
  unfolding send_raw
  send_raw-KeepsJournal raw now s = elim (outcome (decode_signed ext raw)) [
    | error e eq ↦ rw (eq, send_raw) (untouched-KeepsJournal s)
    | value d eq ↦ rw (eq, send_raw) (run-KeepsJournal _ _ _ _ _ now s)
  ]

  pub send_unsigned-KeepsJournal :
      (tx : UnsignedTx) (now : Timestamp) (s : ChainState Db)
      → KeepsJournal s (send_unsigned ext tx now s).0
  unfolding send_unsigned
  send_unsigned-KeepsJournal tx now s =
      either-KeepsJournal
        (not (holds_key_for s tx.from) && not (any (λ a. a == tx.from) s.impersonated)) _ _ s
        (untouched-KeepsJournal s) (built (ext.build _))
    where
      built :
          (m : Result Bytes TxEnv)
          → (let mined : ChainState Db × Result Error B256 = elim m [
            | err e ↦ (s, err (rejected (Rejected.other e)))
            | ok env ↦
                execute_and_mine ext
                  (unsigned_hash ext tx s)
                  (unsigned tx)
                  tx.from
                  env
                  tx.gas_price
                  now
                  s
          ] in
              KeepsJournal s mined.0)
      built (err e) = untouched-KeepsJournal s
      built (ok env) =
          run-KeepsJournal (unsigned_hash ext tx s) (unsigned tx) tx.from env tx.gas_price now s
