-- ===== src/Chain/Execution/Mining.antt =====
-- What an EVM transaction does to the blocks of the chain.
use hanvil.Prelude.{
  ℕ, ◌+◌, ◌≤◌, ◌≡◌, ◌≢◌, refl, ◌∙◌, ap, sym, true, false, List, [], ◌∷◌, arith, length, is_some,
  ltb, Bool-cases, inl, inr, subst,
}
use hanvil.Prelude.Result.{Result, ok, err}
use hanvil.Prelude.Eq.{nat_eq}
use hanvil.Maps.HashMap
use hanvil.Units.{Tinybar, Address}
use hanvil.Time.{Timestamp}
use hanvil.Blocks.{B256, TxBody, TxRecord}
use hanvil.Records.{Rejection}
use hanvil.Evm.{Externals, BlockInput, Rejected, TxEnv, Touched, Executed, gas_limit_too_high}
use hanvil.Chain.{
  ChainState, Error, rejected, block_gas_limit, block_number, latest_block, transaction,
  insert_account, allocate_id,
}
use hanvil.Chain.Clock.{next_block_timestamp, next_consensus}
use hanvil.Chain.Clock.Order.{next_block_timestamp_rises}
use hanvil.Chain.Seal.{seal_block, insert_txs, fill_records}
use hanvil.Chain.Seal.Links.{IsLinked, seal_block-IsLinked}
use hanvil.Chain.Execution.{
  Fresh, read_back, read_all, add_contracts, add_hollows, sync_db_into_accounts,
  credit_burned_base_fee, sync_accounts_into_db, unsealed, run_next, settle_run, finish,
  execute_and_mine,
}

ok_eq : (a b : B256) → (let m : Result Error B256 = ok a in m ≡ ok b) → a ≡ b
ok_eq a b h = cc

never_ok : (e : Error) (a : B256) → (let m : Result Error B256 = err e in m ≢ ok a)
never_ok e a h = cc

module _ {Db : Type 0} where
  -- What a run leaves: one more block, of one transaction, and its record.
  pub record IsMined (s s' : ChainState Db) (hash : B256) : Type 0 where
    pub linked : IsLinked s'
    pub one_block : length s'.blocks ≡ length s.blocks + 1
    pub in_head : (latest_block s').transactions ≡ hash ∷ []
    pub recorded : is_some (transaction s' hash) ≡ true

  -- The refusals kept, with their counters.
  abbrev pub refusals : ChainState Db → List Rejection × ℕ × ℕ
  refusals s = (s.rejections, s.rejections_dropped, s.max_rejections)

  -- The parts of the state that a refusal leaves.
  pub record Untouched (s s' : ChainState Db) : Type 0 where
    pub same_accounts : s'.accounts ≡ s.accounts
    pub same_next_id : s'.next_id ≡ s.next_id
    pub same_blocks : s'.blocks ≡ s.blocks
    pub same_txs : s'.txs ≡ s.txs
    pub same_records : s'.hapi_records ≡ s.hapi_records
    pub same_refusals : refusals s' ≡ refusals s

  read_back_blocks :
      (t : Touched) (s : ChainState Db) (fresh : Fresh) → (read_back t s fresh).0.blocks ≡ s.blocks
  unfolding read_back
  read_back_blocks t s fresh = ground arith

  -- Reading accounts back leaves the blocks alone.
  read_all_blocks :
      (ts : List Touched) (s : ChainState Db) (fresh : Fresh)
      → (read_all ts s fresh).0.blocks ≡ s.blocks
  unfolding read_all
  read_all_blocks [] s fresh = refl
  read_all_blocks (t ∷ ts) s fresh =
      read_all_blocks ts (read_back t s fresh).0 (read_back t s fresh).1
      ∙ read_back_blocks t s fresh

  add_contracts_blocks :
      (block : ℕ) (l : List Address) (s : ChainState Db)
      → (add_contracts block l s).blocks ≡ s.blocks
  unfolding add_contracts allocate_id
  add_contracts_blocks block [] s = refl
  add_contracts_blocks block (a ∷ l) s = add_contracts_blocks block l _

  add_hollows_blocks :
      (at : Timestamp) (l : List (Address × Tinybar)) (s : ChainState Db)
      → (add_hollows at l s).blocks ≡ s.blocks
  unfolding add_hollows allocate_id insert_account
  add_hollows_blocks at [] s = refl
  add_hollows_blocks at ((a, b) ∷ l) s = add_hollows_blocks at l _

  sync_blocks :
      (state : List Touched) (at : Timestamp) (s : ChainState Db)
      → (sync_db_into_accounts state at s).blocks ≡ s.blocks
  unfolding sync_db_into_accounts
  sync_blocks state at s =
      let (s1, (contracts, hollows)) = read_all state s ([], []) in
      add_hollows_blocks at hollows (add_contracts (block_number s + 1) contracts s1)
      ∙ (add_contracts_blocks (block_number s + 1) contracts s1 ∙ read_all_blocks state s ([], []))

  burned_blocks : (gas : ℕ) (s : ChainState Db) → (credit_burned_base_fee gas s).blocks ≡ s.blocks
  unfolding credit_burned_base_fee
  burned_blocks gas s = ground arith

module _ {Db : Type 0} (ext : Externals Db) where
  seal_block-recorded :
      (timestamp : ℕ) (consensus : Timestamp) (r : TxRecord) (s : ChainState Db)
      → is_some (transaction (seal_block ext timestamp consensus (r ∷ []) s) r.hash) ≡ true
  unfolding seal_block insert_txs fill_records
  seal_block-recorded timestamp consensus r s = ap is_some (HashMap.get-insert_self r.hash _ s.txs)

  seal_block-IsMined :
      (timestamp : ℕ) (consensus : Timestamp) (r : TxRecord) (s s3 : ChainState Db)
      → s3.blocks ≡ s.blocks
      → IsLinked s
      → (latest_block s).timestamp ≤ timestamp
      → IsMined s (seal_block ext timestamp consensus (r ∷ []) s3) r.hash
  seal_block-IsMined timestamp consensus r s s3 same linked late =
      let (linked', one, time, consensus_time, in_head) =
        seal_block-IsLinked ext timestamp consensus (r ∷ []) s3 (rw same linked) (rw same late) in
      record {
        linked = linked';
        one_block = one ∙ ap (λ l. length l + 1) same;
        in_head = in_head;
        recorded = seal_block-recorded timestamp consensus r s3;
      }

  finish-IsMined :
      (hash : B256) (body : TxBody) (from : Address) (price timestamp : ℕ) (consensus : Timestamp)
      (number : ℕ) (executed : Executed) (s0 s : ChainState Db)
      → s.blocks ≡ s0.blocks
      → IsLinked s0
      → (latest_block s0).timestamp ≤ timestamp
      → IsMined s0 (finish ext hash body from price timestamp consensus number executed s) hash
  unfolding finish
  finish-IsMined hash body from price timestamp consensus number executed s0 s same linked late =
      let s1 = sync_db_into_accounts executed.state consensus s in
      let s2 : ChainState Db = record s1 { db = ext.commit executed.state s1.db } in
      seal_block-IsMined timestamp consensus
        (unsealed ext hash body from price consensus number executed) s0
        (credit_burned_base_fee executed.result.gas_used s2)
        (burned_blocks executed.result.gas_used s2
          ∙ (sync_blocks executed.state consensus s ∙ same))
        linked late

  clock-Untouched :
      (now : Timestamp) (s : ChainState Db) → Untouched s (next_block_timestamp now s).1
  unfolding next_block_timestamp
  clock-Untouched now s = record {
    same_accounts = ground arith;
    same_next_id = ground arith;
    same_blocks = ground arith;
    same_txs = ground arith;
    same_records = ground arith;
    same_refusals = ground arith;
  }

  run_next-Untouched :
      (env : TxEnv) (now : Timestamp) (s : ChainState Db) → Untouched s (run_next ext env now s).1
  unfolding next_consensus sync_accounts_into_db
  run_next-Untouched env now s =
      let u = clock-Untouched now s in
      record {
        same_accounts = u.same_accounts;
        same_next_id = u.same_next_id;
        same_blocks = u.same_blocks;
        same_txs = u.same_txs;
        same_records = u.same_records;
        same_refusals = u.same_refusals;
      }

  over_limit :
      (hash : B256) (body : TxBody) (from : Address) (env : TxEnv) (price : ℕ) (now : Timestamp)
      (s : ChainState Db)
      → ltb block_gas_limit env.gas_limit ≡ true
      → execute_and_mine ext hash body from env price now s
        ≡ (s, err (rejected (gas_limit_too_high env.gas_limit block_gas_limit)))
  unfolding execute_and_mine
  over_limit hash body from env price now s h = rw (h, execute_and_mine) refl

  within_limit :
      (hash : B256) (body : TxBody) (from : Address) (env : TxEnv) (price : ℕ) (now : Timestamp)
      (s : ChainState Db)
      → ltb block_gas_limit env.gas_limit ≡ false
      → execute_and_mine ext hash body from env price now s
        ≡ settle_run ext hash body from price
            (run_next ext env now s).0
            (run_next ext env now s).1
            (run_next ext env now s).2
  unfolding execute_and_mine
  within_limit hash body from env price now s h = rw (h, execute_and_mine) refl

  settled_refused :
      (hash : B256) (body : TxBody) (from : Address) (price : ℕ)
      (times : ℕ × Timestamp × BlockInput) (s s' : ChainState Db) (m : Result Rejected Executed)
      (e : Error)
      → settle_run ext hash body from price times s m ≡ (s', err e)
      → s ≡ s'
  settled_refused hash body from price times s s' (err r) e h = ap (λ x. x.0) h
  settled_refused hash body from price times s s' (ok executed) e h = cc

  -- A transaction that is refused, by the block gas limit or by revm, leaves the accounts, the id
  -- counter, the blocks, the transactions, the HAPI records and the refusals kept as they were.
  pub execute_and_mine_refused :
      (hash : B256) (body : TxBody) (from : Address) (env : TxEnv) (price : ℕ) (now : Timestamp)
      (s s' : ChainState Db) (e : Error)
      → execute_and_mine ext hash body from env price now s ≡ (s', err e)
      → Untouched s s'
  execute_and_mine_refused hash body from env price now s s' e h =
      elim (Bool-cases (ltb block_gas_limit env.gas_limit)) [
        | inl over ↦
            subst (Untouched s)
              (ap (λ x. x.0) (sym (over_limit hash body from env price now s over) ∙ h))
              (record {
                same_accounts = refl;
                same_next_id = refl;
                same_blocks = refl;
                same_txs = refl;
                same_records = refl;
                same_refusals = refl;
              })
        | inr fits ↦
            subst (Untouched s)
              (settled_refused hash body from price (run_next ext env now s).0
                (run_next ext env now s).1 s' (run_next ext env now s).2 e
                (sym (within_limit hash body from env price now s fits) ∙ h))
              (run_next-Untouched env now s)
      ]

  settled-IsMined :
      (hash answer : B256) (body : TxBody) (from : Address) (price : ℕ)
      (times : ℕ × Timestamp × BlockInput) (s0 s s' : ChainState Db) (m : Result Rejected Executed)
      → s.blocks ≡ s0.blocks
      → IsLinked s0
      → (latest_block s0).timestamp ≤ times.0
      → settle_run ext hash body from price times s m ≡ (s', ok answer)
      → (answer ≡ hash) × IsMined s0 s' hash
  settled-IsMined hash answer body from price times s0 s s' (err r) same linked late h = cc
  settled-IsMined hash answer body from price times s0 s s' (ok executed) same linked late h = (
    ok_eq answer hash (ap (λ x. x.1) (sym h)),
    subst (λ x. IsMined s0 x hash) (ap (λ x. x.0) h)
        (finish-IsMined hash body from price times.0 times.1 times.2.number executed s0 s same
          linked late),
  )

  -- A transaction that is mined on a linked chain is answered with its own hash, and adds one block
  -- that is linked to the others, holds that transaction alone, and from which its record is found.
  pub execute_and_mine-IsMined :
      (hash answer : B256) (body : TxBody) (from : Address) (env : TxEnv) (price : ℕ)
      (now : Timestamp) (s s' : ChainState Db)
      → IsLinked s
      → execute_and_mine ext hash body from env price now s ≡ (s', ok answer)
      → (answer ≡ hash) × IsMined s s' hash
  execute_and_mine-IsMined hash answer body from env price now s s' linked h =
      elim (Bool-cases (ltb block_gas_limit env.gas_limit)) [
        | inl over ↦ absurd (
            never_ok _ answer
              (ap (λ x. x.1) (sym (over_limit hash body from env price now s over) ∙ h)))
        | inr fits ↦
            settled-IsMined hash answer body from price (run_next ext env now s).0 s
              (run_next ext env now s).1 s' (run_next ext env now s).2
              (run_next-Untouched env now s).same_blocks linked (next_block_timestamp_rises now s).0
              (sym (within_limit hash body from env price now s fits) ∙ h)
      ]
