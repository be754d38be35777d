-- ===== src/History/Journal.antt =====
-- The records and the blocks of a node, whatever it is asked to do.
use hanvil.Prelude.{
  ℕ, ◌+◌, ◌≡◌, refl, ◌∙◌, sym, ap, subst, Bool, false, none, List, [], ◌∷◌, ◌++◌, Bytes, ◌≤◌,
  last_or, arith, length, All, is_some,
}
use hanvil.Prelude.Result.{outcome, value, error}
use hanvil.Maps.HashMap
use hanvil.Maps.HashMap.{HashMap}
use hanvil.Time.{Timestamp}
use hanvil.Records.{TxId, tx_id_eq, tx_id_has_eq, Record, Transaction, Rejection}
use hanvil.Evm.{Externals, execute}
use hanvil.Chain.{ChainState, no_block, has_transaction_id}
use hanvil.Chain.Seal.Links.{IsLinked, LinkedFromGenesis, seal_block-IsLinked}
use hanvil.Chain.Clock.Order.{next_block_timestamp_rises}
use hanvil.Chain.Apply.{file_record, apply_hapi}
use hanvil.Chain.Refusals.{reject}
use hanvil.Chain.Genesis.{index_records, reindex}
use hanvil.Chain.Genesis.Reindex.{index_records-append}
use hanvil.Chain.Clock.{next_block_timestamp, next_consensus}
use hanvil.Chain.Seal.{mine_empty, seal_block}
use hanvil.Chain.Journal.{journal, clock_journal, KeepsJournal, same-KeepsJournal}
use hanvil.Chain.Journal.Bodies.{apply_hapi-Filing}
use hanvil.Wire.Proto.{Protobuf, Envelope}
use hanvil.Wire.Signatures.{Curves}
use hanvil.Wire.Precheck.{precheck, submit}
use hanvil.Wire.Precheck.Gate.{precheck-IsAccepted}
use hanvil.Units.{Address, Tinybar}
use hanvil.Chain.{insert_account, allocate_id}
use hanvil.Chain.Cheats.{set_balance, set_code, set_nonce, set_storage, impersonate}
use hanvil.Chain.Clock.{set_next_timestamp}
use hanvil.Chain.Cheats.{stop_impersonating}
use hanvil.Chain.Clock.{increase_time}
use hanvil.Chain.Calls.{call}
use hanvil.Chain.Execution.{sync_accounts_into_db}
use hanvil.Chain.Filters.{
  filter_changes, install_log_filter, install_block_filter, uninstall_filter,
}
use hanvil.Chain.Journal.Runs.{send_raw-KeepsJournal, send_unsigned-KeepsJournal}
use hanvil.Chain.{Chain}
use hanvil.Chain.Snapshots.Copies.{EachHolds}
use hanvil.History.Commands.{serve_all-EachHolds, always-AreAllowed}
use hanvil.History.{
  submitted, raw_sent, unsigned_sent, mined, time_increased, next_timestamp_set, balance_set,
  code_set, nonce_set, storage_set, impersonated, no_longer_impersonated, log_filter_installed,
  block_filter_installed, filter_uninstalled, restarted, filter_polled, called, rpc_refused,
  polled_or, kept_or, Request, Command, serve, serve_all,
}

-- No two records have one id.
abbrev pub AreDistinct : List Record → Type 0
AreDistinct [] = Unit {0}
AreDistinct (r ∷ rest) = All (λ (q : Record). tx_id_eq r.id q.id ≡ false) rest × AreDistinct rest

All-end :
    (P : Record → Type 0) (rs : List Record) (r : Record) → All P rs → P r → All P (rs ++ r ∷ [])
All-end P [] r a p = (p, tt)
All-end P (q ∷ rs) r a p = (a.0, All-end P rs r a.1 p)

AreDistinct-end :
    (rs : List Record) (r : Record)
    → AreDistinct rs
    → All (λ (q : Record). tx_id_eq q.id r.id ≡ false) rs
    → AreDistinct (rs ++ r ∷ [])
AreDistinct-end [] r d a = (tt, tt)
AreDistinct-end (q ∷ rs) r d a =
    (All-end (λ p. tx_id_eq q.id p.id ≡ false) rs r d.0 a.0, AreDistinct-end rs r d.1 a.1)

-- An id that the index does not have is the id of no record.
index_missing :
    (n : ℕ) (rs : List Record) (m : HashMap TxId ℕ) (j : TxId)
    → HashMap.get j (index_records n rs m) ≡ none
    → (HashMap.get j m ≡ none) × All (λ (q : Record). tx_id_eq q.id j ≡ false) rs
unfolding index_records
index_missing n [] m j h = (h, tt)
index_missing n (q ∷ rs) m j h =
    let (missing, others) = index_missing (n + 1) rs (HashMap.insert q.id n m) j h in
    (
      ground (arith, HashMap.get-insert q.id n m j, missing),
      (ground (arith, HashMap.get-insert q.id n m j, missing), others),
    )

module _ {Db : Type 0} where
  -- The index is the one that a restart rebuilds, no two records have one id, and the blocks are
  -- linked from genesis.
  pub record IsOrderly (s : ChainState Db) : Type 0 where
    pub indexed : index_records 0 s.hapi_records [] ≡ s.hapi_by_id
    pub distinct : AreDistinct s.hapi_records
    pub linked : IsLinked s

  pub kept-IsOrderly : (s s' : ChainState Db) → KeepsJournal s s' → IsOrderly s → IsOrderly s'
  kept-IsOrderly s s' k v = record {
    indexed =
        subst (λ (f : List Record × HashMap TxId ℕ). index_records 0 f.0 [] ≡ f.1)
          (sym k.same_filed) v.indexed;
    distinct =
        subst (λ (f : List Record × HashMap TxId ℕ). AreDistinct f.0) (sym k.same_filed) v.distinct;
    linked = k.linked v.linked;
  }

  -- The counter of snapshots is no part of it.
  pub renumbered-IsOrderly :
      (n : ℕ) (s : ChainState Db) → IsOrderly s → IsOrderly (record s { next_snapshot = n })
  renumbered-IsOrderly n s v = kept-IsOrderly s _ (same-KeepsJournal s _ refl) v

  reindex-IsOrderly : (s : ChainState Db) → IsOrderly s → IsOrderly (reindex s)
  unfolding reindex
  reindex-IsOrderly s v = record { indexed = refl; distinct = v.distinct; linked = v.linked }

  file_record-IsOrderly :
      (r : Record) (s : ChainState Db)
      → has_transaction_id s r.id ≡ false
      → IsOrderly s
      → IsOrderly (file_record r s)
  unfolding file_record
  file_record-IsOrderly r s new v = record {
    indexed =
        index_records-append 0 s.hapi_records r []
        ∙ (ap (λ n. HashMap.insert r.id n (index_records 0 s.hapi_records [])) (omega arith)
            ∙ ap (HashMap.insert r.id (length s.hapi_records)) v.indexed);
    distinct =
        AreDistinct-end s.hapi_records r v.distinct
          (index_missing 0 s.hapi_records [] r.id (rw v.indexed (ground arith))).1;
    linked = v.linked;
  }

  pub journal-reject : (r : Rejection) (s : ChainState Db) → journal (reject r s) ≡ journal s
  unfolding reject
  journal-reject r s = ground arith

module _ {Db : Type 0} (ext : Externals Db) (proto : Protobuf) (curves : Curves)
    (verify : Bool) where
  apply-IsOrderly :
      (tx : Transaction) (now : Timestamp) (s : ChainState Db)
      → has_transaction_id s tx.id ≡ false
      → IsOrderly s
      → IsOrderly (apply_hapi ext tx now s).1
  apply-IsOrderly tx now s new v =
      let f = apply_hapi-Filing ext tx now s in
      subst IsOrderly (sym f.result) (
        file_record-IsOrderly f.filing f.before
          (ap (λ (m : List Record × HashMap TxId ℕ). is_some (HashMap.get f.filing.id m.1))
              f.keeps.same_filed
            ∙ (ap (has_transaction_id s) f.same_id ∙ new))
          (kept-IsOrderly s f.before f.keeps v))

  submit-IsOrderly :
      (envelope : Envelope) (now : Timestamp) (s : ChainState Db)
      → IsOrderly s
      → IsOrderly (submit ext proto curves s envelope now verify).0
  unfolding submit
  submit-IsOrderly envelope now s v =
      elim (outcome (precheck ext proto curves s envelope now verify)) [
        | value tx e ↦
            rw (e, submit)
              (apply-IsOrderly tx now s
                (precheck-IsAccepted ext proto curves s envelope now verify tx e).new v)
        | error e eq ↦
            rw (eq, submit) (kept-IsOrderly s _ (same-KeepsJournal s _ (journal-reject _ s)) v)
      ]

module _ {Db : Type 0} (ext : Externals Db) where
  pub mine_empty-KeepsJournal :
      (now : Timestamp) (s : ChainState Db) → KeepsJournal s (mine_empty ext now s)
  unfolding mine_empty next_consensus
  mine_empty-KeepsJournal now s =
      let (timestamp, s1) = next_block_timestamp now s in
      let same = clock_journal now s in
      record {
        same_filed = unfold seal_block in ap (λ j. j.1) same;
        linked = λ l.
            (seal_block-IsLinked ext timestamp _ [] _
              (subst LinkedFromGenesis (sym (ap (λ j. j.0) same)) l)
              (subst (λ bs. (last_or no_block bs).timestamp ≤ timestamp) (sym (ap (λ j. j.0) same))
                ((next_block_timestamp_rises now s).0))).0;
      }

  pub journal-set_balance :
      (address : Address) (balance : Tinybar) (now : Timestamp) (s : ChainState Db)
      → journal (set_balance ext address balance now s) ≡ journal s
  unfolding set_balance allocate_id insert_account
  journal-set_balance address balance now s = ground arith

  pub journal-set_code :
      (address : Address) (code : Bytes) (s : ChainState Db)
      → journal (set_code ext address code s) ≡ journal s
  unfolding set_code allocate_id
  journal-set_code address code s = ground arith

  pub journal-set_nonce :
      (address : Address) (nonce : ℕ) (s : ChainState Db)
      → journal (set_nonce ext address nonce s) ≡ journal s
  unfolding set_nonce
  journal-set_nonce address nonce s = ground arith

module _ {Db : Type 0} where
  pub journal-impersonate :
      (address : Address) (s : ChainState Db) → journal (impersonate address s) ≡ journal s
  unfolding impersonate
  journal-impersonate address s = ground arith

  polled_journal :
      (id : ℕ) (s : ChainState Db) → journal (polled_or s (filter_changes id s)) ≡ journal s
  unfolding filter_changes
  polled_journal id s = ground arith

  pub pinned_journal :
      (timestamp : ℕ) (s : ChainState Db)
      → journal (kept_or s (set_next_timestamp timestamp s)) ≡ journal s
  unfolding set_next_timestamp
  pinned_journal timestamp s = ground arith

module _ {Db : Type 0} (ext : Externals Db) (proto : Protobuf) (curves : Curves)
    (verify : Bool) where
  serve-IsOrderly :
      (request : Request) (s : ChainState Db)
      → IsOrderly s
      → IsOrderly (serve ext proto curves verify request s)
  unfolding serve increase_time set_storage stop_impersonating install_log_filter
      install_block_filter uninstall_filter reindex call sync_accounts_into_db execute
  serve-IsOrderly (submitted envelope now) s v =
      submit-IsOrderly ext proto curves verify envelope now s v
  serve-IsOrderly (raw_sent raw now) s v =
      kept-IsOrderly s _ (send_raw-KeepsJournal ext raw now s) v
  serve-IsOrderly (unsigned_sent tx now) s v =
      kept-IsOrderly s _ (send_unsigned-KeepsJournal ext tx now s) v
  serve-IsOrderly (mined now) s v = kept-IsOrderly s _ (mine_empty-KeepsJournal ext now s) v
  serve-IsOrderly (time_increased seconds) s v = kept-IsOrderly s _ (same-KeepsJournal s _ refl) v
  serve-IsOrderly (next_timestamp_set timestamp) s v =
      kept-IsOrderly s _ (same-KeepsJournal s _ (pinned_journal timestamp s)) v
  serve-IsOrderly (balance_set address balance now) s v =
      kept-IsOrderly s _ (same-KeepsJournal s _ (journal-set_balance ext address balance now s)) v
  serve-IsOrderly (code_set address code) s v =
      kept-IsOrderly s _ (same-KeepsJournal s _ (journal-set_code ext address code s)) v
  serve-IsOrderly (nonce_set address nonce) s v =
      kept-IsOrderly s _ (same-KeepsJournal s _ (journal-set_nonce ext address nonce s)) v
  serve-IsOrderly (storage_set address slot word) s v =
      kept-IsOrderly s _ (same-KeepsJournal s _ refl) v
  serve-IsOrderly (impersonated address) s v =
      kept-IsOrderly s _ (same-KeepsJournal s _ (journal-impersonate address s)) v
  serve-IsOrderly (no_longer_impersonated address) s v =
      kept-IsOrderly s _ (same-KeepsJournal s _ refl) v
  serve-IsOrderly (log_filter_installed query) s v =
      kept-IsOrderly s _ (same-KeepsJournal s _ refl) v
  serve-IsOrderly block_filter_installed s v = kept-IsOrderly s _ (same-KeepsJournal s _ refl) v
  serve-IsOrderly (filter_polled id) s v =
      kept-IsOrderly s _ (same-KeepsJournal s _ (polled_journal id s)) v
  serve-IsOrderly (called request now) s v = kept-IsOrderly s _ (same-KeepsJournal s _ refl) v
  serve-IsOrderly (rpc_refused r) s v =
      kept-IsOrderly s _ (same-KeepsJournal s _ (journal-reject r s)) v
  serve-IsOrderly (filter_uninstalled id) s v = kept-IsOrderly s _ (same-KeepsJournal s _ refl) v
  serve-IsOrderly restarted s v = reindex-IsOrderly s v

  -- Through any history of submitted HAPI transactions, sent EVM transactions, empty blocks, cheats
  -- on time, balances, code, nonces and storage, impersonations, installed and removed filters,
  -- restarts, snapshots, reverts, polls, calls and refusals kept for JSON-RPC, whatever becomes of
  -- each: where the state and every snapshot were orderly before, so are the state and every
  -- snapshot after it. That is, no two HAPI records have one transaction id, the index by id is the
  -- one that a restart rebuilds from the records, and the blocks are linked from genesis.
  pub serve_all-IsOrderly :
      (commands : List Command) (c : Chain Db)
      → EachHolds IsOrderly c
      → EachHolds IsOrderly (serve_all ext proto curves verify commands c)
  serve_all-IsOrderly commands c v =
      serve_all-EachHolds ext proto curves verify IsOrderly renumbered-IsOrderly reindex-IsOrderly
        (λ r s. Unit {0}) (λ r s v allowed. serve-IsOrderly r s v) commands c
        (always-AreAllowed ext proto curves verify (λ r s. Unit {0}) (λ r s. tt) commands c) v
