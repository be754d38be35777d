-- ===== src/Chain/Filters.antt =====
-- Logs and polled filters, of src/state/mod.rs.
pub mod Polling
use hanvil.Prelude.{
  ℕ, zero, suc, ◌+◌, ◌-◌, Bool, none, some, List, [], ◌∷◌, map, is_some, filter_map, flat_map, keep,
  ltb, if◌then◌else◌,
}
use hanvil.Prelude.Result.{Result, ok, err}
use hanvil.Prelude.Eq.{nat_eq}
use hanvil.Word.{add_u64}
use hanvil.Maps.BTreeMap
use hanvil.Maps.HashMap
use hanvil.Blocks.{Block, StoredLog, TxRecord, LogFilter, Filter, FilterChanges, matches}
use hanvil.Chain.{
  ChainState, Error, no_such_filter, not_a_log_filter, block_number, block_by_number,
}

abbrev pub smaller : ℕ → ℕ → ℕ
smaller a b = if ltb a b then a else b

abbrev pub count_from : ℕ → ℕ → List ℕ
count_from a zero = []
count_from a (suc n) = a ∷ count_from (a + 1) n

-- `a..=b`
abbrev pub range_inclusive : ℕ → ℕ → List ℕ
range_inclusive a b = count_from a (b + 1 - a)

-- The filter with its cursor behind the head.
unfoldable pub advanced : Filter → ℕ → Filter
advanced (Filter.logs query next_block) head = Filter.logs query (head + 1)
advanced (Filter.blocks next_block) head = Filter.blocks (head + 1)

module _ {Db : Type 0} where
  -- Logs in the range that match, in block and log order.
  unfoldable pub logs : LogFilter → ChainState Db → List StoredLog
  unfolding matches
  logs f s = keep (matches f) (
      flat_map (λ (tx : TxRecord). tx.receipt.logs)
        (filter_map (λ h. HashMap.get h s.txs)
          (flat_map (λ (b : Block). b.transactions)
            (filter_map (block_by_number s)
              (range_inclusive f.from_block (smaller f.to_block (block_number s)))))))

  unfoldable pub install : Filter → ChainState Db → ℕ × ChainState Db
  unfolding add_u64
  install f s =
      let id = add_u64 s.next_filter 1 in
      (id, record s { next_filter = id; filters = BTreeMap.insert id f s.filters })

  unfoldable pub install_log_filter : LogFilter → ChainState Db → ℕ × ChainState Db
  unfolding install
  install_log_filter query s = install (Filter.logs query query.from_block) s

  unfoldable pub install_block_filter : ChainState Db → ℕ × ChainState Db
  unfolding install
  install_block_filter s = install (Filter.blocks (block_number s + 1)) s

  unfoldable pub uninstall_filter : ℕ → ChainState Db → Bool × ChainState Db
  uninstall_filter id s =
      (is_some (BTreeMap.get id s.filters), record s { filters = BTreeMap.remove id s.filters })

  -- What a poll of a filter finds.
  unfoldable pub changes_of : Filter → ChainState Db → FilterChanges
  unfolding logs
  changes_of (Filter.logs query next_block) s = FilterChanges.logs (
      logs
        (record query {
          from_block = next_block;
          to_block = smaller query.to_block (block_number s);
        })
        s)
  changes_of (Filter.blocks next_block) s = FilterChanges.blocks (
      map (λ (b : Block). b.hash)
        (filter_map (block_by_number s) (range_inclusive next_block (block_number s))))

  unfoldable pub filter_changes : ℕ → ChainState Db → Result Error (FilterChanges × ChainState Db)
  unfolding changes_of advanced
  filter_changes id s = elim (BTreeMap.get id s.filters) [
    | none ↦ err (no_such_filter id)
    | some f ↦ ok (
      changes_of f s,
      record s { filters = BTreeMap.insert id (advanced f (block_number s)) s.filters },
    )
  ]

  abbrev logs_of : ℕ → Filter → ChainState Db → Result Error (List StoredLog)
  logs_of id (Filter.logs query next_block) s = ok (logs query s)
  logs_of id (Filter.blocks next_block) s = err (not_a_log_filter id)

  unfoldable pub filter_logs : ℕ → ChainState Db → Result Error (List StoredLog)
  unfolding logs
  filter_logs id s = elim (BTreeMap.get id s.filters) [
    | none ↦ err (no_such_filter id)
    | some f ↦ logs_of id f s
  ]
