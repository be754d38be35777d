-- ===== src/Harness/Ledger/Counts.antt =====
-- The numbers of a ledger, and its order.
use hanvil.Prelude.{
  ℕ, zero, suc, ◌+◌, ◌-◌, ◌/◌, ◌%◌, ap, Bool-cases, inl, inr, ◌≤◌, ◌<◌, ◌≡◌, refl, ◌∙◌, subst,
  arith, List, [], ◌∷◌, ◌++◌, map, Bytes, length, drop, keep, length-drop, not, flat_map, ◌==◌,
  if◌then◌else◌,
}
use hanvil.Prelude.Result.{ok, >>=-eq-ok, ok_eq}
use hanvil.Word.{u64_mod, to_i64, add_u64, saturating_sub}
use hanvil.Units.{Address}
use hanvil.Blocks.{Block, TxRecord}
use hanvil.Records.{Record, Rejection}
use hanvil.Chain.{ChainState}
use hanvil.Chain.Refusals.{rejections_seen}
use hanvil.Harness.Ledger.Tells.{
  AreRows, IsOfRecord, IsOfRefusal, IsOfMined, mined_from, RisesFrom, record_row-AreRows,
  rejection_row-AreRows, evm_rows-AreRows, sort_rows-RisesFrom, sort_rows_perm,
}
use mathlib.Core.List.{Perm}
use hanvil.Harness.Ledger.{
  Mark, Entry, Row, success, failed, record_row, insert_row, sort_rows, number_rows, origin_of,
  entries_of, is_rejected, is_failed, counts, mark_of, evm_rows, rejection_row, since,
}

-- How many rows are refusals.
refusals : List Row → ℕ
refusals [] = 0
refusals (row ∷ rows) = (if is_rejected row.1 then 1 else 0) + refusals rows

-- The entries of some rows: each is its row's, with its number, from `n + 1` on, and the whole
-- milliseconds from `origin` to its instant.
abbrev pub AreLaidOut : ℕ → ℕ → List Row → List Entry → Type 0
AreLaidOut n origin [] [] = Unit {0}
AreLaidOut n origin [] (e ∷ entries) = ⊥
AreLaidOut n origin (row ∷ rows) [] = ⊥
AreLaidOut n origin (row ∷ rows) (e ∷ entries) =
    (e
      ≡ record row.1 { index = n + 1; at_millis = to_i64 ((row.0 - origin) / 1_000_000 % u64_mod) })
    × AreLaidOut (n + 1) origin rows entries

insert_row_size :
    (x : Row) (rows : List Row)
    → (length (insert_row x rows) ≡ length rows + 1)
      × (refusals (insert_row x rows) ≡ refusals (x ∷ rows))
unfolding insert_row refusals
insert_row_size x [] = (omega arith, refl)
insert_row_size x (y ∷ ys) = ground (arith, insert_row_size x ys)

sort_rows_size :
    (rows : List Row)
    → (length (sort_rows rows) ≡ length rows) × (refusals (sort_rows rows) ≡ refusals rows)
unfolding sort_rows refusals
sort_rows_size [] = (refl, refl)
sort_rows_size (x ∷ xs) =
    let (len, sum) = sort_rows_size xs in
    let (len', sum') = insert_row_size x (sort_rows xs) in
    (omega (arith, len, len'), omega (arith, sum, sum'))

number_rows_size :
    (n origin : ℕ) (rows : List Row)
    → (length (number_rows n origin rows) ≡ length rows)
      × (length (keep is_rejected (number_rows n origin rows)) ≡ refusals rows)
unfolding number_rows refusals
number_rows_size n origin [] = (refl, refl)
number_rows_size n origin (row ∷ rows) = ground (arith, number_rows_size (n + 1) origin rows)

number_rows-AreLaidOut :
    (n origin : ℕ) (rows : List Row)
    → n + length rows < u64_mod
    → AreLaidOut n origin rows (number_rows n origin rows)
unfolding number_rows add_u64
number_rows-AreLaidOut n origin [] h = tt
number_rows-AreLaidOut n origin ((key, e) ∷ rows) h =
    let fits : (n + 1) % u64_mod ≡ n + 1 = omega arith in
    (
      ap (λ i. record e { index = i; at_millis = to_i64 ((key - origin) / 1_000_000 % u64_mod) })
          fits,
      number_rows-AreLaidOut (n + 1) origin rows (omega arith),
    )

-- An entry has one outcome.
counts_sum :
    (es : List Entry) → length (keep is_rejected es) + length (keep is_failed es) ≤ length es
counts_sum [] = omega arith
counts_sum (e ∷ es) = ground (arith, counts_sum es)

refusals-append : (xs ys : List Row) → refusals (xs ++ ys) ≡ refusals xs + refusals ys
unfolding refusals
refusals-append [] ys = omega arith
refusals-append (x ∷ xs) ys = omega (arith, refusals-append xs ys)

no_refusals : (rs : List Record) → refusals (map record_row rs) ≡ 0
unfolding refusals record_row
no_refusals [] = refl
no_refusals (r ∷ rs) = ground (arith, no_refusals rs)

length-map : {A B : Type 0} (f : A → B) (xs : List A) → length (map f xs) ≡ length xs
length-map f [] = refl
length-map f (x ∷ xs) = omega (arith, length-map f xs)

-- The entries of some rows.
entries_of_lem :
    (rows : List Row)
    → (length (entries_of rows) ≡ length rows)
      × ((counts (entries_of rows)).rejected ≡ refusals rows)
unfolding entries_of counts
entries_of_lem rows =
    let sorted = sort_rows rows in
    let (len, sum) = sort_rows_size rows in
    let (len', sum') = number_rows_size 0 (origin_of sorted) sorted in (len' ∙ len, sum' ∙ sum)

counts_total :
    (es : List Entry)
    → (counts es).succeeded + (counts es).failed + (counts es).rejected ≡ length es
unfolding counts
counts_total es = omega (arith, counts_sum es)

drop_all : {A : Type 0} (n : ℕ) (xs : List A) → length xs ≤ n → drop n xs ≡ []
drop_all zero [] h = refl
drop_all zero (x ∷ xs) h = absurd (omega arith)
drop_all (suc n) [] h = refl
drop_all (suc n) (x ∷ xs) h = drop_all n xs (omega arith)

module _ {Db : Type 0} (from_utf8_lossy : Bytes → Bytes) (show_address : Address → Bytes) where
  all_refusals :
      (s : ChainState Db) (rs : List Rejection)
      → refusals (map (rejection_row from_utf8_lossy show_address s) rs) ≡ length rs
  unfolding refusals rejection_row
  all_refusals s [] = refl
  all_refusals s (r ∷ rs) = omega (arith, all_refusals s rs)

  -- A row of a mined transaction is no refusal.
  refusals-mined :
      (s : ChainState Db) (txs : List TxRecord) (rows : List Row)
      → AreRows (IsOfMined from_utf8_lossy show_address s) txs rows
      → refusals rows ≡ 0
  unfolding refusals
  refusals-mined s [] [] h = refl
  refusals-mined s [] (row ∷ rows) h = absurd h
  refusals-mined s (tx ∷ txs) [] h = absurd h
  refusals-mined s (tx ∷ txs) (row ∷ rows) (of, later) =
      let rest = refusals-mined s txs rows later in
      elim (Bool-cases tx.receipt.success) [
        | inl well ↦
            (let done : row.1.outcome ≡ success = of.outcome ∙ rw well refl in rw (done, rest) refl)
        | inr ill ↦
            (let done : row.1.outcome ≡ failed = of.outcome ∙ rw ill refl in rw (done, rest) refl)
      ]

  -- What a ledger since a mark is known to be: the rows for the records, those for the Ethereum
  -- transactions of the blocks that came over JSON-RPC, and those for the refusals, put in order.
  pub record IsLedger (s : ChainState Db) (mark : Mark) (entries : List Entry) : Type 0 where
    pub adds_up :
        (counts entries).succeeded + (counts entries).failed + (counts entries).rejected
        ≡ length entries
    pub refused :
        (counts entries).rejected ≡ length s.rejections - (mark.rejections - s.rejections_dropped)
    pub heard : List Row
    pub mined : List Row
    pub turned : List Row
    pub rows : List Row
    pub of_records : AreRows IsOfRecord (drop mark.records s.hapi_records) heard
    pub of_blocks :
        AreRows
          (IsOfMined from_utf8_lossy show_address s)
          (mined_from from_utf8_lossy show_address s
            (keep
              (λ hash. not (length hash == 0))
              (map (λ (r : Record). r.ethereum_hash) (drop mark.records s.hapi_records)))
            (flat_map (λ (b : Block). b.transactions) (drop mark.blocks s.blocks)))
          mined
    pub of_refusals :
        AreRows
          (IsOfRefusal from_utf8_lossy show_address s)
          (drop (mark.rejections - s.rejections_dropped) s.rejections)
          turned
    pub shuffled : Perm rows (heard ++ (mined ++ turned))
    pub in_order : RisesFrom 0 rows
    pub laid_out : AreLaidOut 0 (origin_of rows) rows entries

  -- A ledger that can be written, of fewer than 2^64 entries, has one row for each HAPI record since
  -- the mark, one for each Ethereum transaction of the blocks since the mark that did not come over
  -- HAPI, and one for each refusal since the mark that is still kept, and no others. Each row has the
  -- instant, kind, payer, outcome, result and fee of what it stands for. The rows stand in the
  -- order of their instants, to the nanosecond, and the entries are numbered from 1 and timed in
  -- milliseconds from the first one. The ledger's numbers add up, and its refusals are the kept
  -- ones.
  pub since-IsLedger :
      (s : ChainState Db) (mark : Mark) (entries : List Entry)
      → since from_utf8_lossy show_address s mark ≡ ok entries
      → length entries < u64_mod
      → IsLedger s mark entries
  unfolding since entries_of
  since-IsLedger s mark entries h room =
      let records = drop mark.records s.hapi_records in
      let over =
        keep (λ hash. not (length hash == 0)) (map (λ (r : Record). r.ethereum_hash) records) in
      let hashes = flat_map (λ (b : Block). b.transactions) (drop mark.blocks s.blocks) in
      let refused = drop (saturating_sub mark.rejections s.rejections_dropped) s.rejections in
      let (evm, e, h1) = >>=-eq-ok (evm_rows from_utf8_lossy show_address s over hashes) _ h in
      let same = ok_eq h1 in
      let of_blocks = evm_rows-AreRows from_utf8_lossy show_address s over hashes evm e in
      let heard = map record_row records in
      let turned = map (rejection_row from_utf8_lossy show_address s) refused in
      let rows = heard ++ (evm ++ turned) in
      let (len, sum) = entries_of_lem rows in
      let fits : length (sort_rows rows) < u64_mod =
        omega (arith, sort_rows_size rows, len, ap length same, room) in
      subst (IsLedger s mark) same (record {
        adds_up = counts_total (entries_of rows);
        refused = omega (
          arith,
          sum,
          refusals-append heard (evm ++ turned),
          refusals-append evm turned,
          no_refusals records,
          refusals-mined s _ evm of_blocks,
          all_refusals s refused,
          length-drop (saturating_sub mark.rejections s.rejections_dropped) s.rejections,
        );
        heard = heard;
        mined = evm;
        turned = turned;
        rows = sort_rows rows;
        of_records = record_row-AreRows records;
        of_blocks = of_blocks;
        of_refusals = rejection_row-AreRows from_utf8_lossy show_address s refused;
        shuffled = sort_rows_perm rows;
        in_order = sort_rows-RisesFrom rows;
        laid_out =
            number_rows-AreLaidOut 0 (origin_of (sort_rows rows)) (sort_rows rows)
              (omega (arith, fits));
      })

  -- Right after a mark is taken, the ledger since it is empty.
  since-mark_of :
      (s : ChainState Db)
      → s.rejections_dropped + length s.rejections < u64_mod
      → since from_utf8_lossy show_address s (mark_of s) ≡ ok []
  unfolding since mark_of rejections_seen add_u64
  since-mark_of s room =
      rw
        (
          drop_all (length s.hapi_records) s.hapi_records (omega arith),
          drop_all (length s.blocks) s.blocks (omega arith),
          drop_all ((s.rejections_dropped + length s.rejections) % u64_mod - s.rejections_dropped)
              s.rejections (omega arith),
        )
        (unfold evm_rows entries_of in refl)
