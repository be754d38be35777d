-- ===== src/Chain/Genesis/Reindex.antt =====
-- The index of the records after a restart.
use hanvil.Prelude.{ℕ, ◌+◌, ◌≡◌, ◌∙◌, ap, List, [], ◌∷◌, ◌++◌, arith, length}
use hanvil.Prelude.Eq.{nat_eq}
use hanvil.Maps.HashMap
use hanvil.Maps.HashMap.{HashMap}
use hanvil.Records.{TxId, tx_id_has_eq, Record}
use hanvil.Chain.{ChainState}
use hanvil.Chain.Apply.{file_record}
use hanvil.Chain.Genesis.{index_records, reindex}

pub index_records-append :
    (n : ℕ) (rs : List Record) (r : Record) (index : HashMap TxId ℕ)
    → index_records n (rs ++ r ∷ []) index
      ≡ HashMap.insert r.id (n + length rs) (index_records n rs index)
unfolding index_records
index_records-append n [] r index = ap (λ m. HashMap.insert r.id m index) (omega arith)
index_records-append n (q ∷ rs) r index =
    index_records-append (n + 1) rs r (HashMap.insert q.id n index)
    ∙ ap (λ m. HashMap.insert r.id m (index_records (n + 1) rs (HashMap.insert q.id n index)))
        (omega arith)

module _ {Db : Type 0} where
  -- Rebuilding the index after a record is filed gives what filing the record in the rebuilt
  -- chain gives: the index holds nothing that the records do not say.
  pub reindex-file_record :
      (r : Record) (s : ChainState Db) → reindex (file_record r s) ≡ file_record r (reindex s)
  unfolding reindex file_record
  reindex-file_record r s =
      ap (λ m. record s { hapi_by_id = m; hapi_records = s.hapi_records ++ r ∷ [] })
        (index_records-append 0 s.hapi_records r []
          ∙ ap (λ k. HashMap.insert r.id k (index_records 0 s.hapi_records [])) (omega arith))
