-- ===== src/Tests/Queries.antt =====
-- Ids and query strings of the mirror API.
use hanvil.Prelude.{ℕ, true, false, ◌≡◌, refl, arith, codes, [], ◌∷◌, some}
use hanvil.Prelude.Result.{ok, err}
use hanvil.Time.{at_secs}
use hanvil.Mirror.Params.{
  Operator, Order, parse_timestamp_filter, limit, order, flag, timestamp_matches, timestamps,
  entity_filter, only, page,
}
use hanvil.Mirror.{
  invalid_parameter, unapplied_parameter, transaction_id_text, parse_transaction_id,
}
use hanvil.Mirror.Ids.{parse_transaction_id-transaction_id_text}

parse_transaction_id-transaction_id_text_example :
    parse_transaction_id (transaction_id_text 1002 (at_secs 1_651_560_386 60_890_949))
    ≡ ok (1002, at_secs 1_651_560_386 60_890_949)
parse_transaction_id-transaction_id_text_example =
    parse_transaction_id-transaction_id_text 1002 (at_secs 1_651_560_386 60_890_949) (omega arith)
      (omega arith) (omega arith)

tenth :
    parse_timestamp_filter (codes "gte:5.1")
    ≡ ok (record { operator = Operator.at_least; at = at_secs 5 100_000_000 })
unfolding parse_timestamp_filter
tenth = refl

asked : limit ((codes "limit", codes "100") ∷ []) ≡ ok 100
unfolding limit
asked = refl

filtered :
    entity_filter (codes "account.id") ((codes "account.id", codes "eq:0.1002") ∷ [])
    ≡ ok (some 1002)
unfolding entity_filter
filtered = refl

newest : page {A = ℕ} (1 ∷ 2 ∷ 3 ∷ []) Order.desc 2 ≡ 3 ∷ 2 ∷ []
unfolding page
newest = refl

unfiltered :
    only (codes "limit" ∷ []) ((codes "topic0", []) ∷ [])
    ≡ err (unapplied_parameter (codes "topic0") (codes "limit" ∷ []))
unfolding only
unfiltered = refl

turned : order Order.desc ((codes "order", codes "asc") ∷ []) ≡ ok Order.asc
unfolding order
turned = refl

inner : flag (codes "internal") false ((codes "internal", codes "true") ∷ []) ≡ ok true
unfolding flag
inner = refl

excluded :
    timestamp_matches (record { operator = Operator.less; at = at_secs 5 0 }) (at_secs 5 0) ≡ false
unfolding timestamp_matches
excluded = refl

no_instant :
    timestamps ((codes "timestamp", codes "ge:5") ∷ [])
    ≡ err (invalid_parameter (codes "timestamp"))
unfolding timestamps
no_instant = refl
