-- ===== src/Tests/Attempts.antt =====
-- What the harness does between attempts.
use hanvil.Prelude.{
  ℕ, ◌+◌, ◌≤◌, ◌≡◌, refl, arith, pos, false, not, ◌&&◌, none, some, List, [], ◌∷◌, ◌++◌, map, Bytes,
  codes, length, All,
}
use hanvil.Prelude.Result.{Result, ok, err}
use hanvil.Maps.HashMap
use hanvil.Maps.BTreeMap
use hanvil.Time.{at_secs}
use hanvil.Accounts.{entity_text}
use hanvil.Records.{TxId}
use hanvil.Chain.{ChainState, has_transaction_id}
use hanvil.Chain.Apply.{apply_hapi}
use hanvil.Text.{has}
use hanvil.Harness.Findings.{Finding, Category, Status, compute_delta, apply_status}
use hanvil.Harness.Findings.Lifecycle.{
  ids, AreUnique, compute_delta_lem, IsFixedOf, apply_status_lem,
}
use hanvil.Harness.Verdicts.{balanced_json_objects}
use hanvil.Harness.Verdicts.Braces.{
  Items, nil, cons, other, string, object, itself, escaped, write, balanced_json_objects-object,
}
use hanvil.Harness.Ledger.{Entry, Panic, mark_of, since}
use hanvil.Harness.Ledger.Counts.{IsLedger, since-IsLedger}
use hanvil.Harness.Signer.{operator, parse_entity_id, unique_tx_id}
use hanvil.Harness.Signer.Fresh.{nanos_of, unique_tx_id_fresh}
use hanvil.Harness.Signer.EntityIds.{parse_entity_id-entity_text}
use hanvil.Tests.Samples.{machine, town, payment, overdraft}

abbrev finding : Bytes → Finding
finding id = record {
  id = id;
  category = Category.commands;
  message = [];
  details = none;
  status = none;
  assertion = none;
  route = none;
}

abbrev before : List Bytes
before = codes "a" ∷ codes "b" ∷ []

abbrev found : List Finding
found = finding (codes "b") ∷ finding (codes "c") ∷ finding (codes "c") ∷ []

compute_delta_lem_example :
    (has (codes "a") (compute_delta before found).still_failing ≡ has (codes "a") (ids found))
    × (has (codes "a") (compute_delta before found).closed
        ≡ (has (codes "a") before && not (has (codes "a") (ids found))))
    × (has (codes "a") (compute_delta before found).introduced
        ≡ (has (codes "a") (ids found) && not (has (codes "a") before)))
    × AreUnique (compute_delta before found).still_failing
compute_delta_lem_example = compute_delta_lem before found (codes "a")

abbrev earlier : List Finding
earlier = finding (codes "a") ∷ finding (codes "a") ∷ finding (codes "b") ∷ []

apply_status_lem_example :
    (behind : List Finding) × (apply_status found (compute_delta before found) earlier
      ≡ map (λ (f : Finding). record f { status = some Status.still_open }) found ++ behind)
    × All (IsFixedOf earlier) behind
    × ((id : Bytes)
        → has id (ids behind)
          ≡ (has id (ids earlier) && has id (compute_delta before found).closed))
    × AreUnique (ids behind)
apply_status_lem_example = apply_status_lem found earlier (compute_delta before found)

-- `{"}\"":{x}}`, with prose before it and behind it
abbrev verdict : Items
verdict =
    cons (string (itself 125 refl ∷ escaped 34 ∷ []))
      (cons (other 58 refl) (cons (object (cons (other 120 refl) nil)) nil))

balanced_json_objects-object_example :
    (others : List Bytes) × (balanced_json_objects
        (codes "so: " ++ write (object verdict) (codes "} ok"))
      ≡ write (object verdict) [] ∷ others)
balanced_json_objects-object_example =
    balanced_json_objects-object (codes "so: ") verdict (codes "} ok")
      (refl, (refl, (refl, (refl, tt))))

abbrev lossy : Bytes → Bytes
lossy b = b

abbrev show : ℕ → Bytes
show a = codes "0x"

-- One payment and one that failed.
abbrev worked : ChainState ℕ
worked =
    (apply_hapi machine (record overdraft { id = record (overdraft.id) { nonce = pos 1 } })
      (at_secs 1_007 0) (apply_hapi machine payment (at_secs 1_006 0) town).1).1

abbrev listed : Result Panic (List Entry) → List Entry
listed (ok es) = es
listed (err e) = []

abbrev entries : List Entry
entries = listed (since lossy show worked (mark_of town))

written : since lossy show worked (mark_of town) ≡ ok entries
unfolding since mark_of apply_hapi BTreeMap.get BTreeMap.insert HashMap.get
written = refl

two_entries : length entries ≡ 2
unfolding since mark_of apply_hapi BTreeMap.get BTreeMap.insert HashMap.get
two_entries = refl

since-IsLedger_example : IsLedger lossy show worked (mark_of town) entries
since-IsLedger_example =
    since-IsLedger lossy show worked (mark_of town) entries written (omega (arith, two_entries))

unique_tx_id_fresh_example :
    (id : TxId) × (unique_tx_id (length town.hapi_by_id + 1) town (at_secs 1_006 0) ≡ some id)
    × (has_transaction_id town id ≡ false)
    × (id.payer ≡ operator)
    × (nanos_of (at_secs 1_006 0) ≤ nanos_of id.valid_start)
unique_tx_id_fresh_example = unique_tx_id_fresh town (at_secs 1_006 0) (omega arith) (omega arith)

parse_entity_id-entity_text_example : parse_entity_id (entity_text 1033) ≡ some 1033
parse_entity_id-entity_text_example = parse_entity_id-entity_text 1033 (omega arith)
