-- ===== src/Tests/Ledger.antt =====
-- The HAPI side on the sample chain.
use hanvil.Prelude.{◌≡◌, refl, arith, pos, negsuc, true, some, [], ◌∷◌}
use hanvil.Word.{add_i64}
use hanvil.Maps.BTreeMap
use hanvil.Time.{at_secs}
use hanvil.Chain.{hapi_record, has_transaction_id, balance_of}
use hanvil.Chain.Supply.{Conserves}
use hanvil.Chain.Transfers.{leg}
use hanvil.Chain.Apply.{apply_hapi}
use hanvil.Chain.Apply.Conservation.{apply_hapi-Conserves}
use hanvil.Chain.Apply.Filing.{apply_hapi_filed}
use hanvil.Tests.Samples.{machine, person, town, town-IsSound, payment}

-- The payer pays the fee and 300, and the record says so.
payment_balances :
    (balance_of (apply_hapi machine payment (at_secs 1_006 0) town).1 1002 ≡ 989_700)
    × (balance_of (apply_hapi machine payment (at_secs 1_006 0) town).1 1003 ≡ 800)
    × (balance_of (apply_hapi machine payment (at_secs 1_006 0) town).1 98 ≡ 10_000)
unfolding apply_hapi balance_of BTreeMap.get BTreeMap.insert
payment_balances = (refl, refl, refl)

payment_transfers :
    (apply_hapi machine payment (at_secs 1_006 0) town).0.transfers
    ≡ leg 98 (pos 10_000) ∷ leg 1002 (negsuc 10_299) ∷ leg 1003 (pos 300) ∷ []
unfolding apply_hapi BTreeMap.get BTreeMap.insert add_i64
payment_transfers = refl

payer_found : BTreeMap.get 1002 town.accounts ≡ some (person 1002 1_000_000)
unfolding BTreeMap.get
payer_found = refl

apply_hapi-Conserves_example : Conserves town (apply_hapi machine payment (at_secs 1_006 0) town).1
apply_hapi-Conserves_example =
    apply_hapi-Conserves machine payment (at_secs 1_006 0) town (person 1002 1_000_000) town-IsSound
      payer_found (omega arith) ((omega arith, (omega arith, tt)), omega arith)

apply_hapi_filed_example :
    ((apply_hapi machine payment (at_secs 1_006 0) town).0.id ≡ payment.id)
    × (hapi_record (apply_hapi machine payment (at_secs 1_006 0) town).1 payment.id
        ≡ some (apply_hapi machine payment (at_secs 1_006 0) town).0)
    × (has_transaction_id (apply_hapi machine payment (at_secs 1_006 0) town).1 payment.id ≡ true)
apply_hapi_filed_example = apply_hapi_filed machine payment (at_secs 1_006 0) town
