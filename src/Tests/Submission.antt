-- ===== src/Tests/Submission.antt =====
-- The prechecks and `submit` on the sample envelope.
use hanvil.Prelude.{ℕ, ◌+◌, ◌≡◌, refl, arith, true, false, some}
use hanvil.Prelude.Result.{ok, err}
use hanvil.Maps.BTreeMap
use hanvil.Maps.HashMap
use hanvil.Time.{at_secs}
use hanvil.Records.{Record}
use hanvil.Records.Responses.{Status}
use hanvil.Chain.{ChainState, hapi_record}
use hanvil.Chain.Refusals.{rejections_seen}
use hanvil.Chain.Apply.{apply_hapi}
use hanvil.Wire.Precheck.{precheck, submit}
use hanvil.Wire.Precheck.Gate.{IsAccepted, precheck-IsAccepted}
use hanvil.Wire.Precheck.Once.{submit_once, submit_error}
use hanvil.Tests.Samples.{machine, town, codec, curves, envelope, received}

accepted : precheck machine codec curves town envelope (at_secs 1_006 0) true ≡ ok received
unfolding precheck HashMap.get BTreeMap.get
accepted = refl

precheck-IsAccepted_example :
    IsAccepted machine codec curves town envelope (at_secs 1_006 0) true received
precheck-IsAccepted_example =
    precheck-IsAccepted machine codec curves town envelope (at_secs 1_006 0) true received accepted

abbrev after : ChainState ℕ
after = (apply_hapi machine received (at_secs 1_006 0) town).1

abbrev answer : Record
answer = (apply_hapi machine received (at_secs 1_006 0) town).0

taken : submit machine codec curves town envelope (at_secs 1_006 0) true ≡ (after, ok answer)
unfolding submit precheck HashMap.get BTreeMap.get
taken = refl

submit_once_example :
    (hapi_record after answer.id ≡ some answer)
    × ((e : Status) × ((submit machine codec curves after envelope (at_secs 1_007 0) false).1
          ≡ err e))
submit_once_example =
    submit_once machine codec curves town after envelope (at_secs 1_006 0) (at_secs 1_007 0) true
      false answer taken

abbrev expired : ChainState ℕ
expired = (submit machine codec curves town envelope (at_secs 1_121 0) true).0

expires :
    submit machine codec curves town envelope (at_secs 1_121 0) true
    ≡ (expired, err Status.transaction_expired)
unfolding submit precheck HashMap.get BTreeMap.get
expires = refl

submit_error_example :
    (precheck machine codec curves town envelope (at_secs 1_121 0) true
      ≡ err Status.transaction_expired)
    × (expired.accounts ≡ town.accounts)
    × (expired.hapi_records ≡ town.hapi_records)
    × (expired.last_consensus ≡ town.last_consensus)
    × (rejections_seen expired ≡ rejections_seen town + 1)
submit_error_example =
    submit_error machine codec curves town expired envelope (at_secs 1_121 0) true
      Status.transaction_expired (omega arith) expires
