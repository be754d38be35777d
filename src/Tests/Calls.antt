-- ===== src/Tests/Calls.antt =====
-- Gas estimates and revert data.
use hanvil.Prelude.{some, ℕ, ◌+◌, ◌≤◌, refl, arith, leb, if◌then◌else◌, none, some, [], subst}
use hanvil.Prelude.Result.{ok, ok_eq}
use hanvil.Time.{at_secs}
use hanvil.Blocks.{CallRequest}
use hanvil.Evm.{Externals, Verdict}
use hanvil.Chain.Calls.{call, estimate_gas}
use hanvil.Chain.Calls.Traces.{EndsIn, Same, call-estimate_gas_traceless}
use hanvil.Chain.Calls.Estimate.{Estimate, IsSteady, estimate_gas-Estimate}
use hanvil.Tests.Samples.{machine, town}

-- A call that uses 21,000 gas and needs a limit of 30,000.
abbrev metered : Externals ℕ
metered = record machine {
  transact = λ cfg block env db. (
    db + 1,
    ok (record {
      result = record {
        gas_used = 21_000;
        logs = [];
        verdict = if leb 30_000 env.gas_limit then Verdict.call [] else Verdict.revert [];
      };
      state = [];
    }),
  );
}

abbrev question : CallRequest
question = record {
  from = some 1002;
  to = some 1003;
  gas = none;
  gas_price = none;
  value = 0;
  input = [];
}

metered-IsSteady : IsSteady metered question (at_secs 1_006 0) town
unfolding call
metered-IsSteady t called gas = refl

estimate_gas-Estimate_example :
    Estimate metered question
      (at_secs 1_006 0)
      town
      (estimate_gas metered question (at_secs 1_006 0) town)
unfolding call
estimate_gas-Estimate_example =
    estimate_gas-Estimate metered question (at_secs 1_006 0) town metered-IsSteady
      λ r h. subst (λ x. x.gas_used ≤ 15_000_000) (ok_eq h) (omega arith)

call-estimate_gas_traceless_example :
    Same metered question (at_secs 1_006 0) town (call metered question (at_secs 1_006 0) town).0
    × EndsIn
        (Same metered question (at_secs 1_006 0) town)
        (estimate_gas metered question (at_secs 1_006 0) town)
call-estimate_gas_traceless_example =
    call-estimate_gas_traceless metered question (at_secs 1_006 0) town
