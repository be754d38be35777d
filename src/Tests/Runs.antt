-- ===== src/Tests/Runs.antt =====
-- Runs of the agent harness on a small chain.
use hanvil.Prelude.{
  ℕ, ◌≡◌, refl, arith, pos, Bool, true, false, none, some, List, [], ◌∷◌, ◌++◌, Bytes, codes, any,
  keep, is_some,
}
use hanvil.Prelude.Result.{Result, ok, err}
use hanvil.Maps.BTreeMap
use hanvil.Chain.{Chain}
use hanvil.Chain.Snapshots.Retained.{retain_below_all}
use hanvil.Chain.Snapshots.Restore.{AreNumbered, LeavesOlder}
use hanvil.Harness.Findings.{Finding, commands}
use hanvil.Harness.Stages.{claude, ValidationResult, Stages, repair, escalated, Env, select_model}
use hanvil.Harness.Stages.Leaving.{ArePolite}
use hanvil.Harness.Attempts.{LoopInput, Progress, first_progress, run_attempt, RunReport, run_loop}
use hanvil.Harness.Attempts.Ending.{Ended, run_loop_ends}
use hanvil.Harness.Attempts.Isolation.{IsBack, told_reverted, untried, run_attempt-IsBack}
use hanvil.Harness.Ledger.{Entry, Outcome, is_rejected}
use hanvil.Harness.Ledger.Repeats.{same_key, repeated_from}
use hanvil.Harness.Ledger.Repeats.Found.{refusal_key, repeated_from_lem}
use hanvil.Tests.Samples.{town_chain}

abbrev unmet : Finding
unmet = record {
  id = codes "lint";
  category = commands;
  message = codes "lint failed";
  details = none;
  status = none;
  assertion = none;
  route = none;
}

abbrev failing : ValidationResult
failing = record { passed = false; findings = unmet ∷ []; evaluation = none; chain_ledger = none }

abbrev priced : Chain ℕ → Chain ℕ
priced c = record c { state = record (c.state) { gas_price = 5 } }

-- An agent that changes the chain, and a build that fails.
abbrev stages : Stages ℕ
stages = record {
  between = λ step c. ok tt;
  run_generate_stage = λ attempt choice prompt c. (priced c, ok none);
  assert_run = λ c. (c, ok failing);
  run_chain_stage = λ mark c. (c, ok (record { findings = []; ledger = none; stopped_at = none }));
  run_browser_stages = λ attempt mark path v c. (c, ok v);
}

abbrev env : Env
env = record { model = none; repair_model = none; no_model_switch = false }

abbrev input : LoopInput
input = record {
  spec = record { agent = claude; chain_validation = some true; playwright_path = none };
  env = env;
  max_attempts = 3;
  is_continue = false;
  cycle = none;
  starting_attempt = 1;
  previous_open_finding_ids = [];
}

cheap_repair :
    select_model env claude false 1 true ≡ record { model = codes "sonnet"; reason = repair }
unfolding select_model
cheap_repair = refl

dear_repair :
    select_model env claude false 0 true ≡ record { model = codes "opus"; reason = escalated }
unfolding select_model
dear_repair = refl

run_loop_ends_example :
    (r : Result Bytes RunReport) × ((run_loop 4 stages input town_chain).1 ≡ some r)
    × Ended stages input r
run_loop_ends_example = run_loop_ends stages input town_chain (omega arith)

town-AreNumbered : AreNumbered town_chain
town-AreNumbered = record { ordered = tt; below = tt }

left_alone : (c : Chain ℕ) → AreNumbered c → LeavesOlder c c
left_alone c v = record {
  numbered = v;
  older = retain_below_all c.state.next_snapshot c.snapshots v.below;
  counter = omega arith;
}

left_priced : (c : Chain ℕ) → AreNumbered c → LeavesOlder c (priced c)
left_priced c v = record {
  numbered = record { ordered = v.ordered; below = v.below };
  older = retain_below_all c.state.next_snapshot c.snapshots v.below;
  counter = omega arith;
}

stages-ArePolite : ArePolite stages
stages-ArePolite = record {
  generates = λ attempt choice prompt c. left_priced c;
  asserts = λ c. left_alone c;
  chains = λ mark c. left_alone c;
  browses = λ attempt mark path v c. left_alone c;
}

abbrev progress_of : Result Bytes (Progress × Bool) → Progress
progress_of (err e) = first_progress input
progress_of (ok (p, broke)) = p

abbrev second : Progress
second = progress_of (run_attempt stages input (first_progress input) town_chain).1

abbrev second_chain : Chain ℕ
second_chain = (run_attempt stages input (first_progress input) town_chain).0

retried_once :
    run_attempt stages input (first_progress input) town_chain ≡ (second_chain, ok (second, false))
unfolding run_attempt BTreeMap.get BTreeMap.insert
retried_once = refl

run_attempt-IsBack_example :
    IsBack town_chain second_chain × (told_reverted second.latest_prompt ≡ true)
unfolding run_attempt
run_attempt-IsBack_example =
    run_attempt-IsBack stages input (first_progress input) (first_progress input) second town_chain
      town_chain second_chain stages-ArePolite refl town-AreNumbered untried (omega arith)
      retried_once (omega arith)

abbrev refused_for : Bytes → Entry
refused_for why = record {
  index = 1;
  kind = codes "CRYPTOTRANSFER";
  payer = codes "0.0.1002";
  outcome = Outcome.rejected;
  result = why;
  code = none;
  entity = none;
  at_millis = pos 0;
  fee_tinybar = 0;
}

abbrev last_time : List Entry
last_time = refused_for (codes "INVALID_SIGNATURE") ∷ []

abbrev this_time : List Entry
this_time =
    refused_for (codes "INVALID_SIGNATURE")
    ∷ refused_for (codes "MEMO_TOO_LONG")
    ∷ refused_for (codes "INVALID_SIGNATURE")
    ∷ []

told_twice :
    repeated_from this_time last_time
    ≡ some
        (50 ∷ 215 ∷ 32 ∷ (codes "CRYPTOTRANSFER" ++ (32 ∷ 8212 ∷ 32 ∷ codes "INVALID_SIGNATURE")))
unfolding repeated_from
told_twice = refl

repeated_from_lem_example :
    is_some (repeated_from this_time last_time)
    ≡ any
        (λ e. any (λ b. same_key (refusal_key e) (refusal_key b)) (keep is_rejected last_time))
        (keep is_rejected this_time)
repeated_from_lem_example = repeated_from_lem this_time last_time
