-- ===== src/Harness/Stages.antt =====
-- The stages of an attempt, of src/harness/attempt.rs, and their order; with `select_model` of
-- agent.rs, `is_ready_for_smoke` of assert.rs and the validation result of findings.rs, of which the
-- fields are kept that the loop reads. What the stages do themselves (the agent, the commands, the
-- browser) is a parameter, `Stages`. A prompt is kept as what it is built from.
pub mod Errors
pub mod Leaving
use hanvil.Prelude.{
  ℕ, ◌==◌, Bool, true, false, ◌&&◌, ◌||◌, Option, none, some, List, [], ◌∷◌, ◌++◌, Bytes, codes,
  if◌then◌else◌,
}
use hanvil.Prelude.Result.{Result, ok, err}
use hanvil.Chain.{Chain}
use hanvil.Harness.Findings.{Category, agent, Finding, Delta, still_open}
use hanvil.Harness.Ledger.{Mark, Entry}

pub data AgentPreset : Type 0 where
  cursor claude : AgentPreset

abbrev default_model : AgentPreset → Bytes
default_model cursor = codes "composer-2.5"
default_model claude = codes "opus"

abbrev repair_model : AgentPreset → Bytes
repair_model cursor = codes "composer-2.5"
repair_model claude = codes "sonnet"

-- The environment's overrides.
pub record Env : Type 0 where
  pub model : Option Bytes
  pub repair_model : Option Bytes
  pub no_model_switch : Bool

pub data ModelReason : Type 0 where
  first_attempt repair escalated : ModelReason

pub record ModelChoice : Type 0 where
  pub model : Bytes
  pub reason : ModelReason

abbrev or_preset : Option Bytes → Bytes → Bytes
or_preset none preset = preset
or_preset (some model) preset = model

unfoldable pub select_model : Env → AgentPreset → Bool → ℕ → Bool → ModelChoice
select_model env preset first_attempt_of_cycle previous_fixed_count has_repaired =
    let strong = or_preset env.model (default_model preset) in
    let cheap = or_preset env.repair_model (repair_model preset) in
    if first_attempt_of_cycle || env.no_model_switch
    then record { model = strong; reason = first_attempt }
    else if has_repaired && previous_fixed_count == 0
    then record { model = strong; reason = escalated }
    else record { model = cheap; reason = repair }

pub record Evaluation : Type 0 where
  pub passed : Bool
  pub findings : List Finding
  pub infrastructure_failure : Option Bool

abbrev pub is_infrastructure_failure : Evaluation → Bool
is_infrastructure_failure e = elim e.infrastructure_failure [ none ↦ false | some b ↦ b ]

pub record ValidationResult : Type 0 where
  pub passed : Bool
  pub findings : List Finding
  pub evaluation : Option Evaluation
  pub chain_ledger : Option (List Entry)

abbrev pub not_run_yet : ValidationResult
not_run_yet = record {
  passed = false;
  findings =
      record {
        id = codes "generator-not-run";
        category = agent;
        message = codes "Generator did not complete a successful attempt.";
        details = none;
        status = some still_open;
        assertion = none;
        route = none;
      }
      ∷ [];
  evaluation = none;
  chain_ledger = none;
}

abbrev pub infra_abort : ValidationResult → Bool
infra_abort v = elim v.evaluation [ none ↦ false | some e ↦ is_infrastructure_failure e ]

-- What a prompt is built from.
pub data Prompt : Type 0 where
  session_prompt : ℕ → Prompt
  continue_prompt : ℕ → Prompt
  repair_prompt : List Finding → ℕ → Bool → Option (List Entry) → Option Bytes → Prompt

pub data ChainStop : Type 0 where
  deploy assertions : ChainStop

pub record ChainOutcome : Type 0 where
  pub findings : List Finding
  pub ledger : Option (List Entry)
  pub stopped_at : Option ChainStop

pub record Spec : Type 0 where
  pub agent : AgentPreset
  -- `snapshot_per_attempt` of the chain validation, where the recipe has one
  pub chain_validation : Option Bool
  pub playwright_path : Option Bytes

-- A stage acts on the chain that the run drives, and ends the run with an error or goes on.
abbrev pub Stage : Type 0 → Type 0 → Type 0
Stage Db A = Chain Db → Chain Db × Result Bytes A

-- What a run does between its stages with its prompts, its files, its repository and the agent's
-- command line.
pub data Step : Type 0 where
  prompt_built : Prompt → Step
  attempt_announced : ℕ → ModelChoice → Prompt → Step
  snapshot_logged : ℕ → ℕ → Step
  provider_made : ModelChoice → Step
  result_recorded : ℕ → ValidationResult → Delta → Step
  state_dumped : ℕ → Step
  abort_noted validation_noted checkpointed : ℕ → ValidationResult → Step
  revert_logged : ℕ → ℕ → Bool → Step
  run_finished : ℕ → ValidationResult → Step

-- A step between the stages may read the chain and may fail, and leaves the chain alone.
pub record Stages (Db : Type 0) : Type 0 where
  pub between : Step → Chain Db → Result Bytes (Unit {0})
  pub run_generate_stage : ℕ → ModelChoice → Prompt → Stage Db (Option Finding)
  pub assert_run : Stage Db ValidationResult
  pub run_chain_stage : Mark → Stage Db ChainOutcome
  pub run_browser_stages : ℕ → Mark → Bytes → ValidationResult → Stage Db ValidationResult

-- `stage.await?`
abbrev pub and_then :
    {Db A B : Type 0} → Chain Db × Result Bytes A → (A → Stage Db B) → Chain Db × Result Bytes B
and_then (c, err e) next = (c, err e)
and_then (c, ok a) next = next a c

abbrev pub going_on :
    {Db A : Type 0} → Result Bytes (Unit {0}) → Stage Db A → Chain Db → Chain Db × Result Bytes A
going_on (err e) next c = (c, err e)
going_on (ok done) next c = next c

-- `step?`, and what follows it.
abbrev pub after_step : {Db A : Type 0} → Stages Db → Step → Stage Db A → Stage Db A
after_step stages step next c = going_on (stages.between step c) next c

abbrev is_agent : Category → Bool
is_agent agent = true
is_agent _ = false

abbrev pub is_ready_for_smoke : List Finding → Bool
is_ready_for_smoke [] = true
is_ready_for_smoke (f ∷ fs) = is_agent f.category && is_ready_for_smoke fs

abbrev pub with_finding : Option Finding → ValidationResult → ValidationResult
with_finding none v = v
with_finding (some f) v = record v { findings = f ∷ v.findings }

module _ {Db : Type 0} (stages : Stages Db) (spec : Spec) (attempt : ℕ) (mark : Mark) where
  abbrev pub browser_part : ValidationResult → Stage Db ValidationResult
  browser_part v c = elim spec.playwright_path [
    | none ↦ (c, ok v)
    | some path ↦ stages.run_browser_stages attempt mark path v c
  ]

  abbrev pub after_chain : ValidationResult → ChainOutcome → Stage Db ValidationResult
  after_chain v outcome c = elim outcome.stopped_at [
    | none ↦ browser_part (record v { chain_ledger = outcome.ledger }) c
    | some stop ↦ (
      c,
      ok (record {
        passed = false;
        findings = v.findings ++ outcome.findings;
        evaluation = v.evaluation;
        chain_ledger = outcome.ledger;
      }),
    )
  ]

  abbrev chain_part : ValidationResult → Stage Db ValidationResult
  chain_part v c = elim spec.chain_validation [
    | none ↦ browser_part v c
    | some each ↦ and_then (stages.run_chain_stage mark c) (after_chain v)
  ]

  abbrev pub after_assert : ValidationResult → Stage Db ValidationResult
  after_assert v c =
      if is_ready_for_smoke v.findings
      then chain_part v c
      else (c, ok (record v { passed = false }))

  unfoldable pub run_validation_stages : Option Finding → Stage Db ValidationResult
  run_validation_stages generate_finding c =
      and_then (stages.assert_run c) λ v. after_assert (with_finding generate_finding v)
