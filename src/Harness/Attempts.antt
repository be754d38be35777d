-- ===== src/Harness/Attempts.antt =====
-- The repair loop of a run, `run_loop` of src/harness/attempt.rs. Its stages, and what it does
-- between them with the run's files, log, prompts and commits, are parameters, each of which may
-- fail.
pub mod Ending
pub mod Isolation
use hanvil.Prelude.{
  ℕ, zero, suc, ◌==◌, Bool, true, false, ◌&&◌, ◌||◌, Option, none, some, List, [], ◌∷◌, ◌++◌, Bytes,
  codes, ltb, leb, length, keep, is_some, if◌then◌else◌,
}
use hanvil.Prelude.Result.{Result, ok, err}
use hanvil.Word.{add_u64, saturating_sub}
use hanvil.Chain.{ChainState, Chain}
use hanvil.Chain.Snapshots.{snapshot, revert}
use hanvil.Harness.Findings.{
  Category, agent, Finding, Delta, still_open, is_open, compute_delta, apply_status,
}
use hanvil.Harness.Ledger.{Mark, Entry, Summary, mark_of, counts}
use hanvil.Harness.Ledger.Repeats.{repeated_from}
use hanvil.Harness.Stages.{
  Env, ModelChoice, select_model, Evaluation, ValidationResult, not_run_yet, infra_abort, Prompt,
  session_prompt, continue_prompt, repair_prompt, Spec, Stage, Stages, and_then,
  run_validation_stages, after_step, prompt_built, attempt_announced, snapshot_logged,
  provider_made, result_recorded, state_dumped, abort_noted, validation_noted, checkpointed,
  revert_logged, run_finished,
}

-- What a run starts from.
pub record LoopInput : Type 0 where
  pub spec : Spec
  pub env : Env
  pub max_attempts : ℕ
  pub is_continue : Bool
  pub cycle : Option ℕ
  pub starting_attempt : ℕ
  pub previous_open_finding_ids : List Bytes

-- The loop's variables.
pub record Progress : Type 0 where
  pub attempts : ℕ
  pub attempts_this_cycle : ℕ
  pub validation : ValidationResult
  pub latest_prompt : Prompt
  pub open_finding_ids : List Bytes
  pub previous_findings : List Finding
  pub delta : Delta

abbrev or_one : Option ℕ → ℕ
or_one none = 1
or_one (some n) = n

abbrev pub first_progress : LoopInput → Progress
first_progress input = record {
  attempts = saturating_sub input.starting_attempt 1;
  attempts_this_cycle = 0;
  validation = not_run_yet;
  latest_prompt =
      (if input.is_continue then continue_prompt (or_one input.cycle) else session_prompt 1);
  open_finding_ids = input.previous_open_finding_ids;
  previous_findings = [];
  delta = record { still_failing = input.previous_open_finding_ids; closed = []; introduced = [] };
}

abbrev pub snapshot_per_attempt : Spec → Bool
snapshot_per_attempt spec = elim spec.chain_validation [ none ↦ false | some each ↦ each ]

abbrev pub repeats : Option (List Entry) → Option (List Entry) → Option Bytes
repeats (some now) (some before) = repeated_from now before
repeats _ _ = none

-- The attempt's findings against those of the one before.
unfoldable pub judged : Progress → ValidationResult → Progress
unfolding compute_delta apply_status
judged p validation =
    let delta = compute_delta p.open_finding_ids validation.findings in
    let found = apply_status validation.findings delta p.previous_findings in
    record p {
      validation = record validation { findings = found };
      previous_findings = found;
      delta = delta;
      open_finding_ids = delta.still_failing;
    }

module _ {Db : Type 0} where
  -- The snapshot that an attempt starts with.
  abbrev pub opened : Bool → Chain Db → Option ℕ × Chain Db
  opened false c = (none, c)
  opened true c = let (id, c') = snapshot c in (some id, c')

  abbrev pub reverted_to : Option ℕ → Chain Db → Bool × Chain Db
  reverted_to none c = (false, c)
  reverted_to (some id) c = revert id c

  module _ (stages : Stages Db) where
    abbrev revert_told :
        ℕ → Option ℕ → Bool → Stage Db (Progress × Bool) → Stage Db (Progress × Bool)
    revert_told attempt none success next = next
    revert_told attempt (some id) success next =
        after_step stages (revert_logged attempt id success) next

    -- The chain goes back to where the attempt began, and the next one is told so.
    abbrev pub repaired : Option ℕ → Option Bytes → Progress → Stage Db (Progress × Bool)
    repaired id repeated p c =
        let (success, c') = reverted_to id c in
        let prompt =
          repair_prompt (keep is_open p.validation.findings) (add_u64 p.attempts 1) success
            p.validation.chain_ledger repeated in
        revert_told p.attempts id success
          (after_step stages (prompt_built prompt)
            (λ c''. (c'', ok (record p { latest_prompt = prompt }, false))))
          c'

    -- Whether the loop breaks on a pass, and what is done where it does not.
    abbrev pub tried : ℕ → Option ℕ → Option Bytes → Progress → Stage Db (Progress × Bool)
    tried most id repeated p c =
        if p.validation.passed
        then (c, ok (p, true))
        else if ltb p.attempts_this_cycle most
        then repaired id repeated p c
        else (c, ok (p, false))

    abbrev pub noted : ℕ → Option ℕ → Option Bytes → Progress → Stage Db (Progress × Bool)
    noted most id repeated p c =
        if infra_abort p.validation
        then after_step stages (abort_noted p.attempts p.validation)
            (after_step stages (checkpointed p.attempts p.validation) (λ c'. (c', ok (p, true)))) c
        else after_step stages (validation_noted p.attempts p.validation)
            (after_step stages (checkpointed p.attempts p.validation) (tried most id repeated p)) c

    -- All that follows the verdict of an attempt.
    unfoldable pub settle_attempt :
        ℕ → Option ℕ → Option Bytes → Progress → Stage Db (Progress × Bool)
    unfolding snapshot revert
    settle_attempt most id repeated p =
        after_step stages (result_recorded p.attempts p.validation p.delta)
          (after_step stages (state_dumped p.attempts) (noted most id repeated p))

  module _ (stages : Stages Db) (input : LoopInput) where
    abbrev pub counted : Progress → Progress
    counted p = record p {
      attempts = add_u64 p.attempts 1;
      attempts_this_cycle = add_u64 p.attempts_this_cycle 1;
    }

    abbrev pub choice : Progress → ModelChoice
    choice p =
        select_model input.env input.spec.agent (p.attempts_this_cycle == 1) (length p.delta.closed)
          (ltb 1 p.attempts_this_cycle)

    -- `p` is counted already; `mark` is where the chain stood, `id` the snapshot.
    abbrev pub judge_part : Progress → Option ℕ → ValidationResult → Stage Db (Progress × Bool)
    judge_part p id v c =
        settle_attempt stages input.max_attempts id
          (repeats v.chain_ledger p.validation.chain_ledger) (judged p v) c

    abbrev pub validate_part :
        Progress → Mark → Option ℕ → Option Finding → Stage Db (Progress × Bool)
    validate_part p mark id finding c =
        and_then (run_validation_stages stages input.spec p.attempts mark finding c)
          (judge_part p id)

    abbrev pub generate_part : Progress → Mark → Option ℕ → Stage Db (Progress × Bool)
    generate_part p mark id c =
        and_then (stages.run_generate_stage p.attempts (choice p) p.latest_prompt c)
          (validate_part p mark id)

    abbrev pub snapshot_told :
        ℕ → Option ℕ → Stage Db (Progress × Bool) → Stage Db (Progress × Bool)
    snapshot_told attempt none next = next
    snapshot_told attempt (some id) next = after_step stages (snapshot_logged attempt id) next

    -- The snapshot, and the stages after it; `p` is counted already.
    abbrev pub attempted : Progress → Stage Db (Progress × Bool)
    attempted p c =
        let start = opened (snapshot_per_attempt input.spec) c in
        snapshot_told p.attempts start.0
          (after_step stages (provider_made (choice p)) (generate_part p (mark_of c.state) start.0))
          start.1

    unfoldable pub run_attempt : Progress → Stage Db (Progress × Bool)
    unfolding snapshot settle_attempt judged run_validation_stages select_model mark_of add_u64
    run_attempt p =
        let q = counted p in
        after_step stages (attempt_announced q.attempts (choice q) q.latest_prompt) (attempted q)

    -- The `while`, with none where the fuel runs out.
    unfoldable pub attempts_from :
        ℕ → Progress → Chain Db → Chain Db × Option (Result Bytes Progress)
    unfolding run_attempt
    attempts_from zero p c = (c, none)
    attempts_from (suc fuel) p c = elim (ltb p.attempts_this_cycle input.max_attempts) [
      | false ↦ (c, some (ok p))
      | true ↦
          (let r = run_attempt p c in
            elim r.1 [
              | err e ↦ (r.0, some (err e))
              | ok q ↦ elim q.1 [ true ↦ (r.0, some (ok q.0)) | false ↦ attempts_from fuel q.0 r.0 ]
            ])
    ]

-- What the run reports, less names, paths and times.
pub record RunReport : Type 0 where
  pub attempts : ℕ
  pub max_attempts : ℕ
  pub cycle : Option ℕ
  pub attempts_this_cycle : ℕ
  pub passed : Bool
  pub open_finding_ids : List Bytes
  pub fixed_finding_ids : List Bytes
  pub validation : ValidationResult
  pub evaluation : Option Evaluation
  pub chain_ledger : Option Summary

abbrev summed : Option (List Entry) → Option Summary
summed none = none
summed (some entries) = some (counts entries)

abbrev pub finish_run : LoopInput → Progress → RunReport
finish_run input p = record {
  attempts = p.attempts;
  max_attempts = input.max_attempts;
  cycle = input.cycle;
  attempts_this_cycle = p.attempts_this_cycle;
  passed = p.validation.passed;
  open_finding_ids = p.delta.still_failing;
  fixed_finding_ids = p.delta.closed;
  validation = p.validation;
  evaluation = p.validation.evaluation;
  chain_ledger = summed p.validation.chain_ledger;
}

abbrev pub finished :
    {Db : Type 0}
    → RunReport
    → Chain Db
    → Result Bytes (Unit {0})
    → Chain Db × Option (Result Bytes RunReport)
finished report c (err e) = (c, some (err e))
finished report c (ok done) = (c, some (ok report))

abbrev pub reported :
    {Db : Type 0}
    → Stages Db
    → LoopInput
    → Chain Db × Option (Result Bytes Progress)
    → Chain Db × Option (Result Bytes RunReport)
reported stages input (c, none) = (c, none)
reported stages input (c, some (err e)) = (c, some (err e))
reported stages input (c, some (ok p)) =
    finished (finish_run input p) c (stages.between (run_finished p.attempts p.validation) c)

module _ {Db : Type 0} where
  abbrev pub looped :
      ℕ
      → Stages Db
      → LoopInput
      → Chain Db
      → Result Bytes (Unit {0})
      → Chain Db × Option (Result Bytes RunReport)
  looped fuel stages input c (err e) = (c, some (err e))
  looped fuel stages input c (ok done) =
      reported stages input (attempts_from stages input fuel (first_progress input) c)

  -- The first prompt is built before the loop.
  unfoldable pub run_loop :
      ℕ → Stages Db → LoopInput → Chain Db → Chain Db × Option (Result Bytes RunReport)
  unfolding attempts_from counts
  run_loop fuel stages input c =
      looped fuel stages input c
        (stages.between (prompt_built (first_progress input).latest_prompt) c)
