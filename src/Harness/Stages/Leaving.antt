-- ===== src/Harness/Stages/Leaving.antt =====
-- Stages that leave the snapshots of before them.
use hanvil.Prelude.{ℕ, Option, Bytes, Bool-cases, Option-cases, inl, inr}
use hanvil.Prelude.Result.{Result, ok, err}
use hanvil.Chain.{Chain}
use hanvil.Chain.Snapshots.Restore.{AreNumbered, LeavesOlder, LeavesOlder-trans}
use hanvil.Harness.Findings.{Finding}
use hanvil.Harness.Ledger.{Mark}
use hanvil.Harness.Stages.{
  ValidationResult, Prompt, ModelChoice, ChainOutcome, Spec, Stage, Stages, and_then,
  is_ready_for_smoke, with_finding, browser_part, after_chain, after_assert, run_validation_stages,
}

module _ {Db : Type 0} where
  -- A stage that reverts to no snapshot older than itself.
  pub record ArePolite (stages : Stages Db) : Type 0 where
    pub generates :
        (attempt : ℕ) (choice : ModelChoice) (prompt : Prompt) (c : Chain Db)
        → AreNumbered c
        → LeavesOlder c (stages.run_generate_stage attempt choice prompt c).0
    pub asserts : (c : Chain Db) → AreNumbered c → LeavesOlder c (stages.assert_run c).0
    pub chains :
        (mark : Mark) (c : Chain Db)
        → AreNumbered c
        → LeavesOlder c (stages.run_chain_stage mark c).0
    pub browses :
        (attempt : ℕ) (mark : Mark) (path : Bytes) (v : ValidationResult) (c : Chain Db)
        → AreNumbered c
        → LeavesOlder c (stages.run_browser_stages attempt mark path v c).0

  and_then-LeavesOlder :
      {A B : Type 0} (start : Chain Db) (o : Chain Db × Result Bytes A) (next : A → Stage Db B)
      → LeavesOlder start o.0
      → ((a : A) (c : Chain Db) → LeavesOlder start c → LeavesOlder start (next a c).0)
      → LeavesOlder start (and_then o next).0
  and_then-LeavesOlder start (c, err e) next f on = f
  and_then-LeavesOlder start (c, ok a) next f on = on a c f

  module _ (stages : Stages Db) (polite : ArePolite stages) (start : Chain Db) where
    module _ (spec : Spec) (attempt : ℕ) (mark : Mark) where
      browser_part-LeavesOlder :
          (v : ValidationResult) (c : Chain Db)
          → LeavesOlder start c
          → LeavesOlder start (browser_part stages spec attempt mark v c).0
      browser_part-LeavesOlder v c f = elim (Option-cases spec.playwright_path) [
        | inl absent ↦ rw absent f
        | inr (path, present) ↦ rw present (
            LeavesOlder-trans start c (stages.run_browser_stages attempt mark path v c).0 f
              (polite.browses attempt mark path v c f.numbered))
      ]

      after_chain-LeavesOlder :
          (v : ValidationResult) (outcome : ChainOutcome) (c : Chain Db)
          → LeavesOlder start c
          → LeavesOlder start (after_chain stages spec attempt mark v outcome c).0
      after_chain-LeavesOlder v outcome c f = elim (Option-cases outcome.stopped_at) [
        | inl on ↦ rw on (browser_part-LeavesOlder (record v { chain_ledger = outcome.ledger }) c f)
        | inr (stop, stopped) ↦ rw stopped f
      ]

      after_assert-LeavesOlder :
          (v : ValidationResult) (c : Chain Db)
          → LeavesOlder start c
          → LeavesOlder start (after_assert stages spec attempt mark v c).0
      after_assert-LeavesOlder v c f = elim (Bool-cases (is_ready_for_smoke v.findings)) [
        | inr unready ↦ rw unready f
        | inl ready ↦ elim (Option-cases spec.chain_validation) [
          | inl absent ↦ rw (ready, absent) (browser_part-LeavesOlder v c f)
          | inr (each, present) ↦
              rw (ready, present)
                (and_then-LeavesOlder start (stages.run_chain_stage mark c)
                  (after_chain stages spec attempt mark v)
                  (LeavesOlder-trans start c (stages.run_chain_stage mark c).0 f
                    (polite.chains mark c f.numbered))
                  (after_chain-LeavesOlder v))
        ]
      ]

      pub run_validation_stages-LeavesOlder :
          (finding : Option Finding) (c : Chain Db)
          → LeavesOlder start c
          → LeavesOlder start (run_validation_stages stages spec attempt mark finding c).0
      unfolding run_validation_stages
      run_validation_stages-LeavesOlder finding c f =
          and_then-LeavesOlder start (stages.assert_run c)
            (λ v. after_assert stages spec attempt mark (with_finding finding v))
            (LeavesOlder-trans start c (stages.assert_run c).0 f (polite.asserts c f.numbered))
            (λ v. after_assert-LeavesOlder (with_finding finding v))
