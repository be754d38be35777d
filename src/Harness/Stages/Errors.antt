-- ===== src/Harness/Stages/Errors.antt =====
-- The errors that the stages of an attempt end with.
use hanvil.Prelude.{ℕ, ◌≡◌, refl, subst, Option, Bytes, Bool-cases, Option-cases, inl, inr}
use hanvil.Prelude.Result.{Result, ok, err}
use hanvil.Chain.{Chain}
use hanvil.Harness.Stages.{
  ValidationResult, Stage, Step, Stages, and_then, going_on, run_validation_stages, Spec, Prompt,
  ModelChoice, ChainOutcome, browser_part, after_chain, after_assert, with_finding,
  is_ready_for_smoke,
}
use hanvil.Harness.Findings.{Finding}
use hanvil.Harness.Ledger.{Mark}

-- What holds of every outcome of a stage and what follows it.
pub and_then-all :
    {Db A B : Type 0} (P : Result Bytes B → Type 0) (o : Chain Db × Result Bytes A)
    (next : A → Stage Db B)
    → ((e : Bytes) → o.1 ≡ err e → P (err e))
    → ((a : A) (c : Chain Db) → P (next a c).1)
    → P (and_then o next).1
and_then-all P (c, err e) next on_err on_ok = on_err e refl
and_then-all P (c, ok a) next on_err on_ok = on_ok a c

-- What holds of a step that fails, and of what follows it.
pub going_on-all :
    {Db A : Type 0} (P : Chain Db × Result Bytes A → Type 0) (r : Result Bytes (Unit {0}))
    (next : Stage Db A) (c : Chain Db)
    → ((e : Bytes) → r ≡ err e → P (c, err e))
    → P (next c)
    → P (going_on r next c)
going_on-all P (err e) next c on_err on_ok = on_err e refl
going_on-all P (ok done) next c on_err on_ok = on_ok

-- An error that a stage, or a step between the stages, has ended with.
pub data Raised {Db : Type 0} (stages : Stages Db) (e : Bytes) : Type 0 where
  by_generate :
      (attempt : ℕ) (choice : ModelChoice) (prompt : Prompt) (c : Chain Db)
      → (stages.run_generate_stage attempt choice prompt c).1 ≡ err e
      → Raised stages e
  by_assert : (c : Chain Db) → (stages.assert_run c).1 ≡ err e → Raised stages e
  by_chain :
      (mark : Mark) (c : Chain Db) → (stages.run_chain_stage mark c).1 ≡ err e → Raised stages e
  by_browser :
      (attempt : ℕ) (mark : Mark) (path : Bytes) (v : ValidationResult) (c : Chain Db)
      → (stages.run_browser_stages attempt mark path v c).1 ≡ err e
      → Raised stages e
  by_step : (step : Step) (c : Chain Db) → stages.between step c ≡ err e → Raised stages e

abbrev Blames : {Db : Type 0} → Stages Db → Result Bytes ValidationResult → Type 0
Blames stages (err e) = Raised stages e
Blames stages (ok v) = Unit {0}

Blames-eq :
    {Db : Type 0} (stages : Stages Db) (r : Result Bytes ValidationResult)
    → ((e : Bytes) → r ≡ err e → Raised stages e)
    → Blames stages r
Blames-eq stages (err e) h = h e refl
Blames-eq stages (ok v) h = tt

module _ {Db : Type 0} (stages : Stages Db) (spec : Spec) (attempt : ℕ) (mark : Mark) where
  browser_part-Blames :
      (v : ValidationResult) (c : Chain Db)
      → Blames stages (browser_part stages spec attempt mark v c).1
  browser_part-Blames v c = elim (Option-cases spec.playwright_path) [
    | inl absent ↦ rw absent tt
    | inr (path, present) ↦ rw present (
        Blames-eq stages (stages.run_browser_stages attempt mark path v c).1
          λ e. by_browser attempt mark path v c)
  ]

  after_chain-Blames :
      (v : ValidationResult) (outcome : ChainOutcome) (c : Chain Db)
      → Blames stages (after_chain stages spec attempt mark v outcome c).1
  after_chain-Blames v outcome c = elim (Option-cases outcome.stopped_at) [
    | inl on ↦ rw on (browser_part-Blames (record v { chain_ledger = outcome.ledger }) c)
    | inr (stop, stopped) ↦ rw stopped tt
  ]

  after_assert-Blames :
      (v : ValidationResult) (c : Chain Db)
      → Blames stages (after_assert stages spec attempt mark v c).1
  after_assert-Blames v c = elim (Bool-cases (is_ready_for_smoke v.findings)) [
    | inr unready ↦ rw unready tt
    | inl ready ↦ elim (Option-cases spec.chain_validation) [
      | inl absent ↦ rw (ready, absent) (browser_part-Blames v c)
      | inr (each, present) ↦
          rw (ready, present)
            (and_then-all (Blames stages) (stages.run_chain_stage mark c)
              (after_chain stages spec attempt mark v) (λ e. by_chain mark c)
              (after_chain-Blames v))
    ]
  ]

  pub run_validation_stages-Blames :
      (finding : Option Finding) (c : Chain Db) (e : Bytes)
      → (run_validation_stages stages spec attempt mark finding c).1 ≡ err e
      → Raised stages e
  unfolding run_validation_stages
  run_validation_stages-Blames finding c e run = subst (Blames stages) run (
      and_then-all (Blames stages) (stages.assert_run c)
        (λ v. after_assert stages spec attempt mark (with_finding finding v)) (λ e. by_assert c)
        (λ v. after_assert-Blames (with_finding finding v)))
