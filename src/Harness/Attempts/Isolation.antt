-- ===== src/Harness/Attempts/Isolation.antt =====
-- A repair starts on the chain that the failed attempt before it started on.
use hanvil.Prelude.{
  ℕ, ◌+◌, ◌<◌, ◌≡◌, refl, ap, ◌∙◌, subst, arith, Bool, true, false, Option, some, Bytes, ltb,
  Bool-cases, inl, inr,
}
use hanvil.Prelude.Result.{Result, ok, err}
use hanvil.Word.{u64_mod}
use hanvil.Chain.{ChainState, Chain}
use hanvil.Chain.Snapshots.{snapshot}
use hanvil.Harness.Findings.{Finding}
use hanvil.Harness.Ledger.{Mark, mark_of}
use hanvil.Harness.Stages.{
  Prompt, repair_prompt, Stage, Step, Stages, and_then, infra_abort, after_step,
  run_validation_stages,
}
use hanvil.Harness.Stages.Errors.{going_on-all}
use hanvil.Chain.Snapshots.Restore.{
  AreNumbered, LeavesOlder, snapshot-AreNumbered, revert-snapshot, back-AreNumbered,
}
use hanvil.Harness.Stages.Leaving.{ArePolite, run_validation_stages-LeavesOlder}
use hanvil.Harness.Attempts.{
  LoopInput, Progress, snapshot_per_attempt, settle_attempt, judged, counted, choice, repeats,
  judge_part, validate_part, run_attempt, tried,
}

-- What a repair prompt says of the chain.
abbrev pub told_reverted : Prompt → Bool
told_reverted (repair_prompt fs attempt reverted ledger repeated) = reverted
told_reverted _ = false

module _ {Db : Type 0} where
  -- The chain is back at an earlier one, but for the counter of snapshot ids.
  pub record IsBack (start c : Chain Db) : Type 0 where
    pub numbered : AreNumbered c
    pub state : c.state ≡ record (start.state) { next_snapshot = c.state.next_snapshot }
    pub snapshots : c.snapshots ≡ start.snapshots

  -- An attempt that another one follows gives the chain back, and tells the next one.
  abbrev GivesBack : Chain Db → ℕ → Chain Db × Result Bytes (Progress × Bool) → Type 0
  GivesBack start most (c, err e) = Unit {0}
  GivesBack start most (c, ok (p, true)) = Unit {0}
  GivesBack start most (c, ok (p, false)) =
      p.attempts_this_cycle < most → IsBack start c × (told_reverted p.latest_prompt ≡ true)

  module _ (start : Chain Db) (room : start.state.next_snapshot + 1 < u64_mod)
      (v : AreNumbered start) (most : ℕ) where
    after_step-GivesBack :
        (stages : Stages Db) (step : Step) (next : Stage Db (Progress × Bool)) (c : Chain Db)
        → GivesBack start most (next c)
        → GivesBack start most (after_step stages step next c)
    after_step-GivesBack stages step next c =
        going_on-all (GivesBack start most) (stages.between step c) next c (λ e fails. tt)

    tried-GivesBack :
        (stages : Stages Db) (repeated : Option Bytes) (p : Progress) (c : Chain Db)
        → LeavesOlder (snapshot start).1 c
        → GivesBack start most (tried stages most (some (snapshot start).0) repeated p c)
    tried-GivesBack stages repeated p c f = elim (Bool-cases p.validation.passed) [
      | inl passed ↦ rw passed tt
      | inr fails ↦ elim (Bool-cases (ltb p.attempts_this_cycle most)) [
        | inr last ↦ rw (fails, last) (λ more. absurd (ground (arith, last, more)))
        | inl more ↦
            rw (fails, more, revert-snapshot start c room v f)
              (after_step-GivesBack stages _ _ _ (
                after_step-GivesBack stages _ _ _ (λ more_left. (
                  record {
                    numbered = back-AreNumbered start c room v f;
                    state = refl;
                    snapshots = refl;
                  },
                  refl,
                ))))
      ]
    ]

    settle_attempt-GivesBack :
        (stages : Stages Db) (repeated : Option Bytes) (p : Progress) (c : Chain Db)
        → LeavesOlder (snapshot start).1 c
        → GivesBack start most (settle_attempt stages most (some (snapshot start).0) repeated p c)
    unfolding settle_attempt
    settle_attempt-GivesBack stages repeated p c f = after_step-GivesBack stages _ _ _ (
        after_step-GivesBack stages _ _ _ (elim (Bool-cases (infra_abort p.validation)) [
          | inl aborts ↦
              rw aborts (after_step-GivesBack stages _ _ _ (after_step-GivesBack stages _ _ _ tt))
          | inr tools ↦ rw tools (
              after_step-GivesBack stages _ _ _
                (after_step-GivesBack stages _ _ _ (tried-GivesBack stages repeated p c f)))
        ]))

    and_then-GivesBack :
        {A : Type 0} (o : Chain Db × Result Bytes A) (next : A → Stage Db (Progress × Bool))
        → LeavesOlder (snapshot start).1 o.0
        → ((a : A) (c : Chain Db)
            → LeavesOlder (snapshot start).1 c
            → GivesBack start most (next a c))
        → GivesBack start most (and_then o next)
    and_then-GivesBack (c, err e) next f on = tt
    and_then-GivesBack (c, ok a) next f on = on a c f

    module _ (stages : Stages Db) (polite : ArePolite stages) (input : LoopInput) where
      validate_part-GivesBack :
          (p : Progress) (mark : Mark) (finding : Option Finding) (c : Chain Db)
          → input.max_attempts ≡ most
          → LeavesOlder (snapshot start).1 c
          → GivesBack start most
              (validate_part stages input p mark (some (snapshot start).0) finding c)
      unfolding judged
      validate_part-GivesBack p mark finding c same f =
          and_then-GivesBack (run_validation_stages stages input.spec p.attempts mark finding c)
            (judge_part stages input p (some (snapshot start).0))
            (run_validation_stages-LeavesOlder stages polite (snapshot start).1 input.spec
              p.attempts mark finding c f)
            (λ v' c' f'. rw same (
              settle_attempt-GivesBack stages (repeats v'.chain_ledger p.validation.chain_ledger)
                (judged p v') c' f'))

      run_attempt-GivesBack :
          (p : Progress)
          → input.max_attempts ≡ most
          → snapshot_per_attempt input.spec ≡ true
          → GivesBack start most (run_attempt stages input p start)
      unfolding run_attempt snapshot
      run_attempt-GivesBack p same on =
          let q = counted stages input p in
          let ran =
            stages.run_generate_stage q.attempts (choice stages input q) q.latest_prompt
              (snapshot start).1 in
          after_step-GivesBack stages _ _ _ (
            rw on (
              after_step-GivesBack stages _ _ _ (
                after_step-GivesBack stages _ _ _ (
                  and_then-GivesBack ran
                    (validate_part stages input q (mark_of start.state) (some (snapshot start).0))
                    (polite.generates q.attempts (choice stages input q) q.latest_prompt
                      (snapshot start).1 (snapshot-AreNumbered start room v))
                    (λ finding c f.
                      validate_part-GivesBack q (mark_of start.state) finding c same f)))))

module _ {Db : Type 0} (stages : Stages Db) (input : LoopInput) where
  -- Attempts that failed and were followed by another, one after the other.
  pub data Repairs (p : Progress) (start : Chain Db) : Progress → Chain Db → Type 0 where
    untried : Repairs p start p start
    retried :
        {q q' : Progress} {c c' : Chain Db}
        → Repairs p start q c
        → c.state.next_snapshot + 1 < u64_mod
        → run_attempt stages input q c ≡ (c', ok (q', false))
        → q'.attempts_this_cycle < input.max_attempts
        → Repairs p start q' c'

  once-IsBack :
      (q q' : Progress) (c c' : Chain Db)
      → ArePolite stages
      → snapshot_per_attempt input.spec ≡ true
      → AreNumbered c
      → c.state.next_snapshot + 1 < u64_mod
      → run_attempt stages input q c ≡ (c', ok (q', false))
      → q'.attempts_this_cycle < input.max_attempts
      → IsBack c c' × (told_reverted q'.latest_prompt ≡ true)
  once-IsBack q q' c c' polite on v room run more =
      subst (GivesBack c input.max_attempts) run
        (run_attempt-GivesBack c room v input.max_attempts stages polite input q refl on) more

  IsBack-trans : (a b c : Chain Db) → IsBack a b → IsBack b c → IsBack a c
  IsBack-trans a b c f g = record {
    numbered = g.numbered;
    state =
        g.state
        ∙ ap (λ (s : ChainState Db). record s { next_snapshot = c.state.next_snapshot }) f.state;
    snapshots = g.snapshots ∙ f.snapshots;
  }

  Repairs-IsBack :
      (p : Progress) (start : Chain Db)
      → ArePolite stages
      → snapshot_per_attempt input.spec ≡ true
      → AreNumbered start
      → {q : Progress} {c : Chain Db} → Repairs p start q c
      → IsBack start c
  Repairs-IsBack p start polite on v untried = record {
    numbered = v;
    state = refl;
    snapshots = refl;
  }
  Repairs-IsBack p start polite on v (retried {q} {q'} {c} {c'} before room run more) =
      let back = Repairs-IsBack p start polite on v before in
      IsBack-trans start c c' back (once-IsBack q q' c c' polite on back.numbered room run more).0

  -- Where the recipe takes a snapshot for each attempt, where the stages of an attempt revert to no
  -- snapshot older than the attempt (they may take and revert to snapshots of their own), and where
  -- the counter of snapshot ids has room: however many attempts have failed since the loop stood at
  -- `start`, when one fails and another follows, that one begins on the chain of `start` with its
  -- snapshots, but for the counter of snapshot ids; and its prompt says that the chain was reverted.
  pub run_attempt-IsBack :
      (p q q' : Progress) (start c c' : Chain Db)
      → ArePolite stages
      → snapshot_per_attempt input.spec ≡ true
      → AreNumbered start
      → Repairs p start q c
      → c.state.next_snapshot + 1 < u64_mod
      → run_attempt stages input q c ≡ (c', ok (q', false))
      → q'.attempts_this_cycle < input.max_attempts
      → IsBack start c' × (told_reverted q'.latest_prompt ≡ true)
  run_attempt-IsBack p q q' start c c' polite on v before room run more =
      let back = Repairs-IsBack p start polite on v before in
      let (once, told) = once-IsBack q q' c c' polite on back.numbered room run more in
      (IsBack-trans start c c' back once, told)
