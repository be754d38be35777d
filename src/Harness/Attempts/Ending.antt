-- ===== src/Harness/Attempts/Ending.antt =====
-- The repair loop comes to an end.
use hanvil.Prelude.{
  ℕ, zero, suc, ◌+◌, ◌≤◌, ◌<◌, ◌≡◌, refl, sym, subst, arith, Bool, true, false, ◌||◌, Option, none,
  some, Bytes, ltb, if◌then◌else◌, Bool-cases, inl, inr,
}
use hanvil.Prelude.Result.{Result, ok, err, value, error, outcome}
use hanvil.Word.{u64_mod, add_u64, saturating_sub}
use hanvil.Chain.{Chain}
use hanvil.Chain.Snapshots.{snapshot}
use hanvil.Harness.Stages.{
  ValidationResult, infra_abort, Stage, Step, Stages, run_validation_stages, after_step,
  prompt_built, run_finished,
}
use hanvil.Harness.Stages.Errors.{
  and_then-all, going_on-all, Raised, by_generate, by_step, run_validation_stages-Blames,
}
use hanvil.Harness.Findings.{Finding}
use hanvil.Harness.Ledger.{Mark}
use hanvil.Harness.Attempts.{
  LoopInput, Progress, first_progress, settle_attempt, judged, counted, choice, repeats, judge_part,
  validate_part, snapshot_per_attempt, run_attempt, attempts_from, RunReport, finish_run, reported,
  run_loop, generate_part, attempted, repaired, tried, noted,
}

-- A validation that the loop breaks at.
abbrev pub breaks : ValidationResult → Bool
breaks v = infra_abort v || v.passed

-- An attempt keeps the counts it began with, and breaks on nothing but its validation.
abbrev Keeps : {Db : Type 0} → Stages Db → Progress → Result Bytes (Progress × Bool) → Type 0
Keeps stages p (err e) = Raised stages e
Keeps stages p (ok (q, broke)) =
    (q.attempts ≡ p.attempts)
    × (q.attempts_this_cycle ≡ p.attempts_this_cycle)
    × (broke ≡ breaks q.validation)

module _ {Db : Type 0} (stages : Stages Db) where
  -- A step between the stages keeps what the stages after it keep.
  after_step-Keeps :
      (p : Progress) (step : Step) (next : Stage Db (Progress × Bool)) (c : Chain Db)
      → Keeps stages p (next c).1
      → Keeps stages p (after_step stages step next c).1
  after_step-Keeps p step next c =
      going_on-all (λ o. Keeps stages p o.1) (stages.between step c) next c (λ e. by_step step c)

  repaired-Keeps :
      (id : Option ℕ) (repeated : Option Bytes) (p : Progress) (c : Chain Db)
      → breaks p.validation ≡ false
      → Keeps stages p (repaired stages id repeated p c).1
  repaired-Keeps none repeated p c goes = after_step-Keeps p _ _ _ (refl, refl, sym goes)
  repaired-Keeps (some i) repeated p c goes =
      after_step-Keeps p _ _ _ (after_step-Keeps p _ _ _ (refl, refl, sym goes))

  module _ (most : ℕ) (id : Option ℕ) (repeated : Option Bytes) (p : Progress) where
    if-Keeps :
        (b : Bool) (one two : Chain Db × Result Bytes (Progress × Bool))
        → (b ≡ true → Keeps stages p one.1)
        → (b ≡ false → Keeps stages p two.1)
        → Keeps stages p (if b then one else two).1
    if-Keeps true one two t f = t refl
    if-Keeps false one two t f = f refl

    tried-Keeps :
        (c : Chain Db)
        → infra_abort p.validation ≡ false
        → Keeps stages p (tried stages most id repeated p c).1
    tried-Keeps c tools =
        if-Keeps p.validation.passed _ _ (λ passed. (refl, refl, sym (rw (tools, passed) refl)))
          (λ fails.
            let goes : breaks p.validation ≡ false = rw (tools, fails) refl in
            if-Keeps (ltb p.attempts_this_cycle most) _ _
              (λ more. repaired-Keeps id repeated p c goes) (λ last. (refl, refl, sym goes)))

    noted-Keeps : (c : Chain Db) → Keeps stages p (noted stages most id repeated p c).1
    noted-Keeps c = elim (Bool-cases (infra_abort p.validation)) [
      | inl aborts ↦
          rw aborts
            (after_step-Keeps p _ _ _ (after_step-Keeps p _ _ _ (refl, refl, sym (rw aborts refl))))
      | inr tools ↦
          rw tools (after_step-Keeps p _ _ _ (after_step-Keeps p _ _ _ (tried-Keeps c tools)))
    ]

    settle_attempt-Keeps :
        (c : Chain Db) → Keeps stages p (settle_attempt stages most id repeated p c).1
    unfolding settle_attempt
    settle_attempt-Keeps c = after_step-Keeps p _ _ _ (after_step-Keeps p _ _ _ (noted-Keeps c))

module _ {Db : Type 0} (stages : Stages Db) (input : LoopInput) where
  judge_part-Keeps :
      (p : Progress) (id : Option ℕ) (v : ValidationResult) (c : Chain Db)
      → Keeps stages p (judge_part stages input p id v c).1
  unfolding judged
  judge_part-Keeps p id v c =
      settle_attempt-Keeps stages input.max_attempts id
        (repeats v.chain_ledger p.validation.chain_ledger) (judged p v) c

  validate_part-Keeps :
      (p : Progress) (mark : Mark) (id : Option ℕ) (finding : Option Finding) (c : Chain Db)
      → Keeps stages p (validate_part stages input p mark id finding c).1
  validate_part-Keeps p mark id finding c =
      and_then-all (Keeps stages p)
        (run_validation_stages stages input.spec p.attempts mark finding c)
        (judge_part stages input p id)
        (run_validation_stages-Blames stages input.spec p.attempts mark finding c)
        (judge_part-Keeps p id)

  generate_part-Keeps :
      (p : Progress) (mark : Mark) (id : Option ℕ) (c : Chain Db)
      → Keeps stages p (generate_part stages input p mark id c).1
  generate_part-Keeps p mark id c =
      and_then-all (Keeps stages p)
        (stages.run_generate_stage p.attempts (choice stages input p) p.latest_prompt c)
        (validate_part stages input p mark id)
        (λ e. by_generate p.attempts (choice stages input p) p.latest_prompt c)
        (validate_part-Keeps p mark id)

  attempted-Keeps :
      (p : Progress) (each : Bool) (c : Chain Db)
      → snapshot_per_attempt input.spec ≡ each
      → Keeps stages p (attempted stages input p c).1
  unfolding snapshot
  attempted-Keeps p true c on = rw on (
      after_step-Keeps stages p _ _ _
        (after_step-Keeps stages p _ _ _ (generate_part-Keeps p _ _ _)))
  attempted-Keeps p false c off =
      rw off (after_step-Keeps stages p _ _ _ (generate_part-Keeps p _ _ _))

  run_attempt-Keeps :
      (p : Progress) (c : Chain Db)
      → Keeps stages (counted stages input p) (run_attempt stages input p c).1
  unfolding run_attempt
  run_attempt-Keeps p c =
      after_step-Keeps stages (counted stages input p) _ _ _
        (attempted-Keeps (counted stages input p) (snapshot_per_attempt input.spec) c refl)

  -- The counts of the loop: the attempts of the project go on from where they stood.
  pub record AreCounted (p : Progress) : Type 0 where
    pub total : p.attempts ≡ saturating_sub input.starting_attempt 1 + p.attempts_this_cycle
    pub within : p.attempts_this_cycle ≤ input.max_attempts

  -- An attempt that the limit leaves room for is counted, where no count wraps around.
  counted-AreCounted :
      (p q : Progress)
      → input.starting_attempt + input.max_attempts < u64_mod
      → AreCounted p
      → p.attempts_this_cycle < input.max_attempts
      → q.attempts ≡ (counted stages input p).attempts
      → q.attempts_this_cycle ≡ (counted stages input p).attempts_this_cycle
      → (q.attempts_this_cycle ≡ p.attempts_this_cycle + 1) × AreCounted q
  unfolding add_u64
  counted-AreCounted p q room v more total this =
      let next : q.attempts_this_cycle ≡ p.attempts_this_cycle + 1 =
        omega (arith, this, more, room) in
      (
        next,
        record {
          total = omega (arith, total, next, v.total, more, room);
          within = omega (arith, next, more);
        },
      )

  -- The loop is over: it was left by a break, or its attempts are used up.
  abbrev Over : Result Bytes Progress → Type 0
  Over (err e) = Raised stages e
  Over (ok p) =
      AreCounted p × (breaks p.validation ≡ false → p.attempts_this_cycle ≡ input.max_attempts)

  attempts_from-Over :
      (fuel : ℕ) (p : Progress) (c : Chain Db)
      → input.starting_attempt + input.max_attempts < u64_mod
      → input.max_attempts < p.attempts_this_cycle + fuel
      → AreCounted p
      → (r : Result Bytes Progress) × ((attempts_from stages input fuel p c).1 ≡ some r) × Over r
  unfolding attempts_from
  attempts_from-Over zero p c room enough v = absurd (omega (arith, v.within, enough))
  attempts_from-Over (suc fuel) p c room enough v =
      elim (Bool-cases (ltb p.attempts_this_cycle input.max_attempts)) [
        | inr last ↦
            (ok p, rw (last, attempts_from) refl, (v, λ goes. ground (arith, v.within, last)))
        | inl more ↦ elim (outcome (run_attempt stages input p c).1) [
          | error e run ↦ (
            err e,
            rw (more, run, attempts_from) refl,
            subst (Keeps stages (counted stages input p)) run (run_attempt-Keeps p c),
          )
          | value (q, broke) run ↦
              (let (total, this, why) =
                  subst (Keeps stages (counted stages input p)) run (run_attempt-Keeps p c) in
                let (next, w) = counted-AreCounted p q room v (ground arith) total this in
                elim (Bool-cases broke) [
                  | inl left ↦ (ok q, rw (more, run, left, attempts_from) refl, (w, λ goes. cc))
                  | inr again ↦
                      (let (r, e, o) =
                          attempts_from-Over fuel q (run_attempt stages input p c).0 room
                            (omega (arith, next, enough)) w in
                        (r, rw (more, run, again, attempts_from) e, o))
                ])
        ]
      ]

  -- What a run reports at its end.
  pub record IsFinished (r : RunReport) : Type 0 where
    pub total : r.attempts ≡ saturating_sub input.starting_attempt 1 + r.attempts_this_cycle
    pub within : r.attempts_this_cycle ≤ input.max_attempts
    pub verdict : r.passed ≡ r.validation.passed
    pub used_up :
        r.passed ≡ false
        → infra_abort r.validation ≡ false
        → r.attempts_this_cycle ≡ input.max_attempts

  abbrev pub Ended : Result Bytes RunReport → Type 0
  Ended (err e) = Raised stages e
  Ended (ok r) = IsFinished r

  reported-Ended :
      (r : Result Bytes Progress) (run : Chain Db × Option (Result Bytes Progress))
      → run.1 ≡ some r
      → Over r
      → (r' : Result Bytes RunReport) × ((reported stages input run).1 ≡ some r') × Ended r'
  reported-Ended r (c', none) e o = cc
  reported-Ended (ok q) (c', some (err text)) e o = cc
  reported-Ended (err raised) (c', some (err text)) e o =
      let same : err raised ≡ err text = cc in (err text, refl, subst Over same o)
  reported-Ended (err text) (c', some (ok p)) e o = cc
  reported-Ended (ok q) (c', some (ok p)) e o =
      let same : q ≡ p = cc in
      let (v, used) : Over (ok p) = subst (λ x. Over (ok x)) same o in
      elim (outcome (stages.between (run_finished p.attempts p.validation) c')) [
        | error text fails ↦
            (err text, rw fails refl, by_step (run_finished p.attempts p.validation) c' fails)
        | value done written ↦ (
          ok (finish_run input p),
          rw written refl,
          record {
            total = v.total;
            within = v.within;
            verdict = refl;
            used_up = λ fails tools. used (rw (tools, fails) refl);
          },
        )
      ]

  -- Whatever the stages and the steps between them do, where the first attempt's number and the
  -- attempts allowed add up to less than 2^64: the repair loop ends within one round more than it has
  -- attempts, with an error that a stage or a step between them has raised, or with a report. The
  -- report counts the attempts of this cycle, at most as many as allowed, and those of the project
  -- from where they stood, and its verdict is that of its last validation. If it has not passed and
  -- met no failure of the tooling, the attempts are used up.
  pub run_loop_ends :
      (c : Chain Db)
      → input.starting_attempt + input.max_attempts < u64_mod
      → (r : Result Bytes RunReport) × ((run_loop (input.max_attempts + 1) stages input c).1
          ≡ some r)
        × Ended r
  unfolding run_loop
  run_loop_ends c room =
      let first = first_progress input in
      elim (outcome (stages.between (prompt_built first.latest_prompt) c)) [
        | error text fails ↦ (
          err text,
          rw (fails, run_loop) refl,
          by_step (prompt_built first.latest_prompt) c fails,
        )
        | value done built ↦
            (let (r, e, o) =
                attempts_from-Over (input.max_attempts + 1) first c room (omega arith)
                  (record { total = omega arith; within = omega arith }) in
              let (r', e', ended) =
                reported-Ended r (attempts_from stages input (input.max_attempts + 1) first c) e
                  o in
              (r', rw (built, run_loop) e', ended))
      ]
