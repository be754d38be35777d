-- ===== src/Wire/Precheck/Once.antt =====
-- `submit` answers, and takes a transaction id once.
use hanvil.Prelude.{
  arith, ◌+◌, ◌<◌, length, ◌≡◌, ◌≢◌, refl, ◌∙◌, ap, sym, Bool, true, false, none, some, [],
}
use hanvil.Prelude.Result.{Result, ok, err, value, error, outcome}
use hanvil.Word.{u64_mod}
use hanvil.Time.{Timestamp}
use hanvil.Records.{Transaction, Record, Rejection}
use hanvil.Records.Responses.{Status}
use hanvil.Evm.{Externals}
use hanvil.Chain.{ChainState, hapi_record, has_transaction_id}
use hanvil.Chain.Refusals.{reject, rejections_seen}
use hanvil.Chain.Refusals.Bounds.{reject_keeps_newest}
use hanvil.Chain.Apply.{apply_hapi}
use hanvil.Chain.Apply.Filing.{apply_hapi_filed}
use hanvil.Wire.{transaction_id}
use hanvil.Wire.Proto.{Protobuf, Envelope, SignedTransaction, TransactionBody}
use hanvil.Wire.Signatures.{Curves}
use hanvil.Wire.Precheck.{identify, precheck, submit}
use hanvil.Wire.Precheck.Gate.{IsAccepted, precheck-IsAccepted}

ok_eq : {A : Type 0} (a b : A) → (let m : Result Status A = ok a in m ≡ ok b) → a ≡ b
ok_eq a b h = cc

some_eq : {A : Type 0} (a b : A) → some a ≡ some b → a ≡ b
some_eq a b h = cc

never_ok : (e : Status) (r : Record) → (let m : Result Status Record = err e in m ≢ ok r)
never_ok e r h = cc

true_ne_false : true ≢ false
true_ne_false h = cc

module _ {Db : Type 0} (ext : Externals Db) (proto : Protobuf) (curves : Curves) where
  -- The refusal of an envelope, with what of it decodes.
  abbrev refusal : Envelope → Timestamp → Status → Rejection
  refusal envelope now e = record {
    at = now;
    kind = (identify proto envelope).0;
    payer = (identify proto envelope).1;
    status = some e;
    from = none;
    message = [];
  }

  submit_refused :
      (s : ChainState Db) (envelope : Envelope) (now : Timestamp) (verify : Bool) (e : Status)
      → precheck ext proto curves s envelope now verify ≡ err e
      → submit ext proto curves s envelope now verify ≡ (reject (refusal envelope now e) s, err e)
  unfolding submit
  submit_refused s envelope now verify e h = rw (h, submit) refl

  submit_accepted :
      (s : ChainState Db) (envelope : Envelope) (now : Timestamp) (verify : Bool) (tx : Transaction)
      → precheck ext proto curves s envelope now verify ≡ ok tx
      → submit ext proto curves s envelope now verify
        ≡ ((apply_hapi ext tx now s).1, ok (apply_hapi ext tx now s).0)
  unfolding submit
  submit_accepted s envelope now verify tx h = rw (h, submit) refl

  -- Two acceptances of one envelope are of one transaction id.
  same_id :
      (s s' : ChainState Db) (envelope : Envelope) (now now' : Timestamp) (verify verify' : Bool)
      (tx tx' : Transaction)
      → IsAccepted ext proto curves s envelope now verify tx
      → IsAccepted ext proto curves s' envelope now' verify' tx'
      → tx.id ≡ tx'.id
  same_id s s' envelope now now' verify verify' tx tx' a a' = some_eq _ _ (
      sym a.identified
      ∙ (ap (λ (p : SignedTransaction × TransactionBody). transaction_id p.1.transaction_id)
            (ok_eq _ _ (sym a.opened ∙ a'.opened))
          ∙ a'.identified))

  -- What an accepted envelope leaves: the transaction, and its record under its id.
  record Taken (s s' : ChainState Db) (envelope : Envelope) (now : Timestamp) (verify : Bool)
      (r : Record) : Type 0 where
    tx : Transaction
    passed : precheck ext proto curves s envelope now verify ≡ ok tx
    same : r.id ≡ tx.id
    found : hapi_record s' tx.id ≡ some r
    used : has_transaction_id s' tx.id ≡ true

  submit-Taken :
      (s s' : ChainState Db) (envelope : Envelope) (now : Timestamp) (verify : Bool) (r : Record)
      → submit ext proto curves s envelope now verify ≡ (s', ok r)
      → Taken s s' envelope now verify r
  submit-Taken s s' envelope now verify r h =
      elim (outcome (precheck ext proto curves s envelope now verify)) [
        | error e eq ↦
            absurd
              (never_ok e r (ap (λ x. x.1) (sym (submit_refused s envelope now verify e eq) ∙ h)))
        | value tx eq ↦
            (let (id, found, used) = apply_hapi_filed ext tx now s in
              let both = sym (submit_accepted s envelope now verify tx eq) ∙ h in
              let state = ap (λ x. x.0) both in
              let answer = ok_eq (apply_hapi ext tx now s).0 r (ap (λ x. x.1) both) in
              record {
                tx = tx;
                passed = eq;
                same = ap (λ x. x.id) (sym answer) ∙ id;
                found = ap (λ x. hapi_record x tx.id) (sym state) ∙ (found ∙ ap some answer);
                used = ap (λ x. has_transaction_id x tx.id) (sym state) ∙ used;
              })
      ]

  taken_again :
      (s s' : ChainState Db) (envelope : Envelope) (now later : Timestamp)
      (verify verify_later : Bool) (tx tx' : Transaction)
      → precheck ext proto curves s envelope now verify ≡ ok tx
      → has_transaction_id s' tx.id ≡ true
      → precheck ext proto curves s' envelope later verify_later ≢ ok tx'
  taken_again s s' envelope now later verify verify_later tx tx' h used h' =
      let a = precheck-IsAccepted ext proto curves s envelope now verify tx h in
      let a' = precheck-IsAccepted ext proto curves s' envelope later verify_later tx' h' in
      let e = same_id s s' envelope now later verify verify_later tx tx' a a' in
      true_ne_false (sym used ∙ (ap (has_transaction_id s') e ∙ a'.new))

  -- Whatever `submit` does with an envelope that it accepts, the record that it answers with is
  -- found under that record's id, and a second submission of the envelope to the state reached, at
  -- any time and whether or not signatures are verified, is answered with an error.
  pub submit_once :
      (s s' : ChainState Db) (envelope : Envelope) (now later : Timestamp)
      (verify verify_later : Bool) (r : Record)
      → submit ext proto curves s envelope now verify ≡ (s', ok r)
      → (hapi_record s' r.id ≡ some r)
        × ((e : Status) × ((submit ext proto curves s' envelope later verify_later).1 ≡ err e))
  submit_once s s' envelope now later verify verify_later r h =
      let taken = submit-Taken s s' envelope now verify r h in
      (
        ap (hapi_record s') taken.same ∙ taken.found,
        elim (outcome (precheck ext proto curves s' envelope later verify_later)) [
          | error e eq ↦ (e, ap (λ x. x.1) (submit_refused s' envelope later verify_later e eq))
          | value tx' eq ↦ absurd (
              taken_again s s' envelope now later verify verify_later taken.tx tx' taken.passed
                taken.used eq)
        ],
      )

  reject_keeps :
      (r : Rejection) (s : ChainState Db)
      → ((reject r s).accounts ≡ s.accounts)
        × ((reject r s).hapi_records ≡ s.hapi_records)
        × ((reject r s).last_consensus ≡ s.last_consensus)
  unfolding reject
  reject_keeps r s = (ground arith, ground arith, ground arith)

  err_eq : (a b : Status) → (let m : Result Status Record = err a in m ≡ err b) → a ≡ b
  err_eq a b h = cc

  -- Where the count of refusals seen has room for one more in a u64: an envelope that `submit`
  -- answers with an error has failed a precheck with that status, leaves the accounts, the records
  -- and the last consensus timestamp as they were, and is counted as one more refusal.
  pub submit_error :
      (s s' : ChainState Db) (envelope : Envelope) (now : Timestamp) (verify : Bool) (e : Status)
      → s.rejections_dropped + length s.rejections + 1 < u64_mod
      → submit ext proto curves s envelope now verify ≡ (s', err e)
      → (precheck ext proto curves s envelope now verify ≡ err e)
        × (s'.accounts ≡ s.accounts)
        × (s'.hapi_records ≡ s.hapi_records)
        × (s'.last_consensus ≡ s.last_consensus)
        × (rejections_seen s' ≡ rejections_seen s + 1)
  submit_error s s' envelope now verify e room h =
      elim (outcome (precheck ext proto curves s envelope now verify)) [
        | value tx eq ↦ absurd (
            never_ok e (apply_hapi ext tx now s).0
              (ap (λ x. x.1) (sym h ∙ submit_accepted s envelope now verify tx eq)))
        | error e' eq ↦
            (let both = sym (submit_refused s envelope now verify e' eq) ∙ h in
              let state = ap (λ x. x.0) both in
              let kept = reject_keeps (refusal envelope now e') s in
              (
                eq ∙ ap err (err_eq e' e (ap (λ x. x.1) both)),
                ap (λ x. x.accounts) (sym state) ∙ kept.0,
                ap (λ x. x.hapi_records) (sym state) ∙ kept.1,
                ap (λ x. x.last_consensus) (sym state) ∙ kept.2,
                ap rejections_seen (sym state)
                    ∙ (reject_keeps_newest (refusal envelope now e') s room).1,
              ))
      ]
