-- ===== src/Harness/Findings/Lifecycle.antt =====
-- What an attempt opened, closed and left open.
use hanvil.Prelude.{
  ◌≡◌, refl, ◌∙◌, ap, false, not, ◌&&◌, some, List, [], ◌∷◌, ◌++◌, map, Bytes, All, arith, ◌⊎◌, inl,
  inr, Bool-cases,
}
use hanvil.Text.{has, same_text_refl, has-same, has-keep}
use hanvil.Harness.Findings.{
  Finding, Delta, still_open, fixed, unseen, finding_ids, compute_delta, carried, apply_status,
}

abbrev pub ids : List Finding → List Bytes
ids = map λ f. f.id

-- No text twice.
abbrev pub AreUnique : List Bytes → Type 0
AreUnique [] = Unit {0}
AreUnique (x ∷ xs) = (has x xs ≡ false) × AreUnique xs

has-unseen :
    (y : Bytes) (seen xs : List Bytes) → has y (unseen seen xs) ≡ (has y xs && not (has y seen))
unfolding has unseen
has-unseen y seen [] = refl
has-unseen y seen (x ∷ xs) =
    grind (arith, has-unseen y seen xs, has-unseen y (x ∷ seen) xs, has-same y x seen)

unseen-AreUnique : (seen xs : List Bytes) → AreUnique (unseen seen xs)
unfolding has unseen
unseen-AreUnique seen [] = tt
unseen-AreUnique seen (x ∷ xs) = ground (
  arith,
  unseen-AreUnique seen xs,
  unseen-AreUnique (x ∷ seen) xs,
  has-unseen x (x ∷ seen) xs,
  same_text_refl x,
)

has-finding_ids : (id : Bytes) (fs : List Finding) → has id (finding_ids fs) ≡ has id (ids fs)
unfolding finding_ids has
has-finding_ids id fs = ground (arith, has-unseen id [] (ids fs))

-- Each attempt's findings against the ids that were open before: an id is open if a finding has
-- it, closed if it was open and no finding has it, introduced if a finding has it and it was not
-- open; and no id is open twice.
pub compute_delta_lem :
    (previous : List Bytes) (findings : List Finding) (id : Bytes)
    → (has id (compute_delta previous findings).still_failing ≡ has id (ids findings))
      × (has id (compute_delta previous findings).closed
          ≡ (has id previous && not (has id (ids findings))))
      × (has id (compute_delta previous findings).introduced
          ≡ (has id (ids findings) && not (has id previous)))
      × AreUnique (compute_delta previous findings).still_failing
unfolding compute_delta
compute_delta_lem previous findings id = (
  has-finding_ids id findings,
  has-keep (λ i. not (has i (finding_ids findings))) id previous
      ∙ ap (λ b. has id previous && not b) (has-finding_ids id findings),
  has-keep (λ i. not (has i previous)) id (finding_ids findings)
      ∙ ap (λ b. b && not (has id previous)) (has-finding_ids id findings),
  unfold finding_ids in unseen-AreUnique [] (ids findings),
)

has-carried :
    (y : Bytes) (fixed_ids seen : List Bytes) (fs : List Finding)
    → has y (ids (carried fixed_ids seen fs))
      ≡ (has y (ids fs) && (has y fixed_ids && not (has y seen)))
unfolding has carried
has-carried y fixed_ids seen [] = refl
has-carried y fixed_ids seen (f ∷ fs) = grind (
  arith,
  has-carried y fixed_ids seen fs,
  has-carried y fixed_ids (f.id ∷ seen) fs,
  has-same y f.id seen,
  has-same y f.id fixed_ids,
)

carried-AreUnique :
    (fixed_ids seen : List Bytes) (fs : List Finding) → AreUnique (ids (carried fixed_ids seen fs))
unfolding has carried
carried-AreUnique fixed_ids seen [] = tt
carried-AreUnique fixed_ids seen (f ∷ fs) = ground (
  arith,
  carried-AreUnique fixed_ids seen fs,
  carried-AreUnique fixed_ids (f.id ∷ seen) fs,
  has-carried f.id fixed_ids (f.id ∷ seen) fs,
  same_text_refl f.id,
)

-- One of the findings, in all but the status, which is fixed.
abbrev pub IsFixedOf : List Finding → Finding → Type 0
IsFixedOf [] f = ⊥
IsFixedOf (g ∷ gs) f = (f ≡ record g { status = some fixed }) ⊎ IsFixedOf gs f

All-imp :
    (P Q : Finding → Type 0) (fs : List Finding) → ((f : Finding) → P f → Q f) → All P fs → All Q fs
All-imp P Q [] on h = tt
All-imp P Q (f ∷ fs) on h = (on f h.0, All-imp P Q fs on h.1)

carried-IsFixedOf :
    (fixed_ids seen : List Bytes) (fs : List Finding)
    → All (IsFixedOf fs) (carried fixed_ids seen fs)
unfolding carried
carried-IsFixedOf fixed_ids seen [] = tt
carried-IsFixedOf fixed_ids seen (f ∷ fs) =
    let behind : (s : List Bytes) → All (IsFixedOf (f ∷ fs)) (carried fixed_ids s fs) = λ s.
      All-imp (IsFixedOf fs) (IsFixedOf (f ∷ fs)) (carried fixed_ids s fs) (λ g h. inr h)
        (carried-IsFixedOf fixed_ids s fs) in
    elim (Bool-cases (has f.id fixed_ids && not (has f.id seen))) [
      | inl taken ↦ rw (carried, taken) (inl refl, behind (f.id ∷ seen))
      | inr left ↦ rw (carried, left) (behind seen)
    ]

-- The findings that an attempt reports are its own, in their order, with the status open and all
-- else as it was, and behind them previous findings, each with the status fixed and all else as it
-- was: an id is among those if it was closed and a previous finding has it, and no id is among
-- them twice.
pub apply_status_lem :
    (findings previous : List Finding) (delta : Delta)
    → (behind : List Finding) × (apply_status findings delta previous
        ≡ map (λ (f : Finding). record f { status = some still_open }) findings ++ behind)
      × All (IsFixedOf previous) behind
      × ((id : Bytes) → has id (ids behind) ≡ (has id (ids previous) && has id delta.closed))
      × AreUnique (ids behind)
unfolding apply_status
apply_status_lem findings previous delta = (
  carried delta.closed [] previous,
  refl,
  carried-IsFixedOf delta.closed [] previous,
  (λ id. has-carried id delta.closed [] previous ∙ unfold has in ground arith),
  carried-AreUnique delta.closed [] previous,
)
