-- ===== src/Harness/Findings.antt =====
-- src/harness/findings.rs: findings and how they move from one attempt to the next.
pub mod Lifecycle
pub mod Cuts
use hanvil.Prelude.{
  ℕ, ◌≤◌, Bool, true, false, not, ◌&&◌, Option, none, some, List, [], ◌∷◌, ◌++◌, ◌==◌, map, Bytes,
  codes, leb, ltb, length, take, keep, if◌then◌else◌,
}
use hanvil.Word.{decimal}
use hanvil.Text.{join, has, trim_start, trim_end, trim}

pub data Category : Type 0 where
  files static secret commands agent playwright eval eval_infra chain : Category

pub data Status : Type 0 where
  still_open fixed : Status

pub record Finding : Type 0 where
  pub id : Bytes
  pub category : Category
  pub message : Bytes
  pub details : Option Bytes
  pub status : Option Status
  pub assertion : Option Bytes
  pub route : Option Bytes

pub record Delta : Type 0 where
  pub still_failing : List Bytes
  pub closed : List Bytes
  pub introduced : List Bytes

-- A finding that was carried forward as fixed is no failure.
abbrev pub is_open : Finding → Bool
is_open f = elim f.status [ none ↦ true | some s ↦ elim s [ still_open ↦ true | fixed ↦ false ] ]

-- `filter(|x| seen.insert(x))`
unfoldable pub unseen : List Bytes → List Bytes → List Bytes
unfolding has
unseen seen [] = []
unseen seen (x ∷ xs) =
    let skipped = unseen seen xs in
    let kept = unseen (x ∷ seen) xs in if has x seen then skipped else x ∷ kept

unfoldable pub finding_ids : List Finding → List Bytes
unfolding unseen
finding_ids findings = unseen [] (map (λ (f : Finding). f.id) findings)

unfoldable pub compute_delta : List Bytes → List Finding → Delta
unfolding finding_ids has
compute_delta previous_open findings =
    let current = finding_ids findings in
    record {
      still_failing = current;
      closed = keep (λ id. not (has id current)) previous_open;
      introduced = keep (λ id. not (has id previous_open)) current;
    }

abbrev pub stamped : Status → Finding → Finding
stamped s f = record f { status = some s }

-- The previous findings that were fixed, each id once.
unfoldable pub carried : List Bytes → List Bytes → List Finding → List Finding
unfolding has
carried fixed_ids seen [] = []
carried fixed_ids seen (f ∷ rest) =
    let skipped = carried fixed_ids seen rest in
    let kept = carried fixed_ids (f.id ∷ seen) rest in
    if has f.id fixed_ids && not (has f.id seen) then stamped fixed f ∷ kept else skipped

unfoldable pub apply_status : List Finding → Delta → List Finding → List Finding
unfolding carried
apply_status findings delta previous =
    map (stamped still_open) findings ++ carried delta.closed [] previous

abbrev part : List Bytes → Bytes → List Bytes
part [] label = []
part (x ∷ xs) label = (decimal (length (x ∷ xs)) ++ label) ∷ []

unfoldable pub format_delta : Delta → Bytes
unfolding decimal
format_delta delta =
    if length delta.still_failing == 0 && length delta.closed == 0
    then codes "no findings"
    else join (
        (decimal (length delta.still_failing) ++ codes " open")
        ∷ (part delta.closed (codes " fixed") ++ part delta.introduced (codes " new")))

-- Trimmed, then cut at `most` characters with dots behind.
unfoldable pub truncate_to : Bytes → ℕ → Bytes
unfolding trim_start trim_end
truncate_to text most =
    if leb (length (trim text)) most then trim text else take most (trim text) ++ codes "..."
