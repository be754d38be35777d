-- ===== src/Tests/Keeping.antt =====
-- Filters, snapshots, refusals and units on sample values.
use hanvil.Prelude.{
  ℕ, ◌+◌, ◌-◌, ◌<◌, ◌≤◌, ◌≡◌, ◌≢◌, ◌↔◌, refl, arith, true, some, none, List, [], ◌∷◌, ◌++◌, map,
  length, drop, if◌then◌else◌, ◌==◌,
}
use hanvil.Prelude.Result.{ok}
use hanvil.Word.{u64_mod}
use hanvil.Units.{to_weibar, from_weibar_floor}
use hanvil.Units.RoundTrip.{floor-to_weibar_iff}
use hanvil.Maps.BTreeMap
use hanvil.Time.{at_secs}
use hanvil.Blocks.{Filter, FilterChanges, Block}
use hanvil.Records.{Rejection}
use hanvil.Records.Responses.{Status}
use hanvil.Chain.{ChainState, Chain}
use hanvil.Chain.Refusals.{reject, rejections_seen}
use hanvil.Chain.Refusals.Bounds.{pushed, reject_keeps_newest}
use hanvil.Chain.Filters.{filter_changes}
use hanvil.Chain.Filters.Polling.{hash_of, polled, filter_changes_once}
use hanvil.Chain.Snapshots.{retain_below, snapshot, revert}
use hanvil.Chain.Snapshots.Restore.{AreNumbered, LeavesOlder, revert-snapshot}
use hanvil.Tests.Samples.{town, town_chain}

filter_found : BTreeMap.get 1 town.filters ≡ some (Filter.blocks 1)
unfolding BTreeMap.get
filter_found = refl

filter_changes_once_example :
    (filter_changes 1 town
      ≡ ok (FilterChanges.blocks (map hash_of (drop 1 town.blocks)), polled 1 town))
    × ((s' : ChainState ℕ) (mined : List Block)
        → s'.filters ≡ (polled 1 town).filters
        → s'.blocks ≡ town.blocks ++ mined
        → filter_changes 1 s' ≡ ok (FilterChanges.blocks (map hash_of mined), polled 1 s'))
filter_changes_once_example = filter_changes_once 1 1 town (omega arith) (omega arith) filter_found

abbrev emptied : ChainState ℕ
emptied = record town { accounts = []; next_snapshot = 5 }

-- Behind a second snapshot, on a state that lost its accounts.
abbrev nested : Chain ℕ
nested = record {
  state = record town { accounts = []; next_snapshot = 3 };
  snapshots =
      (1, record town { next_snapshot = 2 })
      ∷ (2, record town { accounts = []; next_snapshot = 3 })
      ∷ [];
}

town-AreNumbered : AreNumbered town_chain
town-AreNumbered = record { ordered = tt; below = tt }

nested-LeavesOlder : LeavesOlder (snapshot town_chain).1 nested
unfolding snapshot retain_below BTreeMap.insert
nested-LeavesOlder = record {
  numbered = record {
    ordered = (omega arith, (omega arith, tt));
    below = (omega arith, (omega arith, tt));
  };
  older = refl;
  counter = omega arith;
}

revert-snapshot_example :
    revert (snapshot town_chain).0 nested
    ≡ (true, record { state = record town { next_snapshot = 3 }; snapshots = [] })
revert-snapshot_example =
    revert-snapshot town_chain nested (omega arith) town-AreNumbered nested-LeavesOlder

abbrev saved : Chain ℕ
saved = record { state = emptied; snapshots = (1, town) ∷ (2, emptied) ∷ [] }

abbrev reverted : Chain ℕ
reverted = record { state = record town { next_snapshot = 5 }; snapshots = [] }

reverts : revert 1 saved ≡ (true, reverted)
unfolding revert BTreeMap.get BTreeMap.remove
reverts = refl

abbrev refusal : Rejection
refusal = record {
  at = at_secs 1_006 0;
  kind = none;
  payer = some 1002;
  status = some Status.invalid_signature;
  from = none;
  message = [];
}

abbrev full : ChainState ℕ
full = record town { rejections = refusal ∷ refusal ∷ [] }

reject_keeps_newest_example :
    ((reject refusal full).rejections ≡ (
      if full.max_rejections == 0
      then pushed refusal full
      else drop (length (pushed refusal full) - full.max_rejections) (pushed refusal full)))
    × (rejections_seen (reject refusal full) ≡ rejections_seen full + 1)
    × (full.max_rejections ≢ 0 → length (reject refusal full).rejections ≤ full.max_rejections)
reject_keeps_newest_example = reject_keeps_newest refusal full (omega arith)

floor-to_weibar_iff_example :
    (from_weibar_floor 30_000_000_001 ≡ ok 3)
    ↔ ((3 < u64_mod) × (to_weibar 3 ≤ 30_000_000_001) × (30_000_000_001 < to_weibar (3 + 1)))
floor-to_weibar_iff_example = floor-to_weibar_iff 30_000_000_001 3
