-- ===== src/Tests/Histories.antt =====
-- Histories of a node.
use hanvil.Prelude.{ℕ, ◌≡◌, refl, ◌∙◌, sym, subst, arith, true, false, [], ◌∷◌, List}
use hanvil.Prelude.Result.{ok, ok_eq}
use hanvil.Maps.BTreeMap
use hanvil.Maps.HashMap
use hanvil.Word.{add_u64}
use hanvil.Time.{at_secs}
use hanvil.Records.{Transaction}
use hanvil.Chain.Genesis.{genesis, total_supply, index_records}
use hanvil.Chain.Apply.Bodies.{Fits}
use hanvil.Wire.Precheck.{precheck}
use hanvil.Chain.{Chain}
use hanvil.Chain.Snapshots.Copies.{EachHolds}
use hanvil.History.{
  Command, asked, snapshot_taken, reverted, submitted, mined, time_increased, balance_set,
  restarted, serve_all,
}
use hanvil.History.Journal.{IsOrderly, serve_all-IsOrderly}
use hanvil.History.Supply.{AreHapi, IsWhole, serve_all-supply}
use hanvil.Tests.Samples.{machine, town, codec, curves, envelope, received}
use hanvil.Tests.Births.{key_curves, small_net, born, birth}

-- One envelope, sent twice, a restart between the two, and what else a test might ask for.
abbrev busy_day : List Command
busy_day =
    asked (submitted envelope (at_secs 1_006 0))
    ∷ asked (balance_set 7 500 (at_secs 1_007 0))
    ∷ snapshot_taken
    ∷ asked restarted
    ∷ asked (submitted envelope (at_secs 1_008 0))
    ∷ asked (time_increased 60)
    ∷ reverted 1
    ∷ asked (mined (at_secs 1_009 0))
    ∷ []

pub town-IsOrderly : IsOrderly town
unfolding index_records
town-IsOrderly = record {
  indexed = refl;
  distinct = tt;
  linked = (refl, ((refl, refl, omega arith), tt));
}

abbrev town_alone : Chain ℕ
town_alone = record { state = town; snapshots = [] }

serve_all-IsOrderly_example :
    EachHolds IsOrderly (serve_all machine codec curves true busy_day town_alone)
serve_all-IsOrderly_example =
    serve_all-IsOrderly machine codec curves true busy_day town_alone
      (record { head = town-IsOrderly; copies = tt })

abbrev quiet_day : List Command
quiet_day =
    asked (submitted envelope (at_secs 1_006 0))
    ∷ snapshot_taken
    ∷ asked (mined (at_secs 1_007 0))
    ∷ reverted 0
    ∷ asked restarted
    ∷ []

abbrev newborn : Chain ℕ
newborn = record { state = born; snapshots = [] }

-- The payment passes, and fits.
rent_passes : precheck machine codec curves born envelope (at_secs 1_006 0) false ≡ ok received
unfolding genesis precheck HashMap.get BTreeMap.get BTreeMap.insert
rent_passes = refl

born_next : born.next_id ≡ 1005
unfolding genesis add_u64
born_next = refl

quiet_day-AreHapi : AreHapi machine codec curves false quiet_day newborn
quiet_day-AreHapi = (
  (λ tx h.
      subst (λ (t : Transaction). Fits t.body born) (ok_eq (sym rent_passes ∙ h))
        ((omega arith, (omega arith, tt)), omega (arith, born_next))),
  (tt, (tt, (tt, (tt, tt)))),
)

serve_all-supply_example :
    EachHolds IsWhole (serve_all machine codec curves false quiet_day newborn)
unfolding total_supply
serve_all-supply_example =
    serve_all-supply machine codec curves false key_curves small_net 0 born quiet_day birth
      (omega arith) quiet_day-AreHapi
