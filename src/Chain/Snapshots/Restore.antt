-- ===== src/Chain/Snapshots/Restore.antt =====
-- A snapshot that is reverted to restores the state, whatever newer snapshots came and went.
use hanvil.Prelude.{
  ◌∙◌, sym, ap, some, ℕ, ◌+◌, ◌≤◌, ◌<◌, ◌≡◌, refl, true, false, [], ◌∷◌, none, arith,
}
use hanvil.Word.{add_u64}
use hanvil.Maps.BTreeMap.{BTreeMap, get, insert, remove, get-insert_self, Above}
use hanvil.Chain.{ChainState, Chain}
use hanvil.Chain.Snapshots.{retain_below, snapshot, revert}
use hanvil.Prelude.{subst}
use hanvil.Word.{u64_mod}
use hanvil.Maps.BTreeMap.{insert-Above}
use hanvil.Chain.Snapshots.Retained.{
  Below, retain_below_all, remove-insert_top, retain_below-retain_below, retain_below-remove,
  get-retain_below, Below-mono,
}

add_u64_room : (n : ℕ) → n + 1 < u64_mod → add_u64 n 1 ≡ n + 1
unfolding add_u64
add_u64_room n room = omega (arith, room)

insert-Below :
    {V : Type 0} (b n : ℕ) (v : V) (m : BTreeMap V) → n < b → Below b m → Below b (insert n v m)
unfolding insert
insert-Below b n v [] lt h = (lt, tt)
insert-Below b n v ((j, w) ∷ m) lt h = ground (arith, insert-Below b n v m lt h.1)

module _ {Db : Type 0} where
  -- The ids handed out so far are below the counter.
  abbrev pub HasOldSnapshots : Chain Db → Type 0
  HasOldSnapshots c = Below c.state.next_snapshot c.snapshots

  -- Snapshots in the order of their ids, all below the counter.
  pub record AreNumbered (c : Chain Db) : Type 0 where
    pub ordered : Above 0 c.snapshots
    pub below : HasOldSnapshots c

  -- What was done between two chains: new snapshots may be there, and the older ones are as they
  -- were, so that none of them was reverted to.
  pub record LeavesOlder (before after : Chain Db) : Type 0 where
    pub numbered : AreNumbered after
    pub older : retain_below before.state.next_snapshot after.snapshots ≡ before.snapshots
    pub counter : before.state.next_snapshot ≤ after.state.next_snapshot

  pub LeavesOlder-trans : (a b c : Chain Db) → LeavesOlder a b → LeavesOlder b c → LeavesOlder a c
  LeavesOlder-trans a b c f g = record {
    numbered = g.numbered;
    older =
        sym (
          retain_below-retain_below a.state.next_snapshot b.state.next_snapshot c.snapshots
            f.counter)
        ∙ (ap (retain_below a.state.next_snapshot) g.older ∙ f.older);
    counter = omega (arith, f.counter, g.counter);
  }

  pub snapshot-AreNumbered :
      (c : Chain Db)
      → c.state.next_snapshot + 1 < u64_mod
      → AreNumbered c
      → AreNumbered (snapshot c).1
  unfolding snapshot
  snapshot-AreNumbered c room v =
      let n = c.state.next_snapshot in
      let copy : ChainState Db = record (c.state) { next_snapshot = add_u64 n 1 } in
      record {
        ordered = insert-Above 0 n copy c.snapshots (omega arith) v.ordered;
        below =
            subst (λ b. Below b (insert n copy c.snapshots)) (sym (add_u64_room n room))
              (insert-Below (n + 1) n copy c.snapshots (omega arith)
                (Below-mono n (n + 1) c.snapshots (omega arith) v.below));
      }

  -- Where snapshots stand in the order of their ids, below the counter, which has room for one more:
  -- after `evm_snapshot`, let the state change to any other, and let newer snapshots be taken,
  -- reverted to and forgotten, but neither this one nor an older one. `evm_revert` to the id
  -- succeeds, and gives back every field of the state at the snapshot but the counter of snapshot
  -- ids, which is not set back, and the map of snapshots as it was before.
  pub revert-snapshot :
      (c after : Chain Db)
      → c.state.next_snapshot + 1 < u64_mod
      → AreNumbered c
      → LeavesOlder (snapshot c).1 after
      → revert (snapshot c).0 after ≡ (
        true,
        record {
          state = record (c.state) { next_snapshot = after.state.next_snapshot };
          snapshots = c.snapshots;
        },
      )
  unfolding snapshot revert
  revert-snapshot c after room v f =
      let n = c.state.next_snapshot in
      let copy : ChainState Db = record (c.state) { next_snapshot = add_u64 n 1 } in
      let up : add_u64 n 1 ≡ n + 1 = add_u64_room n room in
      let kept : retain_below (n + 1) after.snapshots ≡ insert n copy c.snapshots =
        subst (λ k. retain_below k after.snapshots ≡ insert n copy c.snapshots) up f.older in
      let found : get n after.snapshots ≡ some copy =
        sym (get-retain_below n (n + 1) 0 after.snapshots (omega arith) f.numbered.ordered)
        ∙ (ap (get n) kept ∙ get-insert_self n copy c.snapshots) in
      let rest : retain_below n (remove n after.snapshots) ≡ c.snapshots =
        retain_below-remove n after.snapshots
        ∙ (sym (retain_below-retain_below n (n + 1) after.snapshots (omega arith))
            ∙ (ap (retain_below n) kept
                ∙ (sym (retain_below-remove n (insert n copy c.snapshots))
                    ∙ (ap (retain_below n) (remove-insert_top n copy c.snapshots v.below)
                        ∙ retain_below_all n c.snapshots v.below)))) in
      rw (found, revert, rest) refl

  pub back-AreNumbered :
      (c after : Chain Db)
      → c.state.next_snapshot + 1 < u64_mod
      → AreNumbered c
      → LeavesOlder (snapshot c).1 after
      → AreNumbered (record {
        state = record (c.state) { next_snapshot = after.state.next_snapshot };
        snapshots = c.snapshots;
      })
  unfolding snapshot
  back-AreNumbered c after room v f =
      let n = c.state.next_snapshot in
      record {
        ordered = v.ordered;
        below =
            Below-mono n after.state.next_snapshot c.snapshots
              (omega (arith, f.counter, add_u64_room n room)) v.below;
      }

module _ {ℓ} {V : Type ℓ} where
  retain_below-Below : (b : ℕ) (m : BTreeMap V) → Below b (retain_below b m)
  unfolding retain_below
  retain_below-Below b [] = tt
  retain_below-Below b ((j, w) ∷ m) = ground (arith, retain_below-Below b m)

  get-Below : (b k : ℕ) (m : BTreeMap V) → b ≤ k → Below b m → get k m ≡ none
  unfolding get
  get-Below b k [] h old = refl
  get-Below b k ((j, w) ∷ m) h old = ground (arith, get-Below b k m h old.1)

module _ {Db : Type 0} where
  -- A revert that succeeds forgets its own snapshot and every later one: reverting to any of them
  -- again is refused and changes nothing.
  revert_forgets :
      (id k : ℕ) (c c' : Chain Db) → revert id c ≡ (true, c') → id ≤ k → revert k c' ≡ (false, c')
  unfolding revert
  revert_forgets id k c c' h le = ground (
    arith,
    get-Below id k (retain_below id (remove id c.snapshots)) le
        (retain_below-Below id (remove id c.snapshots)),
  )
