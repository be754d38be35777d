-- ===== src/Chain/Apply/Books.antt =====
-- The steps that the HAPI bodies are made of keep the books of a chain: its supply and its ids.
use hanvil.Prelude.{
  ◌+◌, ◌≤◌, ◌<◌, ◌≡◌, refl, ◌∙◌, ap, true, false, Option, none, some, List, arith, ◌==◌, is_some,
  Option-cases, inl, inr,
}
use hanvil.Prelude.Result.{Result, ok, err}
use hanvil.Word.{u64_mod}
use hanvil.Maps.BTreeMap
use hanvil.Maps.Totals.{total-insert_old}
use hanvil.Units.{Tinybar}
use hanvil.Accounts.{EntityId, Account}
use hanvil.Records.{Record, Transfer}
use hanvil.Records.Responses.{Status}
use hanvil.Chain.{ChainState, fee_collector, balance_of, is_live}
use hanvil.Chain.Supply.{supply, IsSound, Conserves}
use hanvil.Chain.Supply.Opening.{
  opened, opened-supply, opened-fresh, opened-is_some, opened_next_id,
}
use hanvil.Chain.Transfers.{move_tinybar}
use hanvil.Chain.Transfers.Moves.{move_tinybar-supply, move_tinybar_ids, move_tinybar-is_some}
use hanvil.Chain.Apply.{settle, mark_deleted}

missing_of_test : (o : Option Account) → is_some o ≡ false → o ≡ none
missing_of_test o h = ground arith

module _ {Db : Type 0} where
  -- A step that leaves the accounts and the id counter alone.
  pub keep_books :
      (s s' : ChainState Db)
      → s'.accounts ≡ s.accounts
      → s'.next_id ≡ s.next_id
      → IsSound s
      → Conserves s s'
  keep_books s s' e f v = record {
    same = rw e;
    sound = record {
      fresh = rw (e, f) v.fresh;
      user_ids = rw f v.user_ids;
      collector = rw e v.collector;
      bounded = rw e v.bounded;
    };
  }

  pub then-Conserves : {s t u : ChainState Db} → Conserves s t → Conserves t u → Conserves s u
  then-Conserves c d = record { same = d.same ∙ c.same; sound = d.sound }

  pub move_tinybar-Conserves :
      (from to : EntityId) (amount : Tinybar) (s : ChainState Db) (legs : List Transfer)
      (a : Account)
      → IsSound s
      → BTreeMap.get from s.accounts ≡ some a
      → amount ≤ a.balance
      → is_some (BTreeMap.get to s.accounts) ≡ true
      → Conserves s (move_tinybar from to amount s legs).0
  move_tinybar-Conserves from to amount s legs a v h covered target = record {
    same = move_tinybar-supply from to amount s legs a h covered target v.bounded;
    sound = record {
      fresh = λ i k. missing_of_test _ (
          move_tinybar-is_some from to amount s legs i
          ∙ ap is_some (v.fresh i (omega (arith, k, move_tinybar_ids from to amount s legs))));
      user_ids = rw (move_tinybar_ids from to amount s legs) v.user_ids;
      collector = move_tinybar-is_some from to amount s legs fee_collector ∙ v.collector;
      bounded = omega (
        arith,
        v.bounded,
        move_tinybar-supply from to amount s legs a h covered target v.bounded,
      );
    };
  }

  pub opened-Conserves :
      (a : Account) (s : ChainState Db)
      → IsSound s
      → a.id ≡ s.next_id
      → a.balance ≡ 0
      → s.next_id + 1 < u64_mod
      → Conserves s (opened a s)
  opened-Conserves a s v e zero_balance room = record {
    same = omega (arith, added);
    sound = record {
      fresh = opened-fresh a s e v.user_ids room v.fresh;
      user_ids = omega (arith, opened_next_id a s e v.user_ids room, v.user_ids);
      collector = opened-is_some a s fee_collector v.collector;
      bounded = omega (arith, added, v.bounded);
    };
  }
    where
      added : supply (opened a s) ≡ supply s + a.balance
      added = opened-supply a s e v.user_ids room v.fresh

  -- An error of a body leaves the state alone.
  pub settle-Conserves :
      (s : ChainState Db) (r : Record) (m : Result Status (ChainState Db × Record))
      → IsSound s
      → ((p : ChainState Db × Record) → m ≡ ok p → Conserves s p.0)
      → Conserves s (settle s r m).0
  settle-Conserves s r (ok (s', r')) v h = h (s', r') refl
  settle-Conserves s r (err e) v h = record { same = refl; sound = v }

  pub get-mark_deleted :
      (i j : EntityId) (s : ChainState Db)
      → is_some (BTreeMap.get j (mark_deleted i s).accounts) ≡ is_some (BTreeMap.get j s.accounts)
  unfolding mark_deleted
  get-mark_deleted i j s = elim (Option-cases (BTreeMap.get i s.accounts)) [
    | inl e ↦ rw (e, mark_deleted) refl
    | inr (a, e) ↦
        ground (arith, e, BTreeMap.get-insert i (record a { deleted = true }) s.accounts j)
  ]

  pub mark_deleted-supply :
      (i : EntityId) (s : ChainState Db) → supply (mark_deleted i s) ≡ supply s
  unfolding mark_deleted
  mark_deleted-supply i s = elim (Option-cases (BTreeMap.get i s.accounts)) [
    | inl e ↦ rw (e, mark_deleted) refl
    | inr (a, e) ↦
        rw (e, mark_deleted)
          (omega (
            arith,
            total-insert_old (λ b. b.balance) i (record a { deleted = true }) a s.accounts e,
          ))
  ]

  pub mark_deleted_ids : (i : EntityId) (s : ChainState Db) → (mark_deleted i s).next_id ≡ s.next_id
  unfolding mark_deleted
  mark_deleted_ids i s = ground arith

  pub mark_deleted-Conserves :
      (i : EntityId) (s : ChainState Db) → IsSound s → Conserves s (mark_deleted i s)
  mark_deleted-Conserves i s v = record {
    same = mark_deleted-supply i s;
    sound = record {
      fresh = λ j k.
          missing_of_test _
            (get-mark_deleted i j s ∙ ap is_some (v.fresh j (omega (arith, mark_deleted_ids i s))));
      user_ids = rw (mark_deleted_ids i s) v.user_ids;
      collector = get-mark_deleted i fee_collector s ∙ v.collector;
      bounded = omega (arith, v.bounded, mark_deleted-supply i s);
    };
  }

  pub skip_id :
      (s s' : ChainState Db)
      → s'.accounts ≡ s.accounts
      → s'.next_id ≡ s.next_id + 1
      → IsSound s
      → Conserves s s'
  skip_id s s' e f v = record {
    same = rw e;
    sound = record {
      fresh = λ i k. rw e (v.fresh i (omega (arith, f, k)));
      user_ids = omega (arith, f, v.user_ids);
      collector = rw e v.collector;
      bounded = rw e v.bounded;
    };
  }

  pub fresh_ne :
      (s : ChainState Db) (j : EntityId) (a : Account)
      → IsSound s
      → BTreeMap.get j s.accounts ≡ some a
      → (s.next_id == j) ≡ false
  fresh_ne s j a v h = ground (arith, v.fresh j, h)

  pub payer_of :
      (s : ChainState Db) (i : EntityId)
      → is_some (BTreeMap.get i s.accounts) ≡ true
      → (a : Account) × (BTreeMap.get i s.accounts ≡ some a) × (balance_of s i ≡ a.balance)
  unfolding balance_of
  payer_of s i h = ground arith

  pub live_is_some :
      (s : ChainState Db) (i : EntityId)
      → is_live s i ≡ true
      → is_some (BTreeMap.get i s.accounts) ≡ true
  unfolding is_live
  live_is_some s i h = ground arith
