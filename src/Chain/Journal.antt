-- ===== src/Chain/Journal.antt =====
-- What the operations on accounts and topics leave alone: the blocks, and the HAPI records with
-- their index.
pub mod Bodies
pub mod Runs
use hanvil.Prelude.{
  ℕ, ℤ, ◌≡◌, refl, ◌∙◌, sym, ap, arith, Bool, true, false, subst, if◌then◌else◌, Option, List, [],
  ◌∷◌,
}
use hanvil.Maps.HashMap.{HashMap}
use hanvil.Units.{Tinybar, Address}
use hanvil.Time.{Timestamp}
use hanvil.Accounts.{EntityId, Account}
use hanvil.Blocks.{Block}
use hanvil.Records.{TxId, Record, Transfer}
use hanvil.Word.{unsigned_abs, to_i64, neg_i64}
use hanvil.Chain.{ChainState, insert_account, allocate_id}
use hanvil.Chain.Seal.Links.{IsLinked, LinkedFromGenesis}
use hanvil.Chain.Clock.{next_consensus, next_block_timestamp}
use hanvil.Chain.Transfers.{adjust, move_tinybar, apply_legs, create_hollow, hollow}
use hanvil.Chain.Apply.{mark_deleted}

module _ {Db : Type 0} where
  -- The records with their index, and those with the blocks.
  abbrev pub filed : ChainState Db → List Record × HashMap TxId ℕ
  filed s = (s.hapi_records, s.hapi_by_id)

  abbrev pub journal : ChainState Db → List Block × (List Record × HashMap TxId ℕ)
  journal s = (s.blocks, filed s)

  journal-adjust : (i : EntityId) (a : ℤ) (s : ChainState Db) → journal (adjust i a s) ≡ journal s
  unfolding adjust
  journal-adjust i a s = ground arith

  pub move_journal :
      (from to : EntityId) (amount : Tinybar) (s : ChainState Db) (legs : List Transfer)
      → journal (move_tinybar from to amount s legs).0 ≡ journal s
  unfolding move_tinybar
  move_journal from to amount s legs = ground (
    arith,
    journal-adjust to (to_i64 amount) (adjust from (neg_i64 (to_i64 amount)) s),
    journal-adjust from (neg_i64 (to_i64 amount)) s,
  )

  pub opened_journal :
      (a : Account) (s : ChainState Db) → journal (insert_account a (allocate_id s).1) ≡ journal s
  unfolding insert_account allocate_id
  opened_journal a s = refl

  pub mark_journal : (i : EntityId) (s : ChainState Db) → journal (mark_deleted i s) ≡ journal s
  unfolding mark_deleted
  mark_journal i s = ground arith

  pub legs_journal :
      (legs : List (EntityId × ℤ)) (s : ChainState Db) → journal (apply_legs legs s) ≡ journal s
  unfolding apply_legs
  legs_journal [] s = refl
  legs_journal ((i, amount) ∷ legs) s =
      legs_journal legs (adjust i amount s) ∙ journal-adjust i amount s

  pub hollow_journal :
      (at : Timestamp) (created : List (Address × ℤ)) (s : ChainState Db)
      → journal (create_hollow at created s).0 ≡ journal s
  unfolding create_hollow
  hollow_journal at [] s = refl
  hollow_journal at ((address, amount) ∷ rest) s =
      let a = hollow s.next_id address (unsigned_abs amount) at in
      hollow_journal at rest (insert_account a (allocate_id s).1) ∙ opened_journal a s

  pub consensus_journal :
      (at : Timestamp) (s : ChainState Db) → journal (next_consensus at s).1 ≡ journal s
  unfolding next_consensus
  consensus_journal at s = refl

  pub clock_journal :
      (now : Timestamp) (s : ChainState Db) → journal (next_block_timestamp now s).1 ≡ journal s
  unfolding next_block_timestamp
  clock_journal now s = ground arith

  -- A step that keeps the HAPI records and the links.
  pub record KeepsJournal (s s' : ChainState Db) : Type 0 where
    pub same_filed : filed s' ≡ filed s
    pub linked : IsLinked s → IsLinked s'

  pub untouched-KeepsJournal : (s : ChainState Db) → KeepsJournal s s
  untouched-KeepsJournal s = record { same_filed = refl; linked = λ l. l }

  pub either-KeepsJournal :
      {R : Type 0} (b : Bool) (p q : ChainState Db × R) (s : ChainState Db)
      → KeepsJournal s p.0
      → KeepsJournal s q.0
      → KeepsJournal s (if b then p else q).0
  either-KeepsJournal true p q s h k = h
  either-KeepsJournal false p q s h k = k

  -- A step that leaves the journal alone.
  pub same-KeepsJournal : (s s' : ChainState Db) → journal s' ≡ journal s → KeepsJournal s s'
  same-KeepsJournal s s' h = record {
    same_filed = ap (λ j. j.1) h;
    linked = λ l. subst LinkedFromGenesis (sym (ap (λ j. j.0) h)) l;
  }

  pub then-KeepsJournal :
      {s t u : ChainState Db} → KeepsJournal s t → KeepsJournal t u → KeepsJournal s u
  then-KeepsJournal c d = record {
    same_filed = d.same_filed ∙ c.same_filed;
    linked = λ l. d.linked (c.linked l);
  }
