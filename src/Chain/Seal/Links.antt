-- ===== src/Chain/Seal/Links.antt =====
-- Blocks are numbered from 0, linked by their hashes, and never go back in time.
use hanvil.Prelude.{
  ℕ, ◌+◌, ◌-◌, ◌≤◌, ◌≡◌, refl, List, [], ◌∷◌, ◌++◌, arith, length, last_or, length-append,
  last_or-append, map, ap,
}
use hanvil.Prelude.Eq.{nat_eq}
use hanvil.Time.{Timestamp}
use hanvil.Blocks.{Block, TxRecord}
use hanvil.Evm.{Externals}
use hanvil.Chain.{ChainState, no_block, latest_block}
use hanvil.Chain.Seal.{seal_block}

-- `b` is the block after `a`.
abbrev pub Follows : Block → Block → Type 0
Follows a b = (b.number ≡ a.number + 1) × (b.parent_hash ≡ a.hash) × (a.timestamp ≤ b.timestamp)

abbrev pub Linked : Block → List Block → Type 0
Linked a [] = Unit {0}
Linked a (b ∷ bs) = Follows a b × Linked b bs

abbrev pub LinkedFromGenesis : List Block → Type 0
LinkedFromGenesis [] = ⊥
LinkedFromGenesis (g ∷ bs) = (g.number ≡ 0) × Linked g bs

Linked-end :
    (a : Block) (bs : List Block) (b : Block)
    → Linked a bs
    → Follows (last_or a bs) b
    → Linked a (bs ++ b ∷ [])
Linked-end a [] b h f = (f, tt)
Linked-end a (c ∷ bs) b h f = (h.0, Linked-end c bs b h.1 f)

Linked-number :
    (a : Block) (bs : List Block) → Linked a bs → (last_or a bs).number ≡ a.number + length bs
Linked-number a [] h = omega arith
Linked-number a (b ∷ bs) h = omega (arith, h.0.0, Linked-number b bs h.1)

-- The number of the head block is the number of blocks behind genesis.
head_number :
    (d : Block) (bs : List Block) → LinkedFromGenesis bs → (last_or d bs).number ≡ length bs - 1
head_number d [] h = absurd h
head_number d (g ∷ bs) h = omega (arith, h.0, Linked-number g bs h.1)

Linked-append :
    (d : Block) (bs : List Block) (b : Block)
    → LinkedFromGenesis bs
    → Follows (last_or d bs) b
    → LinkedFromGenesis (bs ++ b ∷ [])
Linked-append d [] b h f = absurd h
Linked-append d (g ∷ bs) b h f = (h.0, Linked-end g bs b h.1 f)

module _ {Db : Type 0} where
  abbrev pub IsLinked : ChainState Db → Type 0
  IsLinked s = LinkedFromGenesis s.blocks

module _ {Db : Type 0} (ext : Externals Db) where
  -- Sealing a block that is not earlier than the head of a linked chain keeps the blocks linked and
  -- adds one block; that block is the head, carries the timestamps given, and lists the hashes of
  -- its records in order.
  pub seal_block-IsLinked :
      (timestamp : ℕ) (consensus : Timestamp) (records : List TxRecord) (s : ChainState Db)
      → IsLinked s
      → (latest_block s).timestamp ≤ timestamp
      → IsLinked (seal_block ext timestamp consensus records s)
        × (length (seal_block ext timestamp consensus records s).blocks ≡ length s.blocks + 1)
        × ((latest_block (seal_block ext timestamp consensus records s)).timestamp ≡ timestamp)
        × ((latest_block (seal_block ext timestamp consensus records s)).consensus_timestamp
            ≡ consensus)
        × ((latest_block (seal_block ext timestamp consensus records s)).transactions
            ≡ map (λ (r : TxRecord). r.hash) records)
  unfolding seal_block
  seal_block-IsLinked timestamp consensus records s linked later = (
    Linked-append no_block s.blocks _ linked
        (omega (arith, head_number no_block s.blocks linked), refl, later),
    length-append s.blocks _,
    ap (λ (b : Block). b.timestamp) (last_or-append no_block s.blocks _),
    ap (λ (b : Block). b.consensus_timestamp) (last_or-append no_block s.blocks _),
    ap (λ (b : Block). b.transactions) (last_or-append no_block s.blocks _),
  )
