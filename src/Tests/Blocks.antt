-- ===== src/Tests/Blocks.antt =====
-- Blocks and time on the sample chain.
use hanvil.Prelude.{ℕ, ◌<◌, ◌≤◌, ◌≡◌, refl, arith, some, none, [], ◌∷◌, map, length}
use hanvil.Prelude.Result.{ok, err}
use hanvil.Time.{at_secs, Before}
use hanvil.Blocks.{TxBody, TxRecord}
use hanvil.Chain.{ChainState, latest_block}
use hanvil.Chain.Clock.{next_block_timestamp, next_consensus, larger}
use hanvil.Chain.Clock.Order.{next_consensus_rises, next_block_timestamp_rises}
use hanvil.Chain.Seal.{seal_block}
use hanvil.Chain.Seal.Links.{IsLinked, seal_block-IsLinked}
use hanvil.Chain.Execution.{execute_and_mine}
use hanvil.Chain.Execution.Mining.{
  IsMined, Untouched, execute_and_mine-IsMined, execute_and_mine_refused,
}
use hanvil.Tests.Samples.{machine, refusing, town, sample_env, no_reason}

town-IsLinked : IsLinked town
town-IsLinked = (refl, ((refl, refl, omega arith), tt))

abbrev tx_hash : ℕ
tx_hash = 77

abbrev body : TxBody
body = TxBody.signed (1 ∷ [])

abbrev mined_state : ChainState ℕ
mined_state = (execute_and_mine machine tx_hash body 1002 sample_env 47 (at_secs 1_010 5) town).0

mines :
    execute_and_mine machine tx_hash body 1002 sample_env 47 (at_secs 1_010 5) town
    ≡ (mined_state, ok tx_hash)
unfolding execute_and_mine
mines = refl

execute_and_mine-IsMined_example : (tx_hash ≡ tx_hash) × IsMined town mined_state tx_hash
execute_and_mine-IsMined_example =
    execute_and_mine-IsMined machine tx_hash 77 body 1002 sample_env 47 (at_secs 1_010 5) town
      mined_state town-IsLinked mines

abbrev refused_state : ChainState ℕ
refused_state = (execute_and_mine refusing tx_hash body 1002 sample_env 47 (at_secs 1_010 5) town).0

refuses :
    execute_and_mine refusing tx_hash body 1002 sample_env 47 (at_secs 1_010 5) town
    ≡ (refused_state, err no_reason)
unfolding execute_and_mine
refuses = refl

execute_and_mine_refused_example : Untouched town refused_state
execute_and_mine_refused_example =
    execute_and_mine_refused refusing tx_hash body 1002 sample_env 47 (at_secs 1_010 5) town
      refused_state no_reason refuses

seal_block-IsLinked_example :
    IsLinked (seal_block machine 1_006 (at_secs 1_006 1) [] town)
    × (length (seal_block machine 1_006 (at_secs 1_006 1) [] town).blocks ≡ 3)
    × ((latest_block (seal_block machine 1_006 (at_secs 1_006 1) [] town)).timestamp ≡ 1_006)
    × ((latest_block (seal_block machine 1_006 (at_secs 1_006 1) [] town)).consensus_timestamp
        ≡ at_secs 1_006 1)
    × ((latest_block (seal_block machine 1_006 (at_secs 1_006 1) [] town)).transactions
        ≡ map (λ (r : TxRecord). r.hash) [])
seal_block-IsLinked_example =
    seal_block-IsLinked machine 1_006 (at_secs 1_006 1) [] town town-IsLinked (omega arith)

-- The clock stands still: the next consensus timestamp is a nanosecond on.
next_nano_town : (next_consensus (at_secs 1_005 0) town).0 ≡ at_secs 1_005 1
unfolding next_consensus
next_nano_town = refl

next_consensus_rises_example :
    Before town.last_consensus (next_consensus (at_secs 1_005 0) town).0
    × ((next_consensus (at_secs 1_005 0) town).1.last_consensus
        ≡ (next_consensus (at_secs 1_005 0) town).0)
    × ((next_consensus (at_secs 1_005 0) town).0.nanos < 1_000_000_000)
    × (Before town.last_consensus (at_secs 1_005 0)
        → (next_consensus (at_secs 1_005 0) town).0 ≡ at_secs 1_005 0)
next_consensus_rises_example =
    next_consensus_rises (at_secs 1_005 0) town (omega arith) (omega arith) (omega arith)

next_block_timestamp_rises_example :
    ((latest_block town).timestamp ≤ (next_block_timestamp (at_secs 900 0) town).0)
    × ((next_block_timestamp (at_secs 900 0) town).1.next_timestamp ≡ none)
    × ((t : ℕ)
        → town.next_timestamp ≡ some t
        → (next_block_timestamp (at_secs 900 0) town).0 ≡ larger t (latest_block town).timestamp)
next_block_timestamp_rises_example = next_block_timestamp_rises (at_secs 900 0) town
