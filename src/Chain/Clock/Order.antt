-- ===== src/Chain/Clock/Order.antt =====
-- Timestamps only go forward.
use hanvil.Prelude.{ℕ, ◌+◌, ◌≤◌, ◌<◌, ◌≡◌, refl, true, none, some, arith}
use hanvil.Prelude.Result.{ok}
use hanvil.Word.{u64_mod, add_u64}
use hanvil.Time.{Timestamp, Before, later, next_nano}
use hanvil.Chain.{ChainState, latest_block}
use hanvil.Chain.Clock.{next_block_timestamp, next_consensus, set_next_timestamp, larger}

next_nano-Before : (t : Timestamp) → t.secs + 1 < u64_mod → Before t (next_nano t)
unfolding next_nano add_u64
next_nano-Before t h = ground arith

next_nano_valid : (t : Timestamp) → t.nanos < 1_000_000_000 → (next_nano t).nanos < 1_000_000_000
unfolding next_nano
next_nano_valid t h = ground arith

later-Before : (a b : Timestamp) → later a b ≡ true → Before b a
unfolding later
later-Before a b h = ground arith

module _ {Db : Type 0} where
  -- Where the last consensus timestamp has a second left in its u64, and its nanoseconds and those
  -- of the time asked for are below 10^9: the next consensus timestamp is after the last one, is
  -- remembered as the last one, has its nanoseconds below 10^9, and is the time asked for whenever
  -- that is after the last one.
  pub next_consensus_rises :
      (at : Timestamp) (s : ChainState Db)
      → s.last_consensus.secs + 1 < u64_mod
      → s.last_consensus.nanos < 1_000_000_000
      → at.nanos < 1_000_000_000
      → Before s.last_consensus (next_consensus at s).0
        × ((next_consensus at s).1.last_consensus ≡ (next_consensus at s).0)
        × ((next_consensus at s).0.nanos < 1_000_000_000)
        × (Before s.last_consensus at → (next_consensus at s).0 ≡ at)
  unfolding next_consensus
  next_consensus_rises at s room valid valid_at = (
    ground (arith, later-Before at s.last_consensus, next_nano-Before s.last_consensus),
    refl,
    ground (arith, next_nano_valid s.last_consensus valid),
    unfold later in (λ h. ground arith),
  )

  -- The next block is never earlier than the head, a pinned timestamp is used unless the head is
  -- later, and it is used up.
  pub next_block_timestamp_rises :
      (now : Timestamp) (s : ChainState Db)
      → ((latest_block s).timestamp ≤ (next_block_timestamp now s).0)
        × ((next_block_timestamp now s).1.next_timestamp ≡ none)
        × ((t : ℕ)
            → s.next_timestamp ≡ some t
            → (next_block_timestamp now s).0 ≡ larger t (latest_block s).timestamp)
  unfolding next_block_timestamp
  next_block_timestamp_rises now s = (ground arith, ground arith, λ t h. ground arith)

  -- A timestamp that `evm_setNextBlockTimestamp` accepts is after the head block's, and the next
  -- block then carries it, whatever the wall clock says.
  set_next_timestamp_pins :
      (t : ℕ) (s s' : ChainState Db)
      → set_next_timestamp t s ≡ ok s'
      → ((latest_block s).timestamp < t) × ((now : Timestamp) → (next_block_timestamp now s').0 ≡ t)
  unfolding set_next_timestamp next_block_timestamp
  set_next_timestamp_pins t s s' h = (ground arith, λ now. ground arith)
