-- ===== src/Chain/Clock.antt =====
-- Time as the chain sees it: block timestamps, the cheats that move them, and the consensus
-- timestamps, of src/state/mod.rs.
pub mod Order
use hanvil.Prelude.{ℕ, ◌-◌, ℤ, pos, none, some, ltb, leb, if◌then◌else◌}
use hanvil.Prelude.Result.{Result, ok, err}
use hanvil.Word.{i64_mod, to_i64, sub_i64, saturating_add_i64, saturating_add_signed}
use hanvil.Time.{Timestamp, later, next_nano}
use hanvil.Chain.{ChainState, Error, timestamp_not_after_latest, latest_block}

abbrev pub larger : ℕ → ℕ → ℕ
larger a b = if ltb a b then b else a

-- `i64::try_from(seconds).unwrap_or(i64::MAX)`
abbrev pub clamp_i64 : ℕ → ℤ
clamp_i64 n = if ltb n i64_mod then pos n else pos (i64_mod - 1)

module _ {Db : Type 0} where
  -- The timestamp of the next block. A pinned one is taken, and later blocks go on from it.
  unfoldable pub next_block_timestamp : Timestamp → ChainState Db → ℕ × ChainState Db
  unfolding to_i64 sub_i64 saturating_add_signed
  next_block_timestamp now s = elim s.next_timestamp [
    | some pinned ↦ (
      larger pinned (latest_block s).timestamp,
      record s { next_timestamp = none; time_offset = sub_i64 (to_i64 pinned) (to_i64 now.secs) },
    )
    | none ↦ (larger (saturating_add_signed now.secs s.time_offset) (latest_block s).timestamp, s)
  ]

  unfoldable pub increase_time : ℕ → ChainState Db → ℤ × ChainState Db
  unfolding saturating_add_i64
  increase_time seconds s =
      let offset = saturating_add_i64 s.time_offset (clamp_i64 seconds) in
      (offset, record s { time_offset = offset })

  unfoldable pub set_next_timestamp : ℕ → ChainState Db → Result Error (ChainState Db)
  set_next_timestamp timestamp s =
      let latest = (latest_block s).timestamp in
      if leb timestamp latest
      then err (timestamp_not_after_latest timestamp latest)
      else ok (record s { next_timestamp = some timestamp })

  unfoldable pub next_consensus : Timestamp → ChainState Db → Timestamp × ChainState Db
  unfolding later next_nano
  next_consensus at s =
      let next = if later at s.last_consensus then at else next_nano s.last_consensus in
      (next, record s { last_consensus = next })
