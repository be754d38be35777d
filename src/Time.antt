-- ===== src/Time.antt =====
-- src/state/time.rs: consensus timestamps. The clock itself is an argument of each operation.
use hanvil.Prelude.{ℕ, ◌+◌, ◌<◌, ◌≡◌, ◌⊎◌, Bool, ◌&&◌, ◌||◌, ltb, ◌==◌, if◌then◌else◌}
use hanvil.Word.{add_u64}

pub record Timestamp : Type 0 where
  pub secs : ℕ
  pub nanos : ℕ

abbrev pub at_secs : ℕ → ℕ → Timestamp
at_secs s n = record { secs = s; nanos = n }

unfoldable pub next_nano : Timestamp → Timestamp
unfolding add_u64
next_nano t =
    if t.nanos == 999_999_999
    then record { secs = add_u64 t.secs 1; nanos = 0 }
    else record { secs = t.secs; nanos = t.nanos + 1 }

-- the derived order: seconds first
unfoldable pub later : Timestamp → Timestamp → Bool
later a b = ltb b.secs a.secs || (a.secs == b.secs && ltb b.nanos a.nanos)

abbrev pub timestamp_eq : Timestamp → Timestamp → Bool
timestamp_eq a b = a.secs == b.secs && a.nanos == b.nanos

-- the order as a proposition: `a` is before `b`
abbrev pub Before : Timestamp → Timestamp → Type 0
Before a b = (a.secs < b.secs) ⊎ ((a.secs ≡ b.secs) × (a.nanos < b.nanos))
