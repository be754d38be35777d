-- ===== src/Harness/Signer/Fresh.antt =====
-- The operator's transaction ids are new.
use hanvil.Prelude.{
  ℕ, zero, suc, ◌+◌, ◌*◌, ◌≤◌, ◌<◌, ◌≡◌, refl, ap, arith, true, false, some, [], ◌∷◌, length, leb,
  if◌then◌else◌, Bool-cases, inl, inr,
}
use hanvil.Maps.HashMap
use hanvil.Maps.HashMap.{HashMap}
use hanvil.Word.{u64_mod, add_u64}
use hanvil.Time.{Timestamp, next_nano}
use hanvil.Records.{TxId, tx_id_eq, tx_id_eq_iff, tx_id_has_eq}
use hanvil.Chain.{ChainState, has_transaction_id}
use hanvil.Harness.Signer.{operator, operator_id, next_id, unique_from, unique_tx_id}

abbrev pub nanos_of : Timestamp → ℕ
nanos_of t = t.secs * 1_000_000_000 + t.nanos

-- How many entries of the index start at `n` or later.
ahead : ℕ → HashMap TxId ℕ → ℕ
ahead n [] = 0
ahead n ((id, i) ∷ m) = (if leb n (nanos_of id.valid_start) then 1 else 0) + ahead n m

ahead_falls : (n : ℕ) (m : HashMap TxId ℕ) → ahead (n + 1) m ≤ ahead n m
unfolding ahead
ahead_falls n [] = omega arith
ahead_falls n ((id, i) ∷ m) = ground (arith, ahead_falls n m)

ahead-le : (n : ℕ) (m : HashMap TxId ℕ) → ahead n m ≤ length m
unfolding ahead
ahead-le n [] = omega arith
ahead-le n ((id, i) ∷ m) = ground (arith, ahead-le n m)

-- An id that is in use is not ahead of the next one.
ahead_used :
    (id : TxId) (m : HashMap TxId ℕ)
    → HashMap.contains_key id m ≡ true
    → ahead (nanos_of id.valid_start + 1) m + 1 ≤ ahead (nanos_of id.valid_start) m
unfolding ahead HashMap.get
ahead_used id [] h = cc
ahead_used id ((j, i) ∷ m) h = elim (Bool-cases (tx_id_eq j id)) [
  | inl same ↦ ground (
    arith,
    ap (λ (x : TxId). nanos_of x.valid_start) ((tx_id_eq_iff j id).0 same),
    ahead_falls (nanos_of id.valid_start) m,
  )
  | inr other ↦
      (let rest : HashMap.contains_key id m ≡ true = ground arith in
        ground (arith, ahead_used id m rest))
]

next_nano_nanos :
    (t : Timestamp)
    → t.nanos < 1_000_000_000
    → t.secs + 1 < u64_mod
    → (nanos_of (next_nano t) ≡ nanos_of t + 1)
      × ((next_nano t).nanos < 1_000_000_000)
      × ((next_nano t).secs ≤ t.secs + 1)
unfolding next_nano add_u64
next_nano_nanos t valid room = (ground arith, ground arith, ground arith)

module _ {Db : Type 0} where
  -- What the loop ends with.
  record IsFresh (s : ChainState Db) (id new : TxId) : Type 0 where
    unused : has_transaction_id s new ≡ false
    same_payer : new.payer ≡ id.payer
    not_earlier : nanos_of id.valid_start ≤ nanos_of new.valid_start

  unique_from-IsFresh :
      (fuel : ℕ) (s : ChainState Db) (id : TxId)
      → ahead (nanos_of id.valid_start) s.hapi_by_id < fuel
      → id.valid_start.nanos < 1_000_000_000
      → id.valid_start.secs + fuel < u64_mod
      → (new : TxId) × (unique_from fuel s id ≡ some new) × IsFresh s id new
  unfolding unique_from
  unique_from-IsFresh zero s id enough valid room = absurd (omega arith)
  unique_from-IsFresh (suc fuel) s id enough valid room =
      elim (Bool-cases (has_transaction_id s id)) [
        | inl used ↦
            (let (step, valid', near) = next_nano_nanos id.valid_start valid (omega arith) in
              let fewer = ahead_used id s.hapi_by_id used in
              let (new, e, f) =
                unique_from-IsFresh fuel s (next_id id) (rw step (omega (arith, fewer, enough)))
                  valid' (omega (arith, near, room)) in
              (
                new,
                rw (used, unique_from) e,
                record {
                  unused = f.unused;
                  same_payer = f.same_payer;
                  not_earlier = omega (arith, f.not_earlier, step);
                },
              ))
        | inr free ↦ (
          id,
          rw (free, unique_from) refl,
          record { unused = free; same_payer = refl; not_earlier = omega arith },
        )
      ]

  -- On a clock with whole nanoseconds that leaves a second of its u64 for each id in use, the
  -- search for the operator's next transaction id ends after at most one round more than there
  -- are ids; the id is the operator's, is not in use, and starts no earlier than now.
  pub unique_tx_id_fresh :
      (s : ChainState Db) (now : Timestamp)
      → now.nanos < 1_000_000_000
      → now.secs + (length s.hapi_by_id + 1) < u64_mod
      → (id : TxId) × (unique_tx_id (length s.hapi_by_id + 1) s now ≡ some id)
        × (has_transaction_id s id ≡ false)
        × (id.payer ≡ operator)
        × (nanos_of now ≤ nanos_of id.valid_start)
  unfolding unique_tx_id
  unique_tx_id_fresh s now valid room =
      let (new, e, f) =
        unique_from-IsFresh (length s.hapi_by_id + 1) s (operator_id now)
          (omega (arith, ahead-le (nanos_of now) s.hapi_by_id)) valid room in
      (new, e, f.unused, f.same_payer, f.not_earlier)
