-- ===== src/Chain/Filters/Polling.antt =====
-- A block filter reports every block once.
use hanvil.Prelude.{
  ℕ, zero, suc, ◌+◌, ◌-◌, ◌≤◌, ◌<◌, ◌≡◌, refl, sym, ◌∙◌, ap, List, [], ◌∷◌, ◌++◌, map, some, arith,
  length, length-append, get_elem?, drop, filter_map,
}
use hanvil.Prelude.Result.{ok}
use hanvil.Maps.BTreeMap
use hanvil.Blocks.{Block, Filter, FilterChanges, B256}
use hanvil.Chain.{ChainState, block_number}
use hanvil.Chain.Filters.{count_from, changes_of, advanced, filter_changes}

drop_end : (xs : List Block) (n : ℕ) → length xs ≤ n → drop n xs ≡ []
drop_end [] zero h = refl
drop_end [] (suc n) h = refl
drop_end (x ∷ xs) zero h = absurd (omega arith)
drop_end (x ∷ xs) (suc n) h = drop_end xs n (omega arith)

drop_at :
    (xs : List Block) (n : ℕ)
    → n < length xs
    → (y : Block) × (get_elem? xs n ≡ some y) × (drop n xs ≡ y ∷ drop (suc n) xs)
drop_at [] n h = elim h [ ]
drop_at (x ∷ xs) zero h = (x, refl, refl)
drop_at (x ∷ xs) (suc n) h = drop_at xs n (omega arith)

drop_append : (xs ys : List Block) → drop (length xs) (xs ++ ys) ≡ ys
drop_append [] ys = refl
drop_append (x ∷ xs) ys = drop_append xs ys

-- Reading a list by the indices from `n` to its end is dropping the first `n`.
window :
    (xs : List Block) (k n : ℕ)
    → n + k ≡ length xs
    → filter_map (get_elem? xs) (count_from n k) ≡ drop n xs
window xs zero n h = sym (drop_end xs n (omega arith))
window xs (suc k) n h =
    let (y, found, split) = drop_at xs n (omega arith) in
    let e : n + 1 ≡ suc n = omega arith in
    let ih = window xs k (n + 1) (omega arith) in ground (arith, found, split, ih, e)

abbrev pub hash_of : Block → B256
hash_of b = b.hash

mined_since :
    (n : ℕ) (old all mined : List Block) → n ≡ length old → all ≡ old ++ mined → drop n all ≡ mined
mined_since n old all mined e f = rw (e, f) (drop_append old mined)

module _ {Db : Type 0} where
  -- What a block filter with cursor `n` reports: the hashes of the blocks from `n` on.
  pub changes_of_blocks :
      (n : ℕ) (s : ChainState Db)
      → 0 < length s.blocks
      → n ≤ length s.blocks
      → changes_of (Filter.blocks n) s ≡ FilterChanges.blocks (map hash_of (drop n s.blocks))
  unfolding changes_of
  changes_of_blocks n s some_block h =
      ap (λ l. FilterChanges.blocks (map hash_of l))
        (ap (λ k. filter_map (get_elem? s.blocks) (count_from n k))
            (let e : length s.blocks - 1 + 1 - n ≡ length s.blocks - n = omega arith in e)
          ∙ window s.blocks (length s.blocks - n) n (omega arith))

  -- The state that a poll of a block filter leaves, and what it found.
  abbrev pub polled : ℕ → ChainState Db → ChainState Db
  polled id s = record s {
    filters = BTreeMap.insert id (Filter.blocks (block_number s + 1)) s.filters;
  }

  poll :
      (id n : ℕ) (s : ChainState Db)
      → 0 < length s.blocks
      → n ≤ length s.blocks
      → BTreeMap.get id s.filters ≡ some (Filter.blocks n)
      → filter_changes id s ≡ ok (FilterChanges.blocks (map hash_of (drop n s.blocks)), polled id s)
  unfolding filter_changes advanced
  poll id n s some_block h found = ground (arith, changes_of_blocks n s some_block h)

  -- On a chain with a block and a block filter whose cursor is at most one past the head: a poll
  -- reports the hashes of all blocks from the cursor on, in order, and moves the cursor behind the
  -- head; a second poll, on any state that has the filters so left and more blocks, reports exactly
  -- the blocks mined in between.
  pub filter_changes_once :
      (id n : ℕ) (s : ChainState Db)
      → 0 < length s.blocks
      → n ≤ length s.blocks
      → BTreeMap.get id s.filters ≡ some (Filter.blocks n)
      → (filter_changes id s
          ≡ ok (FilterChanges.blocks (map hash_of (drop n s.blocks)), polled id s))
        × ((s' : ChainState Db) (mined : List Block)
            → s'.filters ≡ (polled id s).filters
            → s'.blocks ≡ s.blocks ++ mined
            → filter_changes id s' ≡ ok (FilterChanges.blocks (map hash_of mined), polled id s'))
  filter_changes_once id n s some_block h found = (
    poll id n s some_block h found,
    λ s' mined same grown.
        let grown_length : length s'.blocks ≡ length s.blocks + length mined =
          ap length grown ∙ length-append s.blocks mined in
        poll id (block_number s + 1) s' (omega (arith, grown_length)) (omega (arith, grown_length))
          (ap (BTreeMap.get id) same
            ∙ BTreeMap.get-insert_self id (Filter.blocks (block_number s + 1)) s.filters)
        ∙ ap (λ l. ok (FilterChanges.blocks (map hash_of l), polled id s'))
            (mined_since (block_number s + 1) s.blocks s'.blocks mined (omega arith) grown),
  )
