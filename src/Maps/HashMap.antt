-- ===== src/Maps/HashMap.antt =====
-- `HashMap<K, V>` and `HashSet<K>`. The program never iterates over one, so the order of entries
-- is not modelled.
use hanvil.Prelude.{
  ◌≡◌, refl, Bool, Option, none, some, List, [], ◌∷◌, arith, if◌then◌else◌, is_some,
}
use hanvil.Prelude.Eq.{Eq, beq_refl}

abbrev pub HashMap : Type 0 → Type 0 → Type 0
HashMap K V = List (K × V)

module _ {K V : Type 0} ⦃e : Eq K⦄ where
  unfoldable pub get : K → HashMap K V → Option V
  get k [] = none
  get k ((j, w) ∷ m) = if e.beq j k then some w else get k m

  -- The newest entry of a key stands first and hides the older one.
  unfoldable pub insert : K → V → HashMap K V → HashMap K V
  insert k v m = (k, v) ∷ m

  abbrev pub contains_key : K → HashMap K V → Bool
  contains_key k m = is_some (get k m)

  pub get-insert :
      (k : K) (v : V) (m : HashMap K V) (j : K)
      → get j (insert k v m) ≡ (if e.beq k j then some v else get j m)
  unfolding get insert
  get-insert k v m j = refl

  pub get-insert_self : (k : K) (v : V) (m : HashMap K V) → get k (insert k v m) ≡ some v
  unfolding get insert
  get-insert_self k v m = ground (arith, beq_refl k)
