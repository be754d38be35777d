-- ===== src/Keys/Consecutive.antt =====
-- src/keys/mod.rs, predefined_accounts: ids, balances and keys of the accounts.
use hanvil.Prelude.{
  ==_iff, ℕ, zero, suc, ◌+◌, ◌*◌, ◌%◌, ◌^◌, ◌==◌, ◌≤◌, ◌≡◌, refl, ◌∙◌, subst, Bool, true, false,
  Option, none, some, List, [], ◌∷◌, ◌++◌, map, arith, length, take, drop, Bytes, length-append,
  if◌then◌else◌,
}
use hanvil.Prelude.Result.{Result, ok, err, ok_or, >>=-eq-ok, ok_eq}
use hanvil.Units.{Tinybar, Address}
use hanvil.Time.{Timestamp}
use hanvil.Accounts.{EntityId, Account, Key}
use hanvil.Keys.{
  KeyCurves, KeyError, Curve, strip_0x, decode_hex, derive, predefined, ecdsa_public,
  ed25519_public, group_accounts, per_group, predefined_accounts, ecdsa_keys, ecdsa_alias_keys,
  ed25519_keys,
}

-- Accounts under consecutive ids from `next` on, all with one balance.
abbrev pub AreConsecutive : EntityId → Tinybar → List Account → Type 0
AreConsecutive next balance [] = Unit {0}
AreConsecutive next balance (a ∷ rest) =
    (a.id ≡ next) × (a.balance ≡ balance) × AreConsecutive (next + 1) balance rest

-- A secret of one of the tables, and the table's kind.
abbrev Source : Type 0
Source = Curve × Bytes

abbrev pub of_kind : Curve → List Bytes → List Source
of_kind curve keys = map (λ key. (curve, key)) keys

-- An account holds a secret of a table, and the public key of the table's kind that belongs to it;
-- only an account of the alias table has an alias, the last twenty bytes of the hash of its
-- uncompressed public key.
abbrev pub IsOf : KeyCurves → Source → Account → Type 0
IsOf curves (Curve.ecdsa alias, secret) a =
    (private : Bytes) × (public : Bytes × Bytes) × (curves.hex_decode (strip_0x secret)
      ≡ some private)
    × (curves.secp256k1_public private ≡ some public)
    × (a.private_key_hex ≡ some secret)
    × (a.key ≡ some (Key.ecdsa_secp256k1 (public.0)))
    × (a.alias ≡ (if alias then some (curves.keccak256 (drop 1 (public.1)) % 2 ^ 160) else none))
IsOf curves (Curve.ed25519, secret) a =
    (private : Bytes) × (curves.hex_decode (strip_0x secret) ≡ some private)
    × (length private ≡ 32)
    × (a.private_key_hex ≡ some secret)
    × (a.key ≡ some (Key.ed25519 (curves.ed25519_verifying private)))
    × (a.alias ≡ none)

-- One account for each secret, in their order.
abbrev pub AreOf : KeyCurves → List Source → List Account → Type 0
AreOf curves [] [] = Unit {0}
AreOf curves [] (a ∷ users) = ⊥
AreOf curves (source ∷ sources) [] = ⊥
AreOf curves (source ∷ sources) (a ∷ users) = IsOf curves source a × AreOf curves sources users

length-AreOf :
    (curves : KeyCurves) (sources : List Source) (users : List Account)
    → AreOf curves sources users
    → length users ≡ length sources
length-AreOf curves [] [] h = refl
length-AreOf curves [] (a ∷ users) h = absurd h
length-AreOf curves (x ∷ sources) [] h = absurd h
length-AreOf curves (x ∷ sources) (a ∷ users) h =
    omega (arith, length-AreOf curves sources users h.1)

ok_or-eq-ok :
    {A : Type 0} (found : Option A) (e : KeyError) {a : A} → ok_or found e ≡ ok a → found ≡ some a
ok_or-eq-ok none e h = cc
ok_or-eq-ok (some a) e h = cc

long_enough :
    {A : Type 0} (b : Bool) (a : A) {made : A}
    → (let r : Result KeyError A = if b then ok a else err KeyError.invalid in r ≡ ok made)
    → (b ≡ true) × (a ≡ made)
long_enough true a h = (refl, ok_eq h)
long_enough false a h = cc

derive-IsOf :
    (curves : KeyCurves) (curve : Curve) (secret private : Bytes) (made : Key × Option Address)
    (next : EntityId) (balance : Tinybar) (at : Timestamp)
    → decode_hex curves secret ≡ ok private
    → derive curves curve private ≡ ok made
    → IsOf curves (curve, secret) (predefined curves next (made.0) (made.1) balance at secret)
unfolding derive decode_hex ecdsa_public ed25519_public
derive-IsOf curves (Curve.ecdsa true) secret private made next balance at h d =
    let (pair, e1, h1) = >>=-eq-ok (ecdsa_public curves private) _ d in
    let (public, e2, h2) =
      >>=-eq-ok (ok_or (curves.secp256k1_public private) KeyError.invalid) _ e1 in
    let pair_eq = ok_eq h2 in
    let made_eq = ok_eq h1 in (private, public, ok_or-eq-ok _ _ h, ok_or-eq-ok _ _ e2, refl, cc, cc)
derive-IsOf curves (Curve.ecdsa false) secret private made next balance at h d =
    let (pair, e1, h1) = >>=-eq-ok (ecdsa_public curves private) _ d in
    let (public, e2, h2) =
      >>=-eq-ok (ok_or (curves.secp256k1_public private) KeyError.invalid) _ e1 in
    let pair_eq = ok_eq h2 in
    let made_eq = ok_eq h1 in (private, public, ok_or-eq-ok _ _ h, ok_or-eq-ok _ _ e2, refl, cc, cc)
derive-IsOf curves Curve.ed25519 secret private made next balance at h d =
    let (key, e1, h1) = >>=-eq-ok (ed25519_public curves private) _ d in
    let (long, key_eq) = long_enough (length private == 32) _ e1 in
    let made_eq = ok_eq h1 in
    (private, ok_or-eq-ok _ _ h, (==_iff (length private) 32).0 long, refl, cc, cc)

-- What a group adds in front of what the groups behind it give.
module _ (curves : KeyCurves) (curve : Curve) (balance : Tinybar) (at : Timestamp)
    (rest : EntityId → Result KeyError (List Account)) (behind : List Source)
    (later : (next : EntityId) (users : List Account)
      → rest next ≡ ok users
      → AreConsecutive next balance users × AreOf curves behind users) where
  group_accounts-AreConsecutive :
      (keys : List Bytes) (next : EntityId) (users : List Account)
      → group_accounts curves curve balance at keys next rest ≡ ok users
      → AreConsecutive next balance users × AreOf curves (of_kind curve keys ++ behind) users
  unfolding group_accounts
  group_accounts-AreConsecutive [] next users h = later next users h
  group_accounts-AreConsecutive (k ∷ keys) next users h =
      let (private, e1, h1) = >>=-eq-ok (decode_hex curves k) _ h in
      let (made, e2, h2) = >>=-eq-ok (derive curves curve private) _ h1 in
      let (others, e, h3) =
        >>=-eq-ok (group_accounts curves curve balance at keys (next + 1) rest) _ h2 in
      let (run, of) = group_accounts-AreConsecutive keys (next + 1) others e in
      subst
        (λ l. AreConsecutive next balance l × AreOf curves (of_kind curve (k ∷ keys) ++ behind) l)
        (ok_eq h3)
        ((refl, refl, run), (derive-IsOf curves curve k private made next balance at e1 e2, of))

length-take : {A : Type 0} (n : ℕ) (xs : List A) → n ≤ length xs → length (take n xs) ≡ n
length-take zero xs h = refl
length-take (suc n) [] h = absurd (omega arith)
length-take (suc n) (x ∷ xs) h = omega (arith, length-take n xs (omega arith))

length-map : {A B : Type 0} (f : A → B) (xs : List A) → length (map f xs) ≡ length xs
length-map f [] = refl
length-map f (x ∷ xs) = omega (arith, length-map f xs)

-- The last group, and each group in front of the ones behind it.
module _ (curves : KeyCurves) (per_type : ℕ) (balance : Tinybar) (at : Timestamp)
    (first : EntityId) where
  -- The keys of a group that are used.
  used :
      (curve : Curve) (keys : List Bytes)
      → length keys ≡ 10
      → length (of_kind curve (take (per_group per_type) keys)) ≡ per_group per_type
  used curve keys h =
      length-map (λ key. (curve, key)) (take (per_group per_type) keys)
      ∙ length-take (per_group per_type) keys (ground arith)

  -- The secrets of the accounts: those of the table without aliases, those of the table with
  -- aliases, and those of the Ed25519 table.
  abbrev pub sources : List Source
  sources =
      of_kind (Curve.ecdsa false) (take (per_group per_type) ecdsa_keys)
      ++ (of_kind (Curve.ecdsa true) (take (per_group per_type) ecdsa_alias_keys)
          ++ (of_kind Curve.ed25519 (take (per_group per_type) ed25519_keys) ++ []))

  length-sources : length sources ≡ 3 * per_group per_type
  length-sources =
      let one = of_kind (Curve.ecdsa false) (take (per_group per_type) ecdsa_keys) in
      let two = of_kind (Curve.ecdsa true) (take (per_group per_type) ecdsa_alias_keys) in
      let three = of_kind Curve.ed25519 (take (per_group per_type) ed25519_keys) in
      omega (
        arith,
        length-append one (two ++ (three ++ [])),
        length-append two (three ++ []),
        length-append three [],
        used (Curve.ecdsa false) ecdsa_keys refl,
        used (Curve.ecdsa true) ecdsa_alias_keys refl,
        used Curve.ed25519 ed25519_keys refl,
      )

  -- The predefined accounts have consecutive ids from the first one and the balance asked for.
  -- They hold the first secrets of the three tables in the order of the tables, as many of each as
  -- the tables have and the caller asks for, and each has the public key that the curve of its
  -- table gives for its secret; those of the second table alone have the address of the key as
  -- alias.
  pub predefined_accounts-AreConsecutive :
      (users : List Account)
      → predefined_accounts curves first per_type balance at ≡ ok users
      → AreConsecutive first balance users
        × AreOf curves sources users
        × (length users ≡ 3 * per_group per_type)
  unfolding predefined_accounts
  predefined_accounts-AreConsecutive users h =
      let (run, of) =
        group_accounts-AreConsecutive curves (Curve.ecdsa false) balance at _ _
          (group_accounts-AreConsecutive curves (Curve.ecdsa true) balance at _ _
            (group_accounts-AreConsecutive curves Curve.ed25519 balance at _ []
              (λ next none_left h.
                subst (λ l. AreConsecutive next balance l × AreOf curves [] l) (ok_eq h) (tt, tt))
              (take (per_group per_type) ed25519_keys))
            (take (per_group per_type) ecdsa_alias_keys))
          (take (per_group per_type) ecdsa_keys) first users h in
      (run, of, length-AreOf curves sources users of ∙ length-sources)
