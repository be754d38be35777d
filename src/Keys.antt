-- ===== src/Keys.antt =====
-- src/keys/mod.rs and src/keys/predefined.rs: the development keys and the accounts made of them.
-- The curve arithmetic and the hex decoder are third-party code: `KeyCurves` has their functions.
pub mod Consecutive
use hanvil.Prelude.{
  ℕ, ◌+◌, ◌%◌, ◌^◌, ◌==◌, Bool, true, false, Option, none, some, List, [], ◌∷◌, ◌++◌, Bytes, codes,
  drop, if◌then◌else◌, length, ltb, take,
}
use hanvil.Prelude.Result.{Result, ok, err, ◌>>=◌, ok_or}
use hanvil.Word.{u64_max}
use hanvil.Units.{Tinybar, Address}
use hanvil.Time.{Timestamp}
use hanvil.Accounts.{EntityId, Account, Key}

pub data KeyError : Type 0 where
  hex invalid : KeyError

-- hex, k256 and ed25519-dalek. A secret gives its compressed and its uncompressed public key.
pub record KeyCurves : Type 0 where
  pub hex_decode : Bytes → Option Bytes
  pub secp256k1_public : Bytes → Option (Bytes × Bytes)
  pub ed25519_verifying : Bytes → Bytes
  pub keccak256 : Bytes → ℕ

abbrev pub ecdsa_keys : List Bytes
ecdsa_keys =
    codes "0x7f109a9e3b0d8ecfba9cc23a3614433ce0fa7ddcc80f2a8f10b222179a5a80d6"
    ∷ codes "0x6ec1f2e7d126a74a1d2ff9e1c5d90b92378c725e506651ff8bb8616a5c724628"
    ∷ codes "0xb4d7f7e82f61d81c95985771b8abf518f9328d019c36849d4214b5f995d13814"
    ∷ codes "0x941536648ac10d5734973e94df413c17809d6cc5e24cd11e947e685acfbd12ae"
    ∷ codes "0x5829cf333ef66b6bdd34950f096cb24e06ef041c5f63e577b4f3362309125863"
    ∷ codes "0x8fc4bffe2b40b2b7db7fd937736c4575a0925511d7a0a2dfc3274e8c17b41d20"
    ∷ codes "0xb6c10e2baaeba1fa4a8b73644db4f28f4bf0912cceb6e8959f73bb423c33bd84"
    ∷ codes "0xfe8875acb38f684b2025d5472445b8e4745705a9e7adc9b0485a05df790df700"
    ∷ codes "0xbdc6e0a69f2921a78e9af930111334a41d3fab44653c8de0775572c526feea2d"
    ∷ codes "0x3e215c3d2a59626a669ed04ec1700f36c05c9b216e592f58bbfd3d8aa6ea25f9"
    ∷ []

abbrev pub ecdsa_alias_keys : List Bytes
ecdsa_alias_keys =
    codes "0x105d050185ccb907fba04dd92d8de9e32c18305e097ab41dadda21489a211524"
    ∷ codes "0x2e1d968b041d84dd120a5860cee60cd83f9374ef527ca86996317ada3d0d03e7"
    ∷ codes "0x45a5a7108a18dd5013cf2d5857a28144beadc9c70b3bdbd914e38df4e804b8d8"
    ∷ codes "0x6e9d61a325be3f6675cf8b7676c70e4a004d2308e3e182370a41f5653d52c6bd"
    ∷ codes "0x0b58b1bd44469ac9f813b5aeaf6213ddaea26720f0b2f133d08b6f234130a64f"
    ∷ codes "0x95eac372e0f0df3b43740fa780e62458b2d2cc32d6a440877f1cc2a9ad0c35cc"
    ∷ codes "0x6c6e6727b40c8d4b616ab0d26af357af09337299f09c66704146e14236972106"
    ∷ codes "0x5072e7aa1b03f531b4731a32a021f6a5d20d5ddc4e55acbb71ae202fc6f3a26d"
    ∷ codes "0x60fe891f13824a2c1da20fb6a14e28fa353421191069ba6b6d09dd6c29b90eff"
    ∷ codes "0xeae4e00ece872dd14fb6dc7a04f390563c7d69d16326f2a703ec8e0934060cc7"
    ∷ []

abbrev pub ed25519_keys : List Bytes
ed25519_keys =
    codes "0xa608e2130a0a3cb34f86e757303c862bee353d9ab77ba4387ec084f881d420d4"
    ∷ codes "0xbbd0894de0b4ecfa862e963825c5448d2d17f807a16869526bff29185747acdb"
    ∷ codes "0x8fd50f886a2e7ed499e7686efd1436b50aa9b64b26e4ecc4e58ca26e6257b67d"
    ∷ codes "0x62c966ebd9dcc0fc16a553b2ef5b72d1dca05cdf5a181027e761171e9e947420"
    ∷ codes "0x805c9f422fd9a768fdd8c68f4fe0c3d4a93af714ed147ab6aed5f0ee8e9ee165"
    ∷ codes "0xabfdb8bf0b46c0da5da8d764316f27f185af32357689f7e19cb9ec3e0f590775"
    ∷ codes "0xec299c9f17bb8bdd5f3a21f1c2bffb3ac86c22e84c325e92139813639c9c3507"
    ∷ codes "0xcb833706d1df537f59c418a00e36159f67ce3760ce6bf661f11f6da2b11c2c5a"
    ∷ codes "0x9b6adacefbbecff03e4359098d084a3af8039ce7f29d95ed28c7ebdb83740c83"
    ∷ codes "0x9a07bbdbb62e24686d2a4259dc88e38438e2c7a1ba167b147ad30ac540b0a3cd"
    ∷ []

abbrev pub treasury_ed25519_seed : Bytes
treasury_ed25519_seed = codes "0x91132178e72057a1d7528025956fe39b0b847f200ab59b2fdd367017f3087137"

-- `strip_prefix("0x").unwrap_or(text)`
unfoldable pub strip_0x : Bytes → Bytes
strip_0x [] = []
strip_0x (a ∷ []) = a ∷ []
strip_0x (a ∷ b ∷ rest) =
    if a == 48 then (if b == 120 then rest else a ∷ b ∷ rest) else a ∷ b ∷ rest

-- How a group of predefined keys becomes accounts.
pub data Curve : Type 0 where
  ecdsa : (alias : Bool) → Curve
  ed25519 : Curve

-- `alias.then_some(derived)`
abbrev then_some : Bool → Address → Option Address
then_some true a = some a
then_some false a = none

abbrev pub per_group : ℕ → ℕ
per_group per_type = if ltb per_type 10 then per_type else 10

module _ (curves : KeyCurves) where
  unfoldable pub decode_hex : Bytes → Result KeyError Bytes
  unfolding strip_0x
  decode_hex text = ok_or (curves.hex_decode (strip_0x text)) KeyError.hex

  -- The alias is the last twenty bytes of the hash.
  unfoldable pub ecdsa_public : Bytes → Result KeyError (Key × Address)
  ecdsa_public private = do
    pair ← ok_or (curves.secp256k1_public private) KeyError.invalid
    ok (Key.ecdsa_secp256k1 (pair.0), curves.keccak256 (drop 1 (pair.1)) % 2 ^ 160)

  unfoldable pub ed25519_public : Bytes → Result KeyError Key
  ed25519_public private =
      if length private == 32
      then ok (Key.ed25519 (curves.ed25519_verifying private))
      else err KeyError.invalid

  unfoldable pub treasury_key : Result KeyError Key
  unfolding decode_hex ed25519_public
  treasury_key = do private ← decode_hex treasury_ed25519_seed; ed25519_public private

  unfoldable pub derive : Curve → Bytes → Result KeyError (Key × Option Address)
  unfolding ecdsa_public ed25519_public
  derive (Curve.ecdsa alias) private = do
    pair ← ecdsa_public private
    ok (pair.0, then_some alias (pair.1))
  derive Curve.ed25519 private = do key ← ed25519_public private; ok (key, none)

  abbrev pub predefined : EntityId → Key → Option Address → Tinybar → Timestamp → Bytes → Account
  predefined i key alias balance at hex_key = record {
    id = i;
    key = some key;
    alias = alias;
    balance = balance;
    nonce = 0;
    deleted = false;
    memo = [];
    created_at = at;
    private_key_hex = some hex_key;
  }

  -- The accounts of one group, from the id `next` on, in front of those of the groups behind it.
  unfoldable pub group_accounts :
      Curve
      → Tinybar
      → Timestamp
      → List Bytes
      → EntityId
      → (EntityId → Result KeyError (List Account))
      → Result KeyError (List Account)
  unfolding decode_hex derive
  group_accounts curve balance at [] next rest = rest next
  group_accounts curve balance at (hex_key ∷ keys) next rest = do
    private ← decode_hex hex_key
    made ← derive curve private
    others ← group_accounts curve balance at keys (next + 1) rest
    ok (predefined next (made.0) (made.1) balance at hex_key ∷ others)

  -- `per_type` of each kind, ids in sequence from the first user id.
  unfoldable pub predefined_accounts :
      EntityId → ℕ → Tinybar → Timestamp → Result KeyError (List Account)
  unfolding group_accounts
  predefined_accounts first per_type balance at =
      group_accounts (Curve.ecdsa false) balance at (take (per_group per_type) ecdsa_keys) first
        λ next.
          group_accounts (Curve.ecdsa true) balance at (take (per_group per_type) ecdsa_alias_keys)
            next
            λ next'.
              group_accounts Curve.ed25519 balance at (take (per_group per_type) ed25519_keys) next'
                λ last. ok []
