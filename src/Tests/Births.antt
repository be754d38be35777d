-- ===== src/Tests/Births.antt =====
-- The first state of a chain, and its index.
use hanvil.Prelude.{ℕ, ◌≡◌, refl, arith, some, [], length, take, List}
use hanvil.Prelude.Result.{Result, ok, err}
use hanvil.Maps.BTreeMap
use hanvil.Maps.HashMap
use hanvil.Time.{at_secs}
use hanvil.Accounts.{Account}
use hanvil.Keys.{KeyCurves, KeyError, predefined_accounts}
use hanvil.Keys.Consecutive.{AreConsecutive, AreOf, sources, predefined_accounts-AreConsecutive}
use hanvil.Chain.{ChainState, Error, first_user_id}
use hanvil.Chain.Supply.{IsSound, supply}
use hanvil.Chain.Seal.Links.{IsLinked}
use hanvil.Chain.Apply.{file_record, apply_hapi}
use hanvil.Chain.Genesis.{Genesis, genesis, total_supply, reindex}
use hanvil.Chain.Genesis.Supply.{genesis-IsSound}
use hanvil.Chain.Genesis.Reindex.{reindex-file_record}
use hanvil.Tests.Samples.{machine, town, payment}

-- Curves on which a secret is its own public key.
abbrev pub key_curves : KeyCurves
key_curves = record {
  hex_decode = λ b. some (take 32 b);
  secp256k1_public = λ b. some (b, b);
  ed25519_verifying = λ b. b;
  keccak256 = λ b. length b;
}

-- One account of each kind, with 100 hbar each.
abbrev pub small_net : Genesis
small_net = record {
  chain_id = 298;
  accounts_per_type = 1;
  balance = 10_000_000_000;
  gas_price = 47;
  now = at_secs 1_000 0;
}

abbrev or_town : Result Error (ChainState ℕ) → ChainState ℕ
or_town (ok s) = s
or_town (err e) = town

abbrev pub born : ChainState ℕ
born = or_town (genesis machine key_curves small_net 0)

pub birth : genesis machine key_curves small_net 0 ≡ ok born
unfolding genesis BTreeMap.insert BTreeMap.get HashMap.get
birth = refl

genesis-IsSound_example : IsSound born × (supply born ≡ total_supply) × IsLinked born
unfolding total_supply
genesis-IsSound_example = genesis-IsSound machine key_curves small_net 0 born birth (omega arith)

abbrev predefined_of : Result KeyError (List Account) → List Account
predefined_of (ok l) = l
predefined_of (err e) = []

abbrev users : List Account
users =
    predefined_of (predefined_accounts key_curves first_user_id 1 10_000_000_000 (at_secs 1_000 0))

three_users :
    predefined_accounts key_curves first_user_id 1 10_000_000_000 (at_secs 1_000 0) ≡ ok users
unfolding predefined_accounts
three_users = refl

predefined_accounts-AreConsecutive_example :
    AreConsecutive first_user_id 10_000_000_000 users
    × AreOf key_curves (sources key_curves 1 10_000_000_000 (at_secs 1_000 0) first_user_id) users
    × (length users ≡ 3)
predefined_accounts-AreConsecutive_example =
    predefined_accounts-AreConsecutive key_curves 1 10_000_000_000 (at_secs 1_000 0) first_user_id
      users three_users

reindex-file_record_example :
    reindex (file_record (apply_hapi machine payment (at_secs 1_006 0) town).0 town)
    ≡ file_record (apply_hapi machine payment (at_secs 1_006 0) town).0 (reindex town)
reindex-file_record_example =
    reindex-file_record (apply_hapi machine payment (at_secs 1_006 0) town).0 town
