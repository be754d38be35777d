-- ===== src/Wire/Signatures.antt =====
-- src/keys/sig.rs `signed_by`, and `signature_pairs` and `required_keys` of src/hapi/wire.rs. The
-- curve arithmetic is third-party code: `Curves` has its functions.
use hanvil.Prelude.{
  ℤ, Bool, true, false, ◌&&◌, Option, none, some, List, [], ◌∷◌, ◌++◌, Bytes, ◌==◌, if◌then◌else◌,
  any, length,
}
use hanvil.Prelude.Result.{Result, ok, err}
use hanvil.Blocks.{B256}
use hanvil.Accounts.{EntityId, Account, Key}
use hanvil.Records.{AccountRef, Body}
use hanvil.Records.Responses.{Status}
use hanvil.Chain.{ChainState, account, account_by_evm, topic}
use hanvil.Chain.Transfers.{is_negative}
use hanvil.Wire.Proto.{SigPair, SignatureKind}

pub data Signature : Type 0 where
  ecdsa_secp256k1 ed25519 : Bytes → Signature

pub record SignaturePair : Type 0 where
  pub prefix : Bytes
  pub signature : Signature

-- k256 and ed25519-dalek. A parsed key or signature is kept as its bytes.
pub record Curves : Type 0 where
  pub key_from_sec1 : Bytes → Option Bytes
  pub signature_from_slice : Bytes → Option Bytes
  pub normalize_s : Bytes → Option Bytes
  pub verify_prehash : Bytes → B256 → Bytes → Bool
  pub ed25519_key : Bytes → Option Bytes
  pub ed25519_verify : Bytes → Bytes → Bytes → Bool

-- `public.starts_with(prefix)`
unfoldable pub starts_with : Bytes → Bytes → Bool
starts_with public [] = true
starts_with [] (p ∷ ps) = false
starts_with (b ∷ bs) (p ∷ ps) = b == p && starts_with bs ps

abbrev or_else : Bytes → Option Bytes → Bytes
or_else parsed none = parsed
or_else parsed (some normalised) = normalised

module _ (curves : Curves) (keccak256 : Bytes → B256) where
  unfoldable pub ecdsa_verifies : Bytes → Bytes → Bytes → Bool
  ecdsa_verifies public body signature = elim (curves.key_from_sec1 public) [
    | none ↦ false
    | some verifying ↦ elim (curves.signature_from_slice signature) [
      | none ↦ false
      | some parsed ↦
          curves.verify_prehash verifying (keccak256 body)
            (or_else parsed (curves.normalize_s parsed))
    ]
  ]

  unfoldable pub ed25519_verifies : Bytes → Bytes → Bytes → Bool
  ed25519_verifies public body signature =
      if length signature == 64
      then elim (curves.ed25519_key public) [
        | none ↦ false
        | some verifying ↦ curves.ed25519_verify verifying body signature
      ]
      else false

  abbrev pub pair_signs : Key → Bytes → SignaturePair → Bool
  pair_signs (Key.ecdsa_secp256k1 public) body pair = elim pair.signature [
    | Signature.ecdsa_secp256k1 bytes ↦
        starts_with public pair.prefix && ecdsa_verifies public body bytes
    | Signature.ed25519 bytes ↦ false
  ]
  pair_signs (Key.ed25519 public) body pair = elim pair.signature [
    | Signature.ed25519 bytes ↦ starts_with public pair.prefix && ed25519_verifies public body bytes
    | Signature.ecdsa_secp256k1 bytes ↦ false
  ]

  unfoldable pub signed_by : Key → Bytes → List SignaturePair → Bool
  unfolding starts_with ecdsa_verifies ed25519_verifies
  signed_by key body pairs = any (pair_signs key body) pairs

abbrev keep_pair : Bytes → Option SignatureKind → List SignaturePair → List SignaturePair
keep_pair prefix none rest = rest
keep_pair prefix (some (SignatureKind.ed25519 bytes)) rest =
    record { prefix = prefix; signature = Signature.ed25519 bytes } ∷ rest
keep_pair prefix (some (SignatureKind.ecdsa_secp256k1 bytes)) rest =
    record { prefix = prefix; signature = Signature.ecdsa_secp256k1 bytes } ∷ rest
keep_pair prefix (some SignatureKind.other) rest = rest

unfoldable pub pairs_of : List SigPair → List SignaturePair
pairs_of [] = []
pairs_of (p ∷ ps) = keep_pair p.pub_key_prefix p.signature (pairs_of ps)

unfoldable pub signature_pairs : Option (List SigPair) → List SignaturePair
unfolding pairs_of
signature_pairs none = []
signature_pairs (some l) = pairs_of l

abbrev key_list : Option Key → List Key
key_list none = []
key_list (some k) = k ∷ []

abbrev account_key : Option Account → List Key
account_key none = []
account_key (some a) = key_list a.key

module _ {Db : Type 0} (s : ChainState Db) where
  abbrev debit_key : EntityId → Option EntityId → List Key
  debit_key payer none = []
  debit_key payer (some i) = if i == payer then [] else account_key (account s i)

  abbrev id_of : AccountRef → Option EntityId
  id_of (AccountRef.id i) = some i
  id_of (AccountRef.alias address) = elim (account_by_evm s address) [
    | none ↦ none
    | some a ↦ some a.id
  ]

  -- the keys of the debited accounts other than the payer, in order
  unfoldable pub debit_keys : EntityId → List (AccountRef × ℤ) → List Key
  unfolding account_by_evm
  debit_keys payer [] = []
  debit_keys payer ((ref, amount) ∷ rest) =
      (if is_negative amount then debit_key payer (id_of ref) else []) ++ debit_keys payer rest

  -- Every key that must have signed, the payer's first.
  unfoldable pub required_keys : EntityId → Body → Result Status (List Key)
  unfolding debit_keys
  required_keys payer (Body.transfer amounts) =
      ok (account_key (account s payer) ++ debit_keys payer amounts)
  required_keys payer (Body.delete target to) = ok (
      account_key (account s payer)
      ++ (if target == payer then [] else account_key (account s target)))
  required_keys payer (Body.submit_message t message) = elim (topic s t) [
    | none ↦ err Status.invalid_topic_id
    | some target ↦ ok (account_key (account s payer) ++ key_list target.submit_key)
  ]
  required_keys payer _ = ok (account_key (account s payer))
