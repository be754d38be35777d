-- ===== src/Mirror/Ids.antt =====
-- Transaction ids are read back from their text.
use hanvil.Prelude.{
  ℕ, zero, suc, ◌-◌, ◌<◌, ◌≡◌, refl, ◌∙◌, ap, sym, arith, false, some, List, [], ◌∷◌, ◌++◌, ◌==◌,
  Bytes, length, length-append, replicate, All,
}
use hanvil.Prelude.Result.{ok}
use hanvil.Word.{digits, decimal, u64_mod}
use hanvil.Time.{Timestamp}
use hanvil.Accounts.{EntityId, entity_text}
use hanvil.Text.{split_on}
use hanvil.Harness.Signer.{read_digits, read_u64, nine_digits}
use hanvil.Harness.Signer.EntityIds.{
  IsDigit, read_digit, digits-IsDigit, some_digit, read_u64_digits, read_u64-digits, split_entity,
}
use hanvil.Mirror.{
  transaction_id_text, entity_of_split, entity_of_text, parse_u32, parse_transaction_id,
}

-- The separator is not in the text.
abbrev IsFree : ℕ → Bytes → Type 0
IsFree sep cs = All (λ c. (c == sep) ≡ false) cs

IsDigit-IsFree : (sep : ℕ) (cs : Bytes) → sep < 48 → All IsDigit cs → IsFree sep cs
IsDigit-IsFree sep [] low a = tt
IsDigit-IsFree sep (c ∷ cs) low a = (ground arith, IsDigit-IsFree sep cs low a.1)

split_on-IsFree : (sep : ℕ) (cs : Bytes) → IsFree sep cs → split_on sep cs ≡ cs ∷ []
split_on-IsFree sep [] a = refl
split_on-IsFree sep (c ∷ cs) a = rw (split_on-IsFree sep cs a.1) (rw a.0 refl)

split_on-append :
    (cs rest part : Bytes) (parts : List Bytes)
    → IsFree 45 cs
    → split_on 45 rest ≡ part ∷ parts
    → split_on 45 (cs ++ (45 ∷ rest)) ≡ cs ∷ part ∷ parts
split_on-append [] rest part parts a h = rw h refl
split_on-append (c ∷ cs) rest part parts a h =
    rw (split_on-append cs rest part parts a.1 h) (rw a.0 refl)

zeros-IsDigit : (k : ℕ) (cs : Bytes) → All IsDigit cs → All IsDigit (replicate k 48 ++ cs)
zeros-IsDigit zero cs a = a
zeros-IsDigit (suc k) cs a = ((omega arith, omega arith), zeros-IsDigit k cs a)

read_digits-zeros : (k : ℕ) (cs : Bytes) → read_digits 0 (replicate k 48 ++ cs) ≡ read_digits 0 cs
read_digits-zeros zero cs = refl
read_digits-zeros (suc k) cs =
    read_digit 0 0 (replicate k 48 ++ cs) (omega arith) (omega arith) ∙ read_digits-zeros k cs

nine_digits-IsDigit : (n : ℕ) → All IsDigit (nine_digits n)
unfolding decimal
nine_digits-IsDigit n =
    zeros-IsDigit (9 - length (decimal n)) (decimal n) (digits-IsDigit 20 n [] tt)

read_u64-nine_digits : (n : ℕ) → n < u64_mod → read_u64 (nine_digits n) ≡ some n
unfolding decimal
read_u64-nine_digits n small =
    let k = 9 - length (decimal n) in
    read_u64_digits (nine_digits n)
      (omega (arith, length-append (replicate k 48) (decimal n), some_digit 19 n))
      (nine_digits-IsDigit n)
    ∙ (read_digits-zeros k (decimal n)
        ∙ (sym (read_u64_digits (decimal n) (some_digit 19 n) (digits-IsDigit 20 n [] tt))
            ∙ read_u64-digits n small))

entity_of_text-entity_text :
    (id : EntityId) → id < u64_mod → entity_of_text (entity_text id) ≡ some id
unfolding entity_of_text entity_text decimal
entity_of_text-entity_text id small =
    let shown : Bytes = digits 20 id [] in
    ap entity_of_split (
      split_entity shown (
        split_on-IsFree 46 shown
          (IsDigit-IsFree 46 shown (omega arith) (digits-IsDigit 20 id [] tt))))
    ∙ read_u64-digits id small

-- The parts of a transaction id's text.
transaction_id_text-parts :
    (payer : EntityId) (t : Timestamp)
    → split_on 45 (transaction_id_text payer t)
      ≡ entity_text payer ∷ decimal t.secs ∷ nine_digits t.nanos ∷ []
unfolding transaction_id_text entity_text decimal
transaction_id_text-parts payer t =
    let free : (n : ℕ) → IsFree 45 (digits 20 n []) =
      λ n. IsDigit-IsFree 45 (digits 20 n []) (omega arith) (digits-IsDigit 20 n [] tt) in
    split_on-append (entity_text payer) _ (decimal t.secs) (nine_digits t.nanos ∷ [])
      (refl, (refl, (refl, (refl, free payer))))
      (split_on-append (decimal t.secs) _ (nine_digits t.nanos) [] (free t.secs) (
        split_on-IsFree 45 (nine_digits t.nanos)
          (IsDigit-IsFree 45 (nine_digits t.nanos) (omega arith) (nine_digits-IsDigit t.nanos))))

-- The text of a transaction id, of a payer and seconds that are u64s and nanoseconds that are a u32,
-- is read back as that payer and time.
pub parse_transaction_id-transaction_id_text :
    (payer : EntityId) (t : Timestamp)
    → payer < u64_mod
    → t.secs < u64_mod
    → t.nanos < 4_294_967_296
    → parse_transaction_id (transaction_id_text payer t) ≡ ok (payer, t)
unfolding parse_transaction_id decimal
parse_transaction_id-transaction_id_text payer t small_payer small_secs small_nanos =
    rw (parse_transaction_id, transaction_id_text-parts payer t)
      (rw (entity_of_text-entity_text payer small_payer, read_u64-digits t.secs small_secs)
        (rw (parse_u32, read_u64-nine_digits t.nanos (omega arith)) (ground arith)))
