-- ===== src/Chain/Refusals.antt =====
-- The submissions refused before consensus, of src/state/mod.rs: the newest are kept, clipped.
pub mod Bounds
use hanvil.Prelude.{
  ℕ, zero, suc, Bool, true, false, ◌||◌, List, [], ◌∷◌, ◌++◌, Bytes, ltb, leb, ◌==◌, if◌then◌else◌,
  length, take, get_elem?, Option, none, some,
}
use hanvil.Word.{add_u64}
use hanvil.Records.{Rejection}
use hanvil.Chain.{ChainState, max_rejection_message_bytes}

-- `str::is_char_boundary`: the two ends, and each byte that does not continue a character.
abbrev byte_starts : Option ℕ → Bool
byte_starts none = false
byte_starts (some b) = ltb b 128 || leb 192 b

unfoldable pub is_char_boundary : Bytes → ℕ → Bool
is_char_boundary text zero = true
is_char_boundary text (suc i) = suc i == length text || byte_starts (get_elem? text (suc i))

-- `while end > 0 && !is_char_boundary(end) { end -= 1 }`
unfoldable pub floor_boundary : Bytes → ℕ → ℕ
unfolding is_char_boundary
floor_boundary text zero = zero
floor_boundary text (suc i) =
    let lower = floor_boundary text i in if is_char_boundary text (suc i) then suc i else lower

-- the bytes of `…`
abbrev pub ellipsis : Bytes
ellipsis = 0xe2 ∷ 0x80 ∷ 0xa6 ∷ []

unfoldable pub clip : Bytes → Bytes
unfolding floor_boundary
clip text =
    if ltb max_rejection_message_bytes (length text)
    then take (floor_boundary text max_rejection_message_bytes) text ++ ellipsis
    else text

-- `while len > max { pop_front(); dropped += 1 }`
unfoldable pub pop_excess : ℕ → List Rejection → ℕ → List Rejection × ℕ
unfolding add_u64
pop_excess most [] dropped = ([], dropped)
pop_excess most (r ∷ rs) dropped =
    let rest = pop_excess most rs (add_u64 dropped 1) in
    if ltb most (length (r ∷ rs)) then rest else (r ∷ rs, dropped)

module _ {Db : Type 0} where
  unfoldable pub reject : Rejection → ChainState Db → ChainState Db
  reject r s =
      let pushed = s.rejections ++ record r { message = clip r.message } ∷ [] in
      if s.max_rejections == 0
      then record s { rejections = pushed }
      else (let (kept, dropped) = pop_excess s.max_rejections pushed s.rejections_dropped in
          record s { rejections = kept; rejections_dropped = dropped })

  unfoldable pub rejections_seen : ChainState Db → ℕ
  unfolding add_u64
  rejections_seen s = add_u64 s.rejections_dropped (length s.rejections)

  abbrev pub set_max_rejections : ℕ → ChainState Db → ChainState Db
  set_max_rejections most s = record s { max_rejections = most }
