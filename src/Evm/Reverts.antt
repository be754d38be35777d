-- ===== src/Evm/Reverts.antt =====
-- `revert_stub` and `revert_reason` of src/evm/mod.rs: revert data and the code that returns it.
pub mod Machine
pub mod RoundTrip
use hanvil.Prelude.{
  ℕ, zero, suc, ◌+◌, ◌*◌, ◌-◌, ◌%◌, ◌^◌, ◌==◌, Bool, true, false, ◌&&◌, List, [], ◌∷◌, ◌++◌, Bytes,
  length, ltb, leb, take, drop, if◌then◌else◌,
}
use hanvil.Word.{u64_mod}
use hanvil.Blocks.{be_bytes}
use hanvil.Text.{same_text}

-- `Error(string)` and `Panic(uint256)`
abbrev pub error_selector : Bytes
error_selector = 0x08 ∷ 0xc3 ∷ 0x79 ∷ 0xa0 ∷ []

abbrev pub panic_selector : Bytes
panic_selector = 0x4e ∷ 0x48 ∷ 0x7b ∷ 0x71 ∷ []

-- `while (data.len() - 4) % 32 != 0 { data.push(0) }`, for as many rounds as are left
unfoldable pub pad : ℕ → Bytes → Bytes
pad zero bytes = bytes
pad (suc rounds) bytes =
    let padded = pad rounds (bytes ++ 0 ∷ []) in
    if (length bytes - 4) % 32 == 0 then bytes else padded

-- Fewer than 32 zeros fill the last word.
unfoldable pub revert_data : Bytes → Bytes
unfolding pad be_bytes
revert_data reason =
    pad 32 (error_selector ++ (be_bytes 32 32 ++ (be_bytes 32 (length reason) ++ reason)))

abbrev pub data_offset : ℕ
data_offset = 15

-- CODECOPY of the data behind the code, then REVERT with it.
unfoldable pub revert_stub : Bytes → Bytes
unfolding revert_data be_bytes
revert_stub reason =
    let content = revert_data reason in
    let len = length content % 2 ^ 16 in
    0x61 ∷ be_bytes 2 len
    ++ (0x61 ∷ be_bytes 2 data_offset
        ++ (0x60 ∷ 0x00 ∷ 0x39 ∷ 0x61 ∷ be_bytes 2 len ++ (0x60 ∷ 0x00 ∷ 0xfd ∷ content)))

-- `from_be_slice`, behind the number read so far
unfoldable pub from_be : ℕ → Bytes → ℕ
from_be acc [] = acc
from_be acc (b ∷ bs) = from_be (acc * 256 + b) bs

abbrev pub slice : ℕ → ℕ → Bytes → Bytes
slice from to bytes = take (to - from) (drop from bytes)

-- `to::<usize>()` panics on a number that does not fit.
pub data Reason : Type 0 where
  no_reason panics : Reason
  text : Bytes → Reason
  panic_code : ℕ → Reason

module _ (from_utf8_lossy : Bytes → Bytes) where
  -- `data.get(68..68 + len)?`
  abbrev pub text_of : Bytes → ℕ → Reason
  text_of bytes len =
      if ltb len u64_mod
      then (if leb (68 + len) (length bytes)
          then text (from_utf8_lossy (slice 68 (68 + len) bytes))
          else no_reason)
      else panics

  unfoldable pub revert_reason : Bytes → Reason
  unfolding from_be
  revert_reason bytes =
      if leb 68 (length bytes) && same_text (take 4 bytes) error_selector
      then text_of bytes (from_be 0 (slice 36 68 bytes))
      else if length bytes == 36 && same_text (take 4 bytes) panic_selector
      then panic_code (from_be 0 (slice 4 36 bytes))
      else no_reason
