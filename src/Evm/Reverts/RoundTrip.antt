-- ===== src/Evm/Reverts/RoundTrip.antt =====
-- The revert data of a stub gives its reason back.
use hanvil.Prelude.{ℕ, zero, suc, ◌/◌, ◌≡◌, ◌∷◌, ◌++◌, Bytes}
use hanvil.Blocks.{be_bytes}
use hanvil.Evm.Reverts.{error_selector}

-- The number fits `w` bytes.
abbrev Fits : ℕ → ℕ → Type 0
Fits zero n = n ≡ 0
Fits (suc w) n = Fits w (n / 256)

-- The data of `Error(string)`: the selector, the offset of the text, its length, and the text.
encoded : (size tail : Bytes) → Bytes
encoded size tail = error_selector ++ (be_bytes 32 32 ++ (size ++ tail))

module _ (high low : ℕ) (content : Bytes) where
  stub : Bytes
  stub =
      0x61 ∷ high ∷ low ∷ 0x61 ∷ 0 ∷ 15 ∷ 0x60 ∷ 0 ∷ 0x39 ∷ 0x61 ∷ high ∷ low ∷ 0x60 ∷ 0 ∷ 0xfd
      ∷ content
