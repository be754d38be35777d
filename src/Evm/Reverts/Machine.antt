-- ===== src/Evm/Reverts/Machine.antt =====
-- The part of the EVM that a stub runs on: PUSH1, PUSH2, CODECOPY and REVERT, from the yellow paper
-- and not from the program, so that what a stub does can be said apart from how it is built.
use hanvil.Prelude.{
  ℕ, zero, suc, ◌+◌, ◌==◌, true, false, Option, none, some, List, [], ◌∷◌, ◌++◌, Bytes, take, drop,
  replicate,
}
use hanvil.Evm.Reverts.{from_be}

-- `dest`, `offset` and `len` of a CODECOPY. Behind its end, the code is zeros.
abbrev pub copied : Bytes → ℕ → ℕ → ℕ → Bytes → Bytes
copied code dest offset len memory =
    take dest (memory ++ replicate dest 0)
    ++ (take len (drop offset code ++ replicate len 0) ++ drop (dest + len) memory)

abbrev pub returned : ℕ → ℕ → Bytes → Bytes
returned offset len memory = take len (drop offset memory ++ replicate len 0)

-- The data that the code reverts with, in at most so many steps; none for any other end.
unfoldable pub run : ℕ → Bytes → Bytes → List ℕ → Bytes → Option Bytes
unfolding from_be
run zero code rest stack memory = none
run (suc n) code [] stack memory = none
run (suc n) code (op ∷ rest) stack memory = elim (op == 0x60) [
  | true ↦ run n code (drop 1 rest) (from_be 0 (take 1 rest) ∷ stack) memory
  | false ↦ elim (op == 0x61) [
    | true ↦ run n code (drop 2 rest) (from_be 0 (take 2 rest) ∷ stack) memory
    | false ↦ elim (op == 0x39) [
      | true ↦ elim stack [
        | [] ↦ none
        | dest ∷ s1 ↦ elim s1 [
          | [] ↦ none
          | offset ∷ s2 ↦ elim s2 [
            | [] ↦ none
            | len ∷ s3 ↦ run n code rest s3 (copied code dest offset len memory)
          ]
        ]
      ]
      | false ↦ elim (op == 0xfd) [
        | false ↦ none
        | true ↦ elim stack [
          | [] ↦ none
          | offset ∷ s1 ↦ elim s1 [ [] ↦ none | len ∷ s2 ↦ some (returned offset len memory) ]
        ]
      ]
    ]
  ]
]

-- A call of the code, with an empty stack and memory.
abbrev pub reverts_with : Bytes → Option Bytes
reverts_with code = run 16 code code [] []
