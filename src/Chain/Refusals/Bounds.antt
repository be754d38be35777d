-- ===== src/Chain/Refusals/Bounds.antt =====
-- The refusals kept are the newest, at most the cap, with clipped messages; none goes uncounted.
use hanvil.Prelude.{
  ℕ, zero, suc, ◌+◌, ◌-◌, ◌≤◌, ◌<◌, ◌≡◌, ◌≢◌, refl, ◌∙◌, sym, ltb→lt, ltb→ge, true, List, [], ◌∷◌,
  ◌++◌, ltb, ◌==◌, arith, if◌then◌else◌, length, length-append, drop, length-drop, take, Bool-cases,
  inl, inr, Bytes,
}
use hanvil.Word.{u64_mod, add_u64}
use hanvil.Records.{Rejection}
use hanvil.Chain.{ChainState, max_rejection_message_bytes}
use hanvil.Chain.Refusals.{
  is_char_boundary, floor_boundary, ellipsis, clip, pop_excess, reject, rejections_seen,
}

floor_boundary_le : (text : Bytes) (n : ℕ) → floor_boundary text n ≤ n
unfolding floor_boundary
floor_boundary_le text zero = omega arith
floor_boundary_le text (suc n) = ground (arith, floor_boundary_le text n)

length-take-le : (n : ℕ) (xs : Bytes) → length (take n xs) ≤ n
length-take-le zero xs = omega arith
length-take-le (suc n) [] = omega arith
length-take-le (suc n) (x ∷ xs) = omega (arith, length-take-le n xs)

-- The clip ends at a boundary of the characters of the text.
floor_boundary_boundary :
    (text : Bytes) (n : ℕ) → is_char_boundary text (floor_boundary text n) ≡ true
unfolding floor_boundary
floor_boundary_boundary text zero = unfold is_char_boundary in refl
floor_boundary_boundary text (suc n) = ground (arith, floor_boundary_boundary text n)

-- A clipped message is at most 512 bytes and the ellipsis long; a message of at most 512 bytes is
-- kept whole, and a longer one is cut at a character boundary and gets the ellipsis.
clip_bounds :
    (text : Bytes)
    → (length (clip text) ≤ max_rejection_message_bytes + 3)
      × (length text ≤ max_rejection_message_bytes → clip text ≡ text)
      × (max_rejection_message_bytes < length text
          → (n : ℕ) × (is_char_boundary text n ≡ true)
            × (n ≤ max_rejection_message_bytes)
            × (clip text ≡ take n text ++ ellipsis))
unfolding clip
clip_bounds text = (
  ground (
    arith,
    length-append (take (floor_boundary text max_rejection_message_bytes) text) ellipsis,
    length-take-le (floor_boundary text max_rejection_message_bytes) text,
    floor_boundary_le text max_rejection_message_bytes,
  ),
  λ h. ground arith,
  λ h. (
    floor_boundary text max_rejection_message_bytes,
    floor_boundary_boundary text max_rejection_message_bytes,
    floor_boundary_le text max_rejection_message_bytes,
    ground arith,
  ),
)

drop_none : (n : ℕ) (l : List Rejection) → n ≡ 0 → drop n l ≡ l
drop_none zero l h = refl
drop_none (suc n) l h = absurd (omega arith)

drop_one : (n m : ℕ) (r : Rejection) (rs : List Rejection) → n ≡ suc m → drop n (r ∷ rs) ≡ drop m rs
drop_one n m r rs h = rw h

-- The loop drops the excess off the front and counts it.
pop_excess_lem :
    (most : ℕ) (l : List Rejection) (dropped : ℕ)
    → dropped + length l < u64_mod
    → ((pop_excess most l dropped).0 ≡ drop (length l - most) l)
      × ((pop_excess most l dropped).1 ≡ dropped + (length l - most))
unfolding pop_excess add_u64
pop_excess_lem most [] dropped h = (sym (drop_none (0 - most) [] (omega arith)), omega arith)
pop_excess_lem most (r ∷ rs) dropped h = elim (Bool-cases (ltb most (suc (length rs)))) [
  | inl over ↦
      (let ih = pop_excess_lem most rs (add_u64 dropped 1) (omega arith) in
        rw (over, pop_excess)
          (
            ih.0 ∙ sym (drop_one (suc (length rs) - most) (length rs - most) r rs (ground arith)),
            omega (arith, ih.1, ltb→lt most (suc (length rs)) over),
          ))
  | inr fits ↦
      rw (fits, pop_excess)
        (
          sym (drop_none (suc (length rs) - most) (r ∷ rs) (ground arith)),
          omega (arith, ltb→ge most (suc (length rs)) fits),
        )
]

module _ {Db : Type 0} where
  -- What `reject` keeps of the pushed list.
  abbrev pub pushed : Rejection → ChainState Db → List Rejection
  pushed r s = s.rejections ++ record r { message = clip r.message } ∷ []

  reject_uncapped :
      (r : Rejection) (s : ChainState Db)
      → s.max_rejections ≡ 0
      → reject r s ≡ record s { rejections = pushed r s }
  unfolding reject
  reject_uncapped r s h = rw (h, reject)

  -- Where the count of refusals seen has room for one more in a u64: refusing puts the new one
  -- last, with its message clipped; with a cap, the front is dropped down to the cap, with no cap
  -- nothing is; and the count of refusals seen rises by one.
  pub reject_keeps_newest :
      (r : Rejection) (s : ChainState Db)
      → s.rejections_dropped + length s.rejections + 1 < u64_mod
      → ((reject r s).rejections ≡ (
          if s.max_rejections == 0
          then pushed r s
          else drop (length (pushed r s) - s.max_rejections) (pushed r s)))
        × (rejections_seen (reject r s) ≡ rejections_seen s + 1)
        × (s.max_rejections ≢ 0 → length (reject r s).rejections ≤ s.max_rejections)
  unfolding reject rejections_seen
  reject_keeps_newest r s h = (
    ground (arith, popped.0),
    ground (arith, pushed_length, popped.0, popped.1, kept_length),
    λ capped. ground (arith, pushed_length, popped.0, kept_length),
  )
    where
      pushed_length : length (pushed r s) ≡ length s.rejections + 1
      pushed_length = length-append s.rejections (record r { message = clip r.message } ∷ [])

      kept_length :
          length (drop (length (pushed r s) - s.max_rejections) (pushed r s))
          ≡ length (pushed r s) - (length (pushed r s) - s.max_rejections)
      kept_length = length-drop (length (pushed r s) - s.max_rejections) (pushed r s)

      popped :
          ((pop_excess s.max_rejections (pushed r s) s.rejections_dropped).0
            ≡ drop (length (pushed r s) - s.max_rejections) (pushed r s))
          × ((pop_excess s.max_rejections (pushed r s) s.rejections_dropped).1
              ≡ s.rejections_dropped + (length (pushed r s) - s.max_rejections))
      popped =
          pop_excess_lem s.max_rejections (pushed r s) s.rejections_dropped
            (omega (arith, pushed_length, h))
