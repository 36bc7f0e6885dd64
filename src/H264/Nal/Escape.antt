-- ===== src/H264/Nal/Escape.antt =====
-- The emulation prevention bytes of `append_annexb_nal` against the loop that takes them out.
use lin_de_x.Base.{
  ℕ, zero, suc, ◌+◌, ◌*◌, ◌<◌, ◌≤◌, leb, ◌==◌, ◌&&◌, true, false, List, [], ◌∷◌, ◌++◌, length,
  if◌then◌else◌, Result, ok, err, ◌≡◌, refl, arith, Bool-cases, inl, inr, subst, sym,
}
use lin_de_x.H264.Nal.{count_zero, emit, append_loop, unescape}

-- The bytes with a 3 before each that follows two zeroes and is at most 3.
unfoldable pub escape : ℕ → List ℕ → List ℕ
escape zero_count [] = []
escape zero_count (byte ∷ rest) =
    let plain = escape (count_zero zero_count byte) rest in
    let escaped = escape (count_zero 0 byte) rest in
    if leb 2 zero_count && leb byte 3 then 3 ∷ byte ∷ escaped else byte ∷ plain

emit-room :
    (capacity size byte : ℕ) (rest : Result (List ℕ)) (out : List ℕ)
    → size < capacity
    → rest ≡ ok out
    → emit capacity size byte rest ≡ ok (byte ∷ out)
unfolding emit
emit-room capacity size byte rest out h e =
    let room : leb capacity size ≡ false = ground arith in rw (room, e) refl

emit-inverse :
    (capacity size byte : ℕ) (rest : Result (List ℕ)) (out : List ℕ)
    → emit capacity size byte rest ≡ ok out
    → (tail : List ℕ) × (rest ≡ ok tail) × (out ≡ byte ∷ tail)
unfolding emit
emit-inverse capacity size byte (err failed) out h = absurd (ground (arith, h))
emit-inverse capacity size byte (ok tail) out h = (tail, refl, ground (arith, h))

-- Two output bytes for each input byte are room enough.
pub append_loop-room :
    (capacity size zero_count : ℕ) (bytes : List ℕ)
    → size + 2 * length bytes ≤ capacity
    → append_loop capacity size zero_count bytes ≡ ok (escape zero_count bytes)
unfolding append_loop escape
append_loop-room capacity size zero_count [] h = refl
append_loop-room capacity size zero_count (byte ∷ rest) h =
    elim (Bool-cases (leb 2 zero_count && leb byte 3)) [
      | inl e ↦ rw e (
          emit-room capacity size 3 _ _ (omega arith) (
            emit-room capacity (size + 1) byte _ _ (omega arith)
              (append_loop-room capacity (size + 2) (count_zero 0 byte) rest (omega arith))))
      | inr e ↦ rw e (
          emit-room capacity size byte _ _ (omega arith)
            (append_loop-room capacity (size + 1) (count_zero zero_count byte) rest (omega arith)))
    ]

-- What is taken out of the escaped bytes are the bytes.
pub unescape-escape :
    (room zero_count : ℕ) (bytes : List ℕ)
    → length bytes ≤ room
    → unescape room zero_count (escape zero_count bytes) ≡ bytes
unfolding unescape escape count_zero
unescape-escape room zero_count [] h = refl
unescape-escape zero zero_count (byte ∷ rest) h = absurd (omega arith)
unescape-escape (suc room) zero_count (byte ∷ rest) h =
    elim (Bool-cases (leb 2 zero_count && leb byte 3)) [
      | inl e ↦
          let late : leb 2 zero_count ≡ true = ground arith in
          rw (e, late, unescape-escape room (count_zero 0 byte) rest (omega arith)) refl
      | inr e ↦
          let kept : (leb 2 zero_count && byte == 3) ≡ false = ground arith in
          rw (e, kept, unescape-escape room (count_zero zero_count byte) rest (omega arith)) refl
    ]

-- Two zeroes and a byte of at most 2 stand in a row, `zero_count` zeroes before the bytes counted.
unfoldable pub NoPattern : ℕ → List ℕ → Type 0
NoPattern zero_count [] = Unit
NoPattern zero_count (byte ∷ rest) =
    (2 ≤ zero_count → 2 < byte) × NoPattern (count_zero zero_count byte) rest

pub escape-NoPattern :
    (zero_count : ℕ) (bytes : List ℕ) → NoPattern zero_count (escape zero_count bytes)
unfolding escape NoPattern count_zero
escape-NoPattern zero_count [] = tt
escape-NoPattern zero_count (byte ∷ rest) = elim (Bool-cases (leb 2 zero_count && leb byte 3)) [
  | inl e ↦ rw e (
    λ l. omega arith,
    (λ (l : 2 ≤ 0). absurd (omega (arith, l)), escape-NoPattern (count_zero 0 byte) rest),
  )
  | inr e ↦
      let large : 2 ≤ zero_count → 2 < byte = λ l. ground arith in
      rw e (large, escape-NoPattern (count_zero zero_count byte) rest)
]

-- No start code, and no other three bytes 0, 0 and at most 2, stands in what has no pattern.
pub NoPattern-apart :
    (zero_count : ℕ) (before after : List ℕ) (byte : ℕ)
    → NoPattern zero_count (before ++ (0 ∷ 0 ∷ byte ∷ after))
    → 2 < byte
unfolding NoPattern count_zero
NoPattern-apart zero_count [] after byte (_, (_, (h, _))) = h (omega arith)
NoPattern-apart zero_count (b ∷ before) after byte (_, rest) =
    NoPattern-apart (count_zero zero_count b) before after byte rest

-- What the loop writes, if it has the room.
append_loop-escape :
    (capacity size zero_count : ℕ) (bytes out : List ℕ)
    → append_loop capacity size zero_count bytes ≡ ok out
    → out ≡ escape zero_count bytes
unfolding append_loop escape
append_loop-escape capacity size zero_count [] out h = ground (arith, h)
append_loop-escape capacity size zero_count (byte ∷ rest) out h =
    elim (Bool-cases (leb 2 zero_count && leb byte 3)) [
      | inl e ↦
          let (tail, tail_out, all) = emit-inverse capacity size 3 _ out (rw e at h) in
          let (last, last_out, more) = emit-inverse capacity (size + 1) byte _ tail tail_out in
          rw
            (
              e,
              all,
              more,
              append_loop-escape capacity (size + 2) (count_zero 0 byte) rest last last_out,
            )
            refl
      | inr e ↦
          let (tail, tail_out, all) = emit-inverse capacity size byte _ out (rw e at h) in
          rw
            (
              e,
              all,
              append_loop-escape capacity (size + 1) (count_zero zero_count byte) rest tail
                  tail_out,
            )
            refl
    ]

-- What the writer of a unit puts out for some bytes, if it has the room, is read back by the reader
-- of a unit as these bytes, if they fit the reader.
pub unescape-append_loop :
    (capacity size room : ℕ) (bytes out : List ℕ)
    → length bytes ≤ room
    → append_loop capacity size 0 bytes ≡ ok out
    → unescape room 0 out ≡ bytes
unescape-append_loop capacity size room bytes out l h =
    rw (append_loop-escape capacity size 0 bytes out h, unescape-escape room 0 bytes l) refl

-- In what the writer of a unit puts out behind the unit's header, two zeroes that stand in a row
-- are followed only by a byte above 2, so that no start code stands in it.
pub append_loop-apart :
    (capacity size : ℕ) (bytes before after : List ℕ) (byte : ℕ)
    → append_loop capacity size 0 bytes ≡ ok (before ++ (0 ∷ 0 ∷ byte ∷ after))
    → 2 < byte
append_loop-apart capacity size bytes before after byte h = NoPattern-apart 0 before after byte (
    subst (NoPattern 0) (sym (append_loop-escape capacity size 0 bytes _ h))
      (escape-NoPattern 0 bytes))
