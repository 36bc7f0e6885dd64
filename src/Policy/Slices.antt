-- ===== src/Policy/Slices.antt =====
-- src/vaapi_advc/advc_vaapi_slice_layout.c: offsets into one slice buffer become offsets into the
-- access unit that it is appended to. A size is 64 bits wide, and the sums stay below `maximum`.
use lin_de_x.Base.{
  ℕ, ◌+◌, ◌-◌, ◌^◌, ◌==◌, ltb, ◌&&◌, ◌||◌, not, Bool, true, false, List, [], ◌∷◌, if◌then◌else◌,
  Result, ok, err, einval, ◌≡◌, ◌≤◌, ◌<◌, arith, refl, Bool-cases, inl, inr, ◌%◌, ◌⊎◌,
}

abbrev pub uint32_max : ℕ
uint32_max = 2 ^ 32 - 1

-- One offset with the size at the same index.
pub record Span : Type 0 where
  pub offset : ℕ
  pub size : ℕ

unfoldable pub span_ok : ℕ → ℕ → Span → Bool
span_ok aggregate local_size s = not (
    ltb local_size s.offset
    || s.size == 0
    || ltb (local_size - s.offset) s.size
    || ltb uint32_max (aggregate + s.offset))

unfoldable pub spans_ok : ℕ → ℕ → List Span → Bool
spans_ok aggregate local_size [] = true
spans_ok aggregate local_size (s ∷ ss) =
    span_ok aggregate local_size s && spans_ok aggregate local_size ss

unfoldable pub sizes_ok : ℕ → ℕ → ℕ → List Span → Bool
sizes_ok aggregate local_size maximum [] = false
sizes_ok aggregate local_size maximum (s ∷ ss) = not (
    local_size == 0
    || ltb maximum aggregate
    || ltb (maximum - aggregate) local_size
    || ltb uint32_max (aggregate + local_size))

unfoldable pub rebased : ℕ → List Span → List Span
rebased aggregate [] = []
rebased aggregate (s ∷ ss) =
    record s { offset = (aggregate + s.offset) % 2 ^ 32 } ∷ rebased aggregate ss

-- The result, and the array after the call.
unfoldable pub rebase_slice_offsets : List Span → ℕ → ℕ → ℕ → Result (Unit {0}) × List Span
rebase_slice_offsets spans aggregate local_size maximum =
    if sizes_ok aggregate local_size maximum spans && spans_ok aggregate local_size spans
    then (ok tt, rebased aggregate spans)
    else (err einval, spans)

-- A span lies in the part of the access unit that was appended, and moved with it.
pub data Moved (aggregate local_size : ℕ) : List Span → List Span → Type 0 where
  no_spans : Moved aggregate local_size [] []
  move_span :
      {s t : Span} {ss ts : List Span}
      → t.offset ≡ aggregate + s.offset
      → t.size ≡ s.size
      → 0 < s.size
      → t.offset + t.size ≤ aggregate + local_size
      → Moved aggregate local_size ss ts
      → Moved aggregate local_size (s ∷ ss) (t ∷ ts)

rebased-Moved :
    (aggregate local_size : ℕ) (spans : List Span)
    → spans_ok aggregate local_size spans ≡ true
    → Moved aggregate local_size spans (rebased aggregate spans)
unfolding spans_ok span_ok rebased
rebased-Moved aggregate local_size [] h = no_spans
rebased-Moved aggregate local_size (s ∷ ss) h =
    move_span (ground arith) refl (ground arith) (ground arith)
      (rebased-Moved aggregate local_size ss (ground arith))

-- A call succeeds with every span moved by the size of the access unit, not empty, inside the part
-- that is appended, with the whole within the maximum and 32 bits; or it fails with EINVAL and the
-- spans as they were.
pub rebase_slice_offsets_lem :
    (spans : List Span) (aggregate local_size maximum : ℕ)
    → let (result, after) = rebase_slice_offsets spans aggregate local_size maximum in
      ((result ≡ ok tt)
        × Moved aggregate local_size spans after
        × (aggregate + local_size ≤ maximum)
        × (aggregate + local_size ≤ uint32_max))
      ⊎ ((result ≡ err einval) × (after ≡ spans))
unfolding rebase_slice_offsets sizes_ok
rebase_slice_offsets_lem [] aggregate local_size maximum = inr (refl, refl)
rebase_slice_offsets_lem (s ∷ ss) aggregate local_size maximum =
    elim (Bool-cases
      (sizes_ok aggregate local_size maximum (s ∷ ss) && spans_ok aggregate local_size (s ∷ ss))) [
        | inl e ↦
            rw (e, rebase_slice_offsets)
              (inl (
                refl,
                rebased-Moved aggregate local_size (s ∷ ss) (ground arith),
                ground arith,
                ground arith,
              ))
        | inr e ↦ rw (e, rebase_slice_offsets) (inr (refl, refl))
      ]
