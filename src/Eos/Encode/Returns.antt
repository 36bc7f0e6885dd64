-- ===== src/Eos/Encode/Returns.antt =====
-- The waiting loop of `advc_vaapi_encode_eos_finish` in src/vaapi_advc/advc_vaapi_encode_eos.c, and
-- the clock and the frames that bound it.
use lin_de_x.Base.{
  ℕ, zero, suc, ◌+◌, ◌-◌, ◌==◌, ltb, leb, ◌||◌, Bool, true, false, Option, none, some, ◌<◌, ◌≤◌,
  ◌≡◌, ◌⊎◌, refl, arith, Bool-cases, inl, inr,
}
use lin_de_x.Eos.Encode.{
  State, Call, fine, wrong, Tick, Ops, Reply, drained, ticked, wait_loop, start_wait, signalled,
  encode_eos_finish, uint64_max,
}

-- A round of draining that reports neither an error nor the end of the stream, with the world behind
-- it.
abbrev pub IsQuiet : {W : Type 0} → Call × Bool × W → Type 0
IsQuiet r = (r.0 ≡ fine) × (r.1 ≡ false)

-- The clock of a world, in milliseconds, and the frames that its encoder still owes. Reading the clock
-- returns it; neither that nor the signal adds to the frames. A quiet round takes one of the frames,
-- as `context_eos_drain_once` of advc_vaapi_encode_runtime.c does even if its output is there at once,
-- or takes time, and turns neither back.
pub record Advances {W : Type 0} (ops : Ops W) (clock owed : W → ℕ) : Type 0 where
  pub reads : (w : W) → (ops.now_ms w).0.now ≡ clock w
  pub read_keeps : (w : W) → clock (ops.now_ms w).1 ≡ clock w
  pub read_owes : (w : W) → owed (ops.now_ms w).1 ≤ owed w
  pub signal_owes : (w : W) (pts : ℕ) → owed (ops.signal_eos w pts).1 ≤ owed w
  pub drains :
      (w : W) (ms : ℕ)
      → let r = ops.drain_once w ms in
        IsQuiet r
        → ((owed r.2 < owed w) × (clock w ≤ clock r.2))
          ⊎ ((owed r.2 ≤ owed w) × (clock w < clock r.2))

abbrev pub Returns : {W : Type 0} → Option (Reply W) → Type 0
Returns none = ⊥
Returns (some q) = Unit

module _ {W : Type 0} (ops : Ops W) (clock owed : W → ℕ) (advances : Advances ops clock owed) where
  -- A world behind a quiet round in the first one.
  abbrev Later : W → W → Type 0
  Later w v = ((owed v < owed w) × (clock w ≤ clock v)) ⊎ ((owed v ≤ owed w) × (clock w < clock v))

  drained-Returns :
      (next : State → W → Option (Reply W)) (before : W) (s : State) (r : Call × Bool × W)
      → ((v : W) → Returns (next (record s { eos_received = true }) v))
      → ((v : W) → Later before v → Returns (next s v))
      → (IsQuiet r → Later before r.2)
      → Returns (drained ops next s r)
  unfolding drained
  drained-Returns next before s (wrong e, b, w) h g c = tt
  drained-Returns next before s (fine, true, w) h g c = h w
  drained-Returns next before s (fine, false, w) h g c = g w (c (refl, refl))

  ticked-Returns :
      (next : State → W → Option (Reply W)) (deadline : ℕ) (s : State) (r : Tick × W)
      → ((v : W) → Returns (next (record s { eos_received = true }) v))
      → (r.0.now < deadline → (v : W) → Later r.1 v → Returns (next s v))
      → Returns (ticked ops next deadline s r)
  unfolding ticked
  ticked-Returns next deadline s (t, w) h g = elim (Bool-cases (t.now == uint64_max)) [
    | inl bad ↦ rw bad tt
    | inr good ↦ rw good (elim (Bool-cases (leb deadline t.now)) [
      | inl late ↦ rw late tt
      | inr early ↦
          rw early (drained-Returns next w s _ h (g (ground (arith, early))) (advances.drains w _))
    ])
  ]

  -- Every round that is not the last takes from what is left of the time or of the frames.
  wait_loop-Returns :
      (fuel deadline : ℕ) (s : State) (w : W)
      → (s.eos_received ≡ false → deadline - clock w + owed w + 1 < fuel)
      → 0 < fuel
      → Returns (wait_loop ops fuel deadline s w)
  unfolding wait_loop
  wait_loop-Returns zero deadline s w h p = absurd (omega arith)
  wait_loop-Returns (suc fuel) deadline s w h p = elim (Bool-cases s.eos_received) [
    | inl got ↦ simp got tt
    | inr n ↦ simp n (
        ticked-Returns (wait_loop ops fuel deadline) deadline s (ops.now_ms w)
          (λ v.
            wait_loop-Returns fuel deadline (record s { eos_received = true }) v (λ x. cc)
              (omega (arith, h n)))
          (λ early v later.
            wait_loop-Returns fuel deadline s v
              (λ x.
                omega (
                  arith,
                  h n,
                  later,
                  advances.reads w,
                  advances.read_keeps w,
                  advances.read_owes w,
                ))
              (omega (arith, h n))))
  ]

  start_wait-Returns :
      (fuel timeout : ℕ) (s : State) (w : W)
      → timeout + owed w + 1 < fuel
      → Returns (start_wait ops fuel timeout s (ops.now_ms w))
  unfolding start_wait
  start_wait-Returns fuel timeout s w h =
      elim (Bool-cases
        ((ops.now_ms w).0.now == uint64_max || ltb (uint64_max - (ops.now_ms w).0.now) timeout)) [
          | inl bad ↦ rw bad tt
          | inr good ↦ rw good (
              wait_loop-Returns fuel _ s _
                (λ x. omega (arith, advances.reads w, advances.read_keeps w, advances.read_owes w))
                (omega arith))
        ]

  signalled-Returns :
      (fuel timeout : ℕ) (s : State) (r : Call × W)
      → timeout + owed r.1 + 1 < fuel
      → Returns (signalled ops fuel timeout s r)
  unfolding signalled
  signalled-Returns fuel timeout s (wrong e, w) h = tt
  signalled-Returns fuel timeout s (fine, w) h = start_wait-Returns fuel timeout _ w h

  -- If the clock reads itself, reading it and the signal add no frames that the encoder owes, and a
  -- round of draining that reports neither an error nor the end of the stream takes one of those
  -- frames or a millisecond and turns neither back, the call returns from every state with fuel of
  -- at least two more than the timeout in milliseconds and the frames that are owed.
  pub encode_eos_finish-Returns :
      (fuel pts timeout : ℕ) (s : State) (w : W)
      → timeout + owed w + 1 < fuel
      → Returns (encode_eos_finish ops fuel s pts timeout w)
  unfolding encode_eos_finish
  encode_eos_finish-Returns fuel pts timeout s w h = elim (Bool-cases s.failed_closed) [
    | inl f ↦ simp f tt
    | inr f ↦ simp f (elim (Bool-cases s.eos_received) [
      | inl got ↦ simp got tt
      | inr n ↦ simp n (elim (Bool-cases s.signal_attempted) [
        | inl tried ↦ simp tried (elim (Bool-cases s.signal_succeeded) [
          | inl sent ↦ simp sent (start_wait-Returns fuel timeout s w h)
          | inr lost ↦ simp lost tt
        ])
        | inr fresh ↦ simp fresh (
            signalled-Returns fuel timeout _ (ops.signal_eos w pts)
              (omega (arith, h, advances.signal_owes w pts)))
      ])
    ])
  ]
