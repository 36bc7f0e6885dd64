-- ===== src/Eos/Encode/Once.antt =====
-- `advc_vaapi_encode_eos_finish` of src/vaapi_advc/advc_vaapi_encode_eos.c: what a call leaves of
-- the state.
use lin_de_x.Base.{
  ℕ, zero, suc, ◌-◌, ◌==◌, ltb, leb, ◌||◌, not, Bool, true, false, Option, none, some, ok, err,
  Errno, eio, eoverflow, etimedout, ◌≡◌, refl, arith, Bool-cases, inl, inr, is_ok,
}
use lin_de_x.Eos.Encode.{
  State, Call, fine, wrong, Tick, Ops, Reply, fail_once, drained, ticked, wait_loop, start_wait,
  signalled, encode_eos_finish, uint64_max,
}

-- A success has the end of the stream, and a failure is closed with the error that it returns.
abbrev pub Settled : {W : Type 0} → Reply W → Type 0
Settled q = (is_ok q.result ≡ q.state.eos_received) × (is_ok q.result ≡ not q.state.failed_closed)

-- A call that fuel allowed to return has settled the state.
abbrev pub SettledIfAny : {W : Type 0} → Option (Reply W) → Type 0
SettledIfAny none = Unit
SettledIfAny (some q) = Settled q

module _ {W : Type 0} (ops : Ops W) where
  -- Once it has failed with a recorded error, each call returns that error and calls nothing back.
  failed_forever :
      (fuel pts timeout : ℕ) (s : State) (e : Errno) (w : W)
      → s.failed_closed ≡ true
      → s.failure_errno ≡ some e
      → encode_eos_finish ops fuel s pts timeout w
        ≡ some (record { result = err e; state = s; world = w })
  unfolding encode_eos_finish fail_once
  failed_forever fuel pts timeout s e w f x = ground arith

  -- Once the end of the stream was received, and nothing failed, each call succeeds and calls
  -- nothing back.
  received_forever :
      (fuel pts timeout : ℕ) (s : State) (w : W)
      → s.failed_closed ≡ false
      → s.eos_received ≡ true
      → encode_eos_finish ops fuel s pts timeout w
        ≡ some (record { result = ok tt; state = s; world = w })
  unfolding encode_eos_finish
  received_forever fuel pts timeout s w f x = ground arith

  module _ (s : State) (w : W) (open_still : s.failed_closed ≡ false)
      (not_yet : s.eos_received ≡ false) where
    fail_once-Settled : (e : Option Errno) → Settled (fail_once ops s e w)
    unfolding fail_once
    fail_once-Settled e = ground arith

  drained-Settled :
      (next : State → W → Option (Reply W))
      → ((s : State) (w : W) → s.failed_closed ≡ false → SettledIfAny (next s w))
      → (s : State) (r : Call × Bool × W) → s.failed_closed ≡ false
      → s.eos_received ≡ false
      → SettledIfAny (drained ops next s r)
  unfolding drained
  drained-Settled next h s (wrong e, b, w) f n = fail_once-Settled s w f n e
  drained-Settled next h s (fine, true, w) f n = h _ w f
  drained-Settled next h s (fine, false, w) f n = h s w f

  ticked-Settled :
      (next : State → W → Option (Reply W))
      → ((s : State) (w : W) → s.failed_closed ≡ false → SettledIfAny (next s w))
      → (deadline : ℕ) (s : State) (r : Tick × W) → s.failed_closed ≡ false
      → s.eos_received ≡ false
      → SettledIfAny (ticked ops next deadline s r)
  unfolding ticked
  ticked-Settled next h deadline s (t, w) f n = elim (Bool-cases (t.now == uint64_max)) [
    | inl bad ↦ rw bad (fail_once-Settled s w f n t.error)
    | inr good ↦ rw good (elim (Bool-cases (leb deadline t.now)) [
      | inl late ↦ rw late (fail_once-Settled s w f n (some etimedout))
      | inr early ↦ rw early (drained-Settled next h s _ f n)
    ])
  ]

  wait_loop-Settled :
      (fuel deadline : ℕ) (s : State) (w : W)
      → s.failed_closed ≡ false
      → SettledIfAny (wait_loop ops fuel deadline s w)
  unfolding wait_loop
  wait_loop-Settled zero deadline s w f = tt
  wait_loop-Settled (suc fuel) deadline s w f = elim (Bool-cases s.eos_received) [
    | inl got ↦ simp got (ground arith)
    | inr not_yet ↦ simp not_yet (
        ticked-Settled (wait_loop ops fuel deadline)
          (λ s' w'. wait_loop-Settled fuel deadline s' w') deadline s (ops.now_ms w) f not_yet)
  ]

  start_wait-Settled :
      (fuel timeout : ℕ) (s : State) (r : Tick × W)
      → s.failed_closed ≡ false
      → s.eos_received ≡ false
      → SettledIfAny (start_wait ops fuel timeout s r)
  unfolding start_wait
  start_wait-Settled fuel timeout s (t, w) f n =
      elim (Bool-cases (t.now == uint64_max || ltb (uint64_max - t.now) timeout)) [
        | inl bad ↦ rw bad (fail_once-Settled s w f n (some eoverflow))
        | inr good ↦ rw good (wait_loop-Settled fuel _ s w f)
      ]

  signalled-Settled :
      (fuel timeout : ℕ) (s : State) (r : Call × W)
      → s.failed_closed ≡ false
      → s.eos_received ≡ false
      → SettledIfAny (signalled ops fuel timeout s r)
  unfolding signalled
  signalled-Settled fuel timeout s (wrong e, w) f n = fail_once-Settled s w f n e
  signalled-Settled fuel timeout s (fine, w) f n = start_wait-Settled fuel timeout _ _ f n

  -- From a state that has not failed: a call that its fuel lets return succeeds exactly when the
  -- end of the stream was received, and exactly when it has not failed closed.
  pub encode_eos_finish-Settled :
      (fuel pts timeout : ℕ) (s : State) (w : W)
      → s.failed_closed ≡ false
      → SettledIfAny (encode_eos_finish ops fuel s pts timeout w)
  unfolding encode_eos_finish
  encode_eos_finish-Settled fuel pts timeout s w f = simp f (elim (Bool-cases s.eos_received) [
    | inl got ↦ simp got (ground arith)
    | inr n ↦ simp n (elim (Bool-cases s.signal_attempted) [
      | inl tried ↦ simp tried (elim (Bool-cases s.signal_succeeded) [
        | inl sent ↦ simp sent (start_wait-Settled fuel timeout s _ f n)
        | inr lost ↦ simp lost (fail_once-Settled s w f n (some eio))
      ])
      | inr fresh ↦ simp fresh (
          signalled-Settled fuel timeout
            (record s { signal_attempted = true; eos_received = false; failed_closed = false })
            (ops.signal_eos w pts) refl refl)
    ])
  ])
