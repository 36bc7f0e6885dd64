-- ===== src/Eos/Decode/Phases.antt =====
-- The phases of src/vaapi_advc/advc_vaapi_decode_eos.c.
use lin_de_x.Base.{
  ℕ, zero, suc, ◌==◌, ◌!=◌, ltb, ◌&&◌, ◌||◌, not, true, false, bit_and, ◌≡◌, refl, arith,
  Bool-cases, inl, inr, ◌⊎◌,
}
use lin_de_x.Eos.Decode.{
  Phase, phase_open, signal_pending, draining, complete, failed, Io, io_ok, io_retry,
  io_window_full, io_fatal, Output, Ops, State, Tally, Reply, no_tally, is_draining, fail_state,
  discard_and_fail, signalled, signal_in, state_signal, completed, released, control, framed,
  classified, dequeued, progress_loop, progress_in, state_progress, state_init, flag_eos,
  kind_frame, kind_control,
}

pub record IsValid (s : State) : Type 0 where
  -- Nothing is requested in the first phase, and nothing is queued that was not requested.
  pub requested : s.phase ≡ phase_open → s.signal_requested ≡ false
  pub queued_requested : s.signal_queued ≡ true → s.signal_requested ≡ true
  -- Draining and completion follow a queued signal; pending is the phase before.
  pub draining_queued : s.phase ≡ draining → s.signal_queued ≡ true
  pub complete_queued : s.phase ≡ complete → s.signal_queued ≡ true
  pub pending_unqueued : s.phase ≡ signal_pending → s.signal_queued ≡ false
  -- The end of the stream is seen exactly in the complete phase.
  pub complete_seen : s.phase ≡ complete → s.output_eos_seen ≡ true
  pub seen_complete : s.output_eos_seen ≡ true → s.phase ≡ complete

-- The counters are free.
recount-IsValid :
    (s : State) (outputs frames controls : ℕ)
    → IsValid s
    → IsValid
        (record s { outputs_total = outputs; frames_total = frames; controls_total = controls })
recount-IsValid s outputs frames controls v = record {
  requested = v.requested;
  queued_requested = v.queued_requested;
  draining_queued = v.draining_queued;
  complete_queued = v.complete_queued;
  pending_unqueued = v.pending_unqueued;
  complete_seen = v.complete_seen;
  seen_complete = v.seen_complete;
}

pub state_init-IsValid : IsValid state_init
unfolding state_init
state_init-IsValid = ground arith

module _ {W : Type 0} (ops : Ops W) where
  signal_in-IsValid :
      (p : Phase) (s : State) (w : W)
      → s.phase ≡ p
      → IsValid s
      → IsValid (signal_in ops p s w).state
  unfolding signal_in signalled fail_state
  signal_in-IsValid failed s w e v = v
  signal_in-IsValid complete s w e v = v
  signal_in-IsValid draining s w e v = v
  signal_in-IsValid phase_open s w e v =
      ground (arith, v.seen_complete, v.requested, v.queued_requested)
  signal_in-IsValid signal_pending s w e v =
      ground (arith, v.seen_complete, v.pending_unqueued, v.queued_requested)

  -- A signal leaves a valid state valid, whatever the backend answers.
  pub state_signal-IsValid :
      (s : State) (size : ℕ) (w : W) → IsValid s → IsValid (state_signal ops s size w).state
  unfolding state_signal
  state_signal-IsValid s size w v = elim (Bool-cases (ltb size 88)) [
    | inl small ↦ rw small v
    | inr fits ↦ rw fits (signal_in-IsValid s.phase s w refl v)
  ]

  -- A state in which the loop may stand.
  abbrev Running : State → Type 0
  Running s = IsValid s × ((s.phase ≡ draining) ⊎ (s.phase ≡ signal_pending))

  abbrev Keeps : (State → Tally → W → Reply W) → Type 0
  Keeps next = (s : State) (t : Tally) (w : W) → Running s → IsValid (next s t w).state

  fail_state-IsValid :
      (s : State) (t : Tally) (w : W) → Running s → IsValid (fail_state s t w).state
  unfolding fail_state
  fail_state-IsValid s t w (v, r) = ground (arith, v.seen_complete, v.queued_requested)

  discard-IsValid :
      (s : State) (o : Output) (t : Tally) (w : W)
      → Running s
      → IsValid (discard_and_fail ops s o t w).state
  unfolding discard_and_fail
  discard-IsValid s o t w r = elim (Bool-cases (o.buffer_id != 0)) [
    | inl id ↦ rw id (fail_state-IsValid s t _ r)
    | inr no_id ↦ rw no_id (fail_state-IsValid s t w r)
  ]

  completed-IsValid :
      (s : State) (t : Tally) (w : W)
      → IsValid s
      → s.phase ≡ draining
      → IsValid (completed ops s t w).state
  unfolding completed
  completed-IsValid s t w v d = ground (arith, v.draining_queued d, v.queued_requested)

  is_draining-phase : (s : State) → Running s → is_draining s.phase ≡ true → s.phase ≡ draining
  is_draining-phase s r d = ground (arith, r.1)

  released-IsValid :
      (s : State) (t : Tally) (r : Io × W) → Running s → IsValid (released ops s t r).state
  unfolding released
  released-IsValid s t (io_ok, w) r = elim (Bool-cases (is_draining s.phase)) [
    | inl d ↦ rw d (completed-IsValid _ _ w (recount-IsValid s _ _ _ r.0) (is_draining-phase s r d))
    | inr n ↦ rw n (fail_state-IsValid _ _ w (recount-IsValid s _ _ _ r.0, r.1))
  ]
  released-IsValid s t (io_retry, w) r = fail_state-IsValid s t w r
  released-IsValid s t (io_window_full, w) r = fail_state-IsValid s t w r
  released-IsValid s t (io_fatal, w) r = fail_state-IsValid s t w r

  control-IsValid :
      (s : State) (o : Output) (t : Tally) (w : W) → Running s → IsValid (control ops s o t w).state
  unfolding control
  control-IsValid s o t w r = elim (Bool-cases (o.flags != flag_eos)) [
    | inl odd ↦ rw odd (discard-IsValid s o t w r)
    | inr eos ↦ rw eos (released-IsValid s t (ops.release_output w o) r)
  ]

  module _ (next : State → Tally → W → Reply W) (keeps : Keeps next) where
    -- `allowed` is what the test before the frame was handed over has left.
    framed-IsValid :
        (s : State) (o : Output) (t : Tally) (r : Io × W)
        → Running s
        → (bit_and o.flags flag_eos != 0) && not (is_draining s.phase) ≡ false
        → IsValid (framed ops next s o t r).state
    unfolding framed
    framed-IsValid s o t (io_ok, w) r allowed = elim (Bool-cases (bit_and o.flags flag_eos != 0)) [
      | inl eos ↦ rw eos (
          completed-IsValid _ _ w (recount-IsValid s _ _ _ r.0)
            (is_draining-phase s r (ground (arith, eos, allowed))))
      | inr more ↦ rw more (keeps _ _ w (recount-IsValid s _ _ _ r.0, r.1))
    ]
    framed-IsValid s o t (io_retry, w) r allowed = discard-IsValid s o t w r
    framed-IsValid s o t (io_window_full, w) r allowed = discard-IsValid s o t w r
    framed-IsValid s o t (io_fatal, w) r allowed = discard-IsValid s o t w r

    classified-IsValid :
        (s : State) (o : Output) (t : Tally) (w : W)
        → Running s
        → IsValid (classified ops next s o t w).state
    unfolding classified
    classified-IsValid s o t w r = elim (Bool-cases (o.buffer_id == 0)) [
      | inl z ↦ rw z (fail_state-IsValid s t w r)
      | inr nz ↦ rw nz (elim (Bool-cases (o.kind == kind_control)) [
        | inl c ↦ rw c (control-IsValid s o t w r)
        | inr nc ↦ rw nc (elim (Bool-cases (o.kind != kind_frame)) [
          | inl x ↦ rw x (discard-IsValid s o t w r)
          | inr f ↦
              rw f (elim (Bool-cases (bit_and o.flags flag_eos != 0 && not (is_draining s.phase))) [
                | inl early ↦ rw early (discard-IsValid s o t w r)
                | inr fine ↦ rw fine (framed-IsValid s o t (ops.handle_frame w o) r fine)
              ])
        ])
      ])
    ]

    dequeued-IsValid :
        (s : State) (t : Tally) (r : Io × Output × W)
        → Running s
        → IsValid (dequeued ops next s t r).state
    unfolding dequeued
    dequeued-IsValid s t (io_retry, o, w) r = r.0
    dequeued-IsValid s t (io_window_full, o, w) r = r.0
    dequeued-IsValid s t (io_fatal, o, w) r = fail_state-IsValid s t w r
    dequeued-IsValid s t (io_ok, o, w) (v, p) =
        classified-IsValid _ o _ w (recount-IsValid s _ _ _ v, p)

  progress_loop-IsValid :
      (left : ℕ) (s : State) (t : Tally) (w : W)
      → Running s
      → IsValid (progress_loop ops left s t w).state
  unfolding progress_loop
  progress_loop-IsValid zero s t w r = r.0
  progress_loop-IsValid (suc left) s t w r =
      dequeued-IsValid (progress_loop ops left) (progress_loop-IsValid left) s t _ r

  progress_in-IsValid :
      (p : Phase) (s : State) (max : ℕ) (w : W)
      → s.phase ≡ p
      → IsValid s
      → IsValid (progress_in ops p s max w).state
  unfolding progress_in
  progress_in-IsValid phase_open s max w e v = v
  progress_in-IsValid failed s max w e v = v
  progress_in-IsValid complete s max w e v = v
  progress_in-IsValid draining s max w e v = progress_loop-IsValid max s no_tally w (v, inl e)
  progress_in-IsValid signal_pending s max w e v = progress_loop-IsValid max s no_tally w (v, inr e)

  -- Whatever the callbacks deliver, a call for progress leaves a valid state valid.
  pub state_progress-IsValid :
      (s : State) (size max : ℕ) (w : W)
      → IsValid s
      → IsValid (state_progress ops s size max w).state
  unfolding state_progress
  state_progress-IsValid s size max w v = elim (Bool-cases (ltb size 88 || max == 0 || ltb 8 max)) [
    | inl bad ↦ rw bad v
    | inr good ↦ rw good (progress_in-IsValid s.phase s max w refl v)
  ]
