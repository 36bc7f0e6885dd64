-- ===== src/Eos/Decode/Accounts.antt =====
-- The counters of `advc_vaapi_decode_eos_state_progress` in
-- src/vaapi_advc/advc_vaapi_decode_eos.c.
use lin_de_x.Base.{
  ℕ, zero, suc, ◌+◌, ◌%◌, ◌^◌, ◌<◌, ◌≤◌, ◌==◌, ◌!=◌, ltb, ◌&&◌, ◌||◌, not, bit_and, ◌≡◌, refl,
  arith, Bool-cases, inl, inr,
}
use lin_de_x.Eos.Decode.{
  Phase, phase_open, signal_pending, draining, complete, failed, Io, io_ok, io_retry,
  io_window_full, io_fatal, Output, Ops, State, Tally, Reply, no_tally, is_draining, fail_state,
  discard_and_fail, completed, released, control, framed, classified, dequeued, write_status,
  progress_loop, progress_in, state_progress, flag_eos, kind_frame, kind_control,
}

-- A run that has counted `t` and holds the totals of `s`, whose totals were those of `s₀` before.
pub record Counted (before : State) (s : State) (t : Tally) : Type 0 where
  pub outputs : s.outputs_total % 2 ^ 64 ≡ (before.outputs_total + t.outputs) % 2 ^ 64
  pub frames : s.frames_total % 2 ^ 64 ≡ (before.frames_total + t.frames) % 2 ^ 64
  pub controls : s.controls_total % 2 ^ 64 ≡ (before.controls_total + t.controls) % 2 ^ 64
  pub split : t.frames + t.controls ≤ t.outputs

module _ {W : Type 0} (ops : Ops W) (before : State) (max : ℕ) where
  -- The reply reports its own tally and the state's totals, and took at most `max` outputs.
  pub record Accounted (q : Reply W) : Type 0 where
    pub counted : Counted before q.state q.status.tally
    pub bounded : q.status.tally.outputs ≤ max
    pub total_reported : q.status.outputs_total ≡ q.state.outputs_total
    pub phase_reported : q.status.phase ≡ q.state.phase

  module _ (s : State) (t : Tally) (w : W) (c : Counted before s t) (b : t.outputs ≤ max) where
    fail_state-Accounted : Accounted (fail_state s t w)
    unfolding fail_state write_status
    fail_state-Accounted = ground (arith, c.outputs, c.frames, c.controls, c.split)

    discard-Accounted : (o : Output) → Accounted (discard_and_fail ops s o t w)
    unfolding discard_and_fail fail_state write_status
    discard-Accounted o = ground (arith, c.outputs, c.frames, c.controls, c.split)

    completed-Accounted : Accounted (completed ops s t w)
    unfolding completed write_status
    completed-Accounted = ground (arith, c.outputs, c.frames, c.controls, c.split)

  -- The rest of the loop may take `left` outputs more.
  abbrev Counts : ℕ → (State → Tally → W → Reply W) → Type 0
  Counts left next =
      (s : State) (t : Tally) (w : W)
      → Counted before s t
      → t.outputs + left ≤ max
      → Accounted (next s t w)

  -- An output was counted, and not yet as a frame or a control.
  module _ (left : ℕ) (s : State) (t : Tally) (c : Counted before s t)
      (room : t.outputs + left ≤ max) (fresh : t.frames + t.controls < t.outputs) where
    b : t.outputs ≤ max
    b = omega arith

    one_control :
        Counted before
          (record s { controls_total = (s.controls_total + 1) % 2 ^ 64 })
          (record t { controls = t.controls + 1 })
    one_control = omega (arith, c.outputs, c.frames, c.controls)

    one_frame :
        Counted before
          (record s { frames_total = (s.frames_total + 1) % 2 ^ 64 })
          (record t { frames = t.frames + 1 })
    one_frame = omega (arith, c.outputs, c.frames, c.controls)

    released-Accounted : (r : Io × W) → Accounted (released ops s t r)
    unfolding released
    released-Accounted (io_ok, w) = elim (Bool-cases (is_draining s.phase)) [
      | inl d ↦ rw d (completed-Accounted _ _ w one_control b)
      | inr n ↦ rw n (fail_state-Accounted _ _ w one_control b)
    ]
    released-Accounted (io_retry, w) = fail_state-Accounted s t w c b
    released-Accounted (io_window_full, w) = fail_state-Accounted s t w c b
    released-Accounted (io_fatal, w) = fail_state-Accounted s t w c b

    control-Accounted : (o : Output) (w : W) → Accounted (control ops s o t w)
    unfolding control
    control-Accounted o w = elim (Bool-cases (o.flags != flag_eos)) [
      | inl odd ↦ rw odd (discard-Accounted s t w c b o)
      | inr eos ↦ rw eos (released-Accounted (ops.release_output w o))
    ]

    framed-Accounted :
        (next : State → Tally → W → Reply W)
        → Counts left next
        → (o : Output) (r : Io × W) → Accounted (framed ops next s o t r)
    unfolding framed
    framed-Accounted next h o (io_ok, w) = elim (Bool-cases (bit_and o.flags flag_eos != 0)) [
      | inl eos ↦ rw eos (completed-Accounted _ _ w one_frame b)
      | inr more ↦ rw more (h _ _ w one_frame room)
    ]
    framed-Accounted next h o (io_retry, w) = discard-Accounted s t w c b o
    framed-Accounted next h o (io_window_full, w) = discard-Accounted s t w c b o
    framed-Accounted next h o (io_fatal, w) = discard-Accounted s t w c b o

    classified-Accounted :
        (next : State → Tally → W → Reply W)
        → Counts left next
        → (o : Output) (w : W) → Accounted (classified ops next s o t w)
    unfolding classified
    classified-Accounted next h o w =
        let framed_case = framed-Accounted next h o (ops.handle_frame w o) in
        let discarded = discard-Accounted s t w c b o in
        elim (Bool-cases (o.buffer_id == 0)) [
          | inl z ↦ rw z (fail_state-Accounted s t w c b)
          | inr nz ↦ rw nz (elim (Bool-cases (o.kind == kind_control)) [
            | inl k ↦ rw k (control-Accounted o w)
            | inr nk ↦ rw nk (elim (Bool-cases (o.kind != kind_frame)) [
              | inl x ↦ rw x discarded
              | inr f ↦
                  rw f
                    (elim (Bool-cases
                      (bit_and o.flags flag_eos != 0 && not (is_draining s.phase))) [
                        | inl early ↦ rw early discarded
                        | inr fine ↦ rw fine framed_case
                      ])
            ])
          ])
        ]

  dequeued-Accounted :
      (next : State → Tally → W → Reply W)
      → (left : ℕ) → Counts left next
      → (s : State) (t : Tally) (r : Io × Output × W) → Counted before s t
      → t.outputs + suc left ≤ max
      → Accounted (dequeued ops next s t r)
  unfolding dequeued write_status
  dequeued-Accounted next left h s t (io_retry, o, w) c b =
      ground (arith, c.outputs, c.frames, c.controls, c.split)
  dequeued-Accounted next left h s t (io_window_full, o, w) c b =
      ground (arith, c.outputs, c.frames, c.controls, c.split)
  dequeued-Accounted next left h s t (io_fatal, o, w) c b =
      fail_state-Accounted s t w c (omega arith)
  dequeued-Accounted next left h s t (io_ok, o, w) c b =
      classified-Accounted left (record s { outputs_total = (s.outputs_total + 1) % 2 ^ 64 })
        (record t { outputs = t.outputs + 1 })
        (omega (arith, c.outputs, c.frames, c.controls, c.split)) (omega arith)
        (omega (arith, c.split)) next h o w

  progress_loop-Accounted :
      (left : ℕ) (s : State) (t : Tally) (w : W)
      → Counted before s t
      → t.outputs + left ≤ max
      → Accounted (progress_loop ops left s t w)
  unfolding progress_loop write_status
  progress_loop-Accounted zero s t w c b = ground (arith, c.outputs, c.frames, c.controls, c.split)
  progress_loop-Accounted (suc left) s t w c b =
      dequeued-Accounted (progress_loop ops left) left
        (λ s' t' w' c' b'. progress_loop-Accounted left s' t' w' c' b') s t (ops.try_dequeue w) c b

  nothing-Accounted :
      (q : Reply W)
      → q.state ≡ before
      → q.status.tally ≡ no_tally
      → q.status.outputs_total ≡ before.outputs_total
      → q.status.phase ≡ before.phase
      → Accounted q
  nothing-Accounted q s t o p = ground arith

  progress_in-Accounted : (p : Phase) (w : W) → Accounted (progress_in ops p before max w)
  unfolding progress_in write_status
  progress_in-Accounted phase_open w = nothing-Accounted _ refl refl refl refl
  progress_in-Accounted failed w = nothing-Accounted _ refl refl refl refl
  progress_in-Accounted complete w = nothing-Accounted _ refl refl refl refl
  progress_in-Accounted draining w =
      progress_loop-Accounted max before no_tally w (omega arith) (omega arith)
  progress_in-Accounted signal_pending w =
      progress_loop-Accounted max before no_tally w (omega arith) (omega arith)

  -- One call for progress takes at most `max` outputs. The totals grow, modulo 2^64, by what the
  -- status reports: outputs, frames and controls, the last two together no more than the outputs;
  -- the status holds the state's total of outputs and its phase.
  pub state_progress-Accounted :
      (size : ℕ) (w : W) → Accounted (state_progress ops before size max w)
  unfolding state_progress write_status
  state_progress-Accounted size w = elim (Bool-cases (ltb size 88 || max == 0 || ltb 8 max)) [
    | inl bad ↦ rw bad (nothing-Accounted _ refl refl refl refl)
    | inr good ↦ rw good (progress_in-Accounted before.phase w)
  ]
