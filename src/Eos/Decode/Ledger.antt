-- ===== src/Eos/Decode/Ledger.antt =====
-- How often a stream of src/vaapi_advc/advc_vaapi_decode_eos.c reaches its callbacks over a whole
-- sequence of signals and calls for progress.
use lin_de_x.Base.{
  ℕ, zero, suc, ◌+◌, ◌!=◌, Bool, true, false, bit_and, ◌≡◌, ◌≤◌, ◌↔◌, refl, arith, Bool-cases, inl,
  inr, List, [], ◌∷◌, if◌then◌else◌,
}
use lin_de_x.Eos.Decode.{
  Phase, phase_open, signal_pending, draining, complete, failed, Io, io_ok, io_retry,
  io_window_full, io_fatal, Output, Ops, State, Tally, Reply, no_tally, is_draining, fail_state,
  discard_and_fail, signalled, signal_in, state_signal, completed, released, control, framed,
  classified, dequeued, progress_loop, progress_in, state_progress, state_init, flag_eos,
}
use lin_de_x.Eos.Decode.Phases.{
  IsValid, state_init-IsValid, state_signal-IsValid, state_progress-IsValid,
}

-- A world with the number of signals that the backend accepted, and the number of times that what
-- was pending was marked as failed.
abbrev pub Counted : Type 0 → Type 0
Counted W = W × ℕ × ℕ

abbrev pub one_if_ok : Io → ℕ
one_if_ok io_ok = 1
one_if_ok _ = 0

-- The callbacks, each counted where it is called.
abbrev pub counted : {W : Type 0} → Ops W → Ops (Counted W)
counted ops = record {
  try_signal = λ x. let (io, w) = ops.try_signal x.0 in (io, (w, x.1 + one_if_ok io, x.2));
  try_dequeue = λ x. let (io, o, w) = ops.try_dequeue x.0 in (io, o, (w, x.1, x.2));
  handle_frame = λ x o. let (io, w) = ops.handle_frame x.0 o in (io, (w, x.1, x.2));
  release_output = λ x o. let (io, w) = ops.release_output x.0 o in (io, (w, x.1, x.2));
  mark_remaining_pending_failed = λ x. (ops.mark_remaining_pending_failed x.0, x.1, x.2 + 1);
}

-- A call on a stream, with its arguments.
pub data StreamCall : Type 0 where
  signals : ℕ → StreamCall
  progresses : ℕ → ℕ → StreamCall

module _ {W : Type 0} (ops : Ops W) where
  unfoldable pub called : StreamCall → State → W → Reply W
  called (signals size) s w = state_signal ops s size w
  called (progresses size max) s w = state_progress ops s size max w

  -- The calls in their order.
  unfoldable pub driven : List StreamCall → State → W → State × W
  driven [] s w = (s, w)
  driven (call ∷ calls) s w = let r = called call s w in driven calls r.state r.world

abbrev one_if : Bool → ℕ
one_if b = if b then 1 else 0

module _ {W : Type 0} (ops : Ops W) where
  -- The counters are what the flags say.
  abbrev Balanced : State → Counted W → Type 0
  Balanced s x = (x.1 ≡ one_if s.signal_queued) × (x.2 ≡ one_if s.output_eos_seen)

  abbrev BalancedIn : Reply (Counted W) → Type 0
  BalancedIn r = Balanced r.state r.world

  -- Where the loop may stand.
  abbrev Unfinished : State → Counted W → Type 0
  Unfinished s x = (s.output_eos_seen ≡ false) × Balanced s x

  signalled-Balanced :
      (s : State) (io : Io) (w : W) (a m : ℕ)
      → s.signal_queued ≡ false
      → Balanced s (w, a, m)
      → BalancedIn (signalled (counted ops) s io (w, a + one_if_ok io, m))
  unfolding signalled fail_state
  signalled-Balanced s io_ok w a m u b = ground (arith, b)
  signalled-Balanced s io_retry w a m u b = ground (arith, b)
  signalled-Balanced s io_window_full w a m u b = ground (arith, b)
  signalled-Balanced s io_fatal w a m u b = ground (arith, b)

  signal_in-Balanced :
      (p : Phase) (s : State) (x : Counted W)
      → s.phase ≡ p
      → IsValid s
      → Balanced s x
      → BalancedIn (signal_in (counted ops) p s x)
  unfolding signal_in
  signal_in-Balanced failed s x e v b = b
  signal_in-Balanced complete s x e v b = b
  signal_in-Balanced draining s x e v b = b
  signal_in-Balanced phase_open s x e v b =
      signalled-Balanced _ (ops.try_signal x.0).0 (ops.try_signal x.0).1 x.1 x.2
        (ground (arith, v.requested e, v.queued_requested)) b
  signal_in-Balanced signal_pending s x e v b =
      signalled-Balanced _ (ops.try_signal x.0).0 (ops.try_signal x.0).1 x.1 x.2
        (v.pending_unqueued e) b

  discard-Balanced :
      (s : State) (o : Output) (t : Tally) (x : Counted W)
      → Balanced s x
      → BalancedIn (discard_and_fail (counted ops) s o t x)
  unfolding discard_and_fail fail_state
  discard-Balanced s o t x b = ground (arith, b)

  completed-Balanced :
      (s : State) (t : Tally) (x : Counted W)
      → Unfinished s x
      → BalancedIn (completed (counted ops) s t x)
  unfolding completed
  completed-Balanced s t x u = ground (arith, u)

  released-Balanced :
      (s : State) (t : Tally) (io : Io) (x : Counted W)
      → Unfinished s x
      → BalancedIn (released (counted ops) s t (io, x))
  unfolding released fail_state
  released-Balanced s t io_ok x u = elim (Bool-cases (is_draining s.phase)) [
    | inl d ↦ rw d (completed-Balanced _ _ x u)
    | inr n ↦ rw n u.1
  ]
  released-Balanced s t io_retry x u = u.1
  released-Balanced s t io_window_full x u = u.1
  released-Balanced s t io_fatal x u = u.1

  control-Balanced :
      (s : State) (o : Output) (t : Tally) (x : Counted W)
      → Unfinished s x
      → BalancedIn (control (counted ops) s o t x)
  unfolding control
  control-Balanced s o t x u = elim (Bool-cases (o.flags != flag_eos)) [
    | inl odd ↦ rw odd (discard-Balanced s o t x u.1)
    | inr eos ↦ rw eos (released-Balanced s t (ops.release_output x.0 o).0 _ u)
  ]

  -- What the loop does after a frame keeps the counters balanced.
  abbrev Balances : (State → Tally → Counted W → Reply (Counted W)) → Type 0
  Balances next = (s : State) (t : Tally) (x : Counted W) → Unfinished s x → BalancedIn (next s t x)

  module _ (next : State → Tally → Counted W → Reply (Counted W)) (balances : Balances next) where
    framed-Balanced :
        (s : State) (o : Output) (t : Tally) (io : Io) (x : Counted W)
        → Unfinished s x
        → BalancedIn (framed (counted ops) next s o t (io, x))
    unfolding framed
    framed-Balanced s o t io_ok x u = elim (Bool-cases (bit_and o.flags flag_eos != 0)) [
      | inl eos ↦ rw eos (completed-Balanced _ _ x u)
      | inr more ↦ rw more (balances _ _ x u)
    ]
    framed-Balanced s o t io_retry x u = discard-Balanced s o t x u.1
    framed-Balanced s o t io_window_full x u = discard-Balanced s o t x u.1
    framed-Balanced s o t io_fatal x u = discard-Balanced s o t x u.1

    classified-Balanced :
        (s : State) (o : Output) (t : Tally) (x : Counted W)
        → Unfinished s x
        → BalancedIn (classified (counted ops) next s o t x)
    unfolding classified fail_state
    classified-Balanced s o t x u = ground (
      arith,
      u.1,
      control-Balanced s o t x u,
      discard-Balanced s o t x u.1,
      framed-Balanced s o t (ops.handle_frame x.0 o).0 ((ops.handle_frame x.0 o).1, x.1, x.2) u,
    )

    dequeued-Balanced :
        (s : State) (t : Tally) (io : Io) (o : Output) (x : Counted W)
        → Unfinished s x
        → BalancedIn (dequeued (counted ops) next s t (io, o, x))
    unfolding dequeued fail_state
    dequeued-Balanced s t io_ok o x u = classified-Balanced _ o _ x u
    dequeued-Balanced s t io_retry o x u = u.1
    dequeued-Balanced s t io_window_full o x u = u.1
    dequeued-Balanced s t io_fatal o x u = u.1

  progress_loop-Balanced :
      (left : ℕ) (s : State) (t : Tally) (x : Counted W)
      → Unfinished s x
      → BalancedIn (progress_loop (counted ops) left s t x)
  unfolding progress_loop
  progress_loop-Balanced zero s t x u = u.1
  progress_loop-Balanced (suc left) s t x u =
      dequeued-Balanced (progress_loop (counted ops) left) (progress_loop-Balanced left) s t
        (ops.try_dequeue x.0).0 (ops.try_dequeue x.0).1 _ u

  progress_in-Balanced :
      (p : Phase) (s : State) (max : ℕ) (x : Counted W)
      → s.phase ≡ p
      → IsValid s
      → Balanced s x
      → BalancedIn (progress_in (counted ops) p s max x)
  unfolding progress_in
  progress_in-Balanced phase_open s max x e v b = b
  progress_in-Balanced failed s max x e v b = b
  progress_in-Balanced complete s max x e v b = b
  progress_in-Balanced draining s max x e v b =
      progress_loop-Balanced max s no_tally x (ground (arith, v.seen_complete), b)
  progress_in-Balanced signal_pending s max x e v b =
      progress_loop-Balanced max s no_tally x (ground (arith, v.seen_complete), b)

  called-Balanced :
      (call : StreamCall) (s : State) (x : Counted W)
      → IsValid s
      → Balanced s x
      → IsValid (called (counted ops) call s x).state × BalancedIn (called (counted ops) call s x)
  unfolding called state_signal state_progress
  called-Balanced (signals size) s x v b = (
    state_signal-IsValid (counted ops) s size x v,
    ground (arith, b, signal_in-Balanced s.phase s x refl v b),
  )
  called-Balanced (progresses size max) s x v b = (
    state_progress-IsValid (counted ops) s size max x v,
    ground (arith, b, progress_in-Balanced s.phase s max x refl v b),
  )

  driven-Balanced :
      (calls : List StreamCall) (s : State) (x : Counted W)
      → IsValid s
      → Balanced s x
      → let r = driven (counted ops) calls s x in IsValid r.0 × Balanced r.0 r.1
  unfolding driven
  driven-Balanced [] s x v b = (v, b)
  driven-Balanced (call ∷ calls) s x v b =
      let next = called-Balanced call s x v b in
      driven-Balanced calls (called (counted ops) call s x).state
        (called (counted ops) call s x).world next.0 next.1

  -- For any callbacks and any sequence of signals and calls for progress on a fresh stream: the
  -- backend accepts at most one signal; what is pending is marked as failed at most once, and only
  -- after an accepted signal; one was accepted exactly if the state says that it is queued; and
  -- what was pending was marked exactly if the stream is complete.
  pub driven-Once :
      (calls : List StreamCall) (w : W)
      → let r = driven (counted ops) calls state_init (w, 0, 0) in
        (r.1.1 ≤ 1)
        × (r.1.2 ≤ r.1.1)
        × ((r.1.1 ≡ 1) ↔ (r.0.signal_queued ≡ true))
        × ((r.1.2 ≡ 1) ↔ (r.0.phase ≡ complete))
  unfolding state_init
  driven-Once calls w =
      let (v, b) = driven-Balanced calls state_init (w, 0, 0) state_init-IsValid (refl, refl) in
      ground (arith, b, v.complete_seen, v.seen_complete, v.complete_queued)
