-- ===== src/Eos/Decode/Examples.antt =====
-- A decoder with two frames and a control output left. The world is the list of outputs to come.
use lin_de_x.Base.{true, List, [], ◌∷◌, ◌≡◌, refl, arith, ◌≤◌, ◌↔◌}
use lin_de_x.Eos.Decode.{
  Io, io_ok, io_retry, Output, Ops, State, draining, complete, state_init, state_signal,
  state_progress, progress_in, progress_loop, dequeued, classified, control, released, framed,
  completed,
}
use lin_de_x.Eos.Decode.Phases.{
  IsValid, state_init-IsValid, state_signal-IsValid, state_progress-IsValid,
}
use lin_de_x.Eos.Decode.Ledger.{StreamCall, signals, progresses, counted, driven, driven-Once}
use lin_de_x.Eos.Decode.Accounts.{Accounted, state_progress-Accounted}

abbrev take_output : List Output → Io × Output × List Output
take_output [] = (io_retry, record { buffer_id = 0; pts_ns = 0; flags = 0; kind = 0 }, [])
take_output (o ∷ os) = (io_ok, o, os)

abbrev queue_ops : Ops (List Output)
queue_ops = record {
  try_signal = λ w. (io_ok, w);
  try_dequeue = take_output;
  handle_frame = λ w o. (io_ok, w);
  release_output = λ w o. (io_ok, w);
  mark_remaining_pending_failed = λ w. w;
}

abbrev frame_output : Output
frame_output = record { buffer_id = 4; pts_ns = 10; flags = 0; kind = 1 }

abbrev eos_output : Output
eos_output = record { buffer_id = 5; pts_ns = 20; flags = 1; kind = 2 }

abbrev pending : List Output
pending = frame_output ∷ frame_output ∷ eos_output ∷ []

abbrev draining_state : State
draining_state = record state_init {
  phase = draining;
  signal_requested = true;
  signal_queued = true;
}

draining-IsValid : IsValid draining_state
unfolding state_init
draining-IsValid = ground arith

completes : (state_progress queue_ops draining_state 88 8 pending).state.phase ≡ complete
unfolding state_progress state_init progress_in progress_loop dequeued classified control released
    framed completed
completes = refl

state_signal-IsValid_example : IsValid (state_signal queue_ops state_init 88 pending).state
state_signal-IsValid_example =
    state_signal-IsValid queue_ops state_init 88 pending state_init-IsValid

state_progress-IsValid_example :
    IsValid (state_progress queue_ops draining_state 88 8 pending).state
state_progress-IsValid_example =
    state_progress-IsValid queue_ops draining_state 88 8 pending draining-IsValid

-- A signal, a call for all that is left, and two calls behind the end of the stream.
abbrev four_calls : List StreamCall
four_calls = signals 88 ∷ progresses 88 8 ∷ signals 88 ∷ progresses 88 8 ∷ []

driven-Once_example :
    let r = driven (counted queue_ops) four_calls state_init (pending, 0, 0) in
    (r.1.1 ≤ 1)
    × (r.1.2 ≤ r.1.1)
    × ((r.1.1 ≡ 1) ↔ (r.0.signal_queued ≡ true))
    × ((r.1.2 ≡ 1) ↔ (r.0.phase ≡ complete))
driven-Once_example = driven-Once queue_ops four_calls pending

state_progress-Accounted_example :
    Accounted queue_ops draining_state 8 (state_progress queue_ops draining_state 88 8 pending)
state_progress-Accounted_example = state_progress-Accounted queue_ops draining_state 8 88 pending
