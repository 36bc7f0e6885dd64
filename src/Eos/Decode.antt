-- ===== src/Eos/Decode.antt =====
-- src/vaapi_advc/advc_vaapi_decode_eos.c. The callbacks act on a world of the caller's, and none of
-- the pointers is NULL; `struct_size` is what the caller put into the status record.
pub mod Phases
pub mod Accounts
pub mod Ledger
mod Examples
use lin_de_x.Base.{
  ℕ, zero, suc, ◌+◌, ◌-◌, ◌%◌, ◌^◌, ◌*◌, ◌==◌, ◌!=◌, ltb, leb, ◌&&◌, ◌||◌, not, Bool, true, false,
  if◌then◌else◌, bit_and, bit_or,
}

pub data Phase : Type 0 where
  phase_open signal_pending draining complete failed : Phase

-- enum advc_vaapi_decode_eos_result
pub data Answer : Type 0 where
  answer_ok would_block need_output_release answer_complete not_signaled disabled : Answer
  invalid_argument answer_failed invalid_context : Answer

-- What a callback returns; every value but the first three is an error.
pub data Io : Type 0 where
  io_ok io_retry io_window_full io_fatal : Io

pub record Output : Type 0 where
  pub buffer_id : ℕ
  pub pts_ns : ℕ
  pub flags : ℕ
  pub kind : ℕ

abbrev pub kind_frame : ℕ
kind_frame = 1

abbrev pub kind_control : ℕ
kind_control = 2

abbrev pub flag_eos : ℕ
flag_eos = 1

abbrev pub max_progress_outputs : ℕ
max_progress_outputs = 8

-- sizeof(struct advc_vaapi_decode_eos_status_v1)
abbrev pub status_size : ℕ
status_size = 88

pub record Ops (W : Type 0) : Type 0 where
  pub try_signal : W → Io × W
  pub try_dequeue : W → Io × Output × W
  pub handle_frame : W → Output → Io × W
  pub release_output : W → Output → Io × W
  pub mark_remaining_pending_failed : W → W

pub record State : Type 0 where
  pub phase : Phase
  pub signal_requested : Bool
  pub signal_queued : Bool
  pub output_eos_seen : Bool
  pub outputs_total : ℕ
  pub frames_total : ℕ
  pub controls_total : ℕ

-- What one call has processed so far.
pub record Tally : Type 0 where
  pub outputs : ℕ
  pub frames : ℕ
  pub controls : ℕ

abbrev pub no_tally : Tally
no_tally = record { outputs = 0; frames = 0; controls = 0 }

pub record Status : Type 0 where
  pub abi_version : ℕ
  pub phase : Phase
  pub flags : ℕ
  pub last_result : Answer
  pub tally : Tally
  pub outputs_total : ℕ
  pub frames_total : ℕ
  pub controls_total : ℕ

pub record Reply (W : Type 0) : Type 0 where
  pub answer : Answer
  pub state : State
  pub status : Status
  pub world : W

abbrev pub is_failed : Phase → Bool
is_failed failed = true
is_failed _ = false

abbrev pub is_draining : Phase → Bool
is_draining draining = true
is_draining _ = false

persistent_status_flags : State → ℕ
persistent_status_flags s =
    let requested = if s.signal_requested then 1 else 0 in
    let queued = if s.signal_queued then bit_or requested 2 else requested in
    let seen = if s.output_eos_seen then bit_or queued 32 else queued in
    if is_failed s.phase then bit_or seen 64 else seen

unfoldable pub write_status : State → Answer → ℕ → Tally → Status
unfolding persistent_status_flags
write_status s answer transient t = record {
  abi_version = 1 * 2 ^ 16;
  phase = s.phase;
  flags = bit_or transient (persistent_status_flags s);
  last_result = answer;
  tally = t;
  outputs_total = s.outputs_total;
  frames_total = s.frames_total;
  controls_total = s.controls_total;
}

unfoldable pub state_init : State
state_init = record {
  phase = phase_open;
  signal_requested = false;
  signal_queued = false;
  output_eos_seen = false;
  outputs_total = 0;
  frames_total = 0;
  controls_total = 0;
}

module _ {W : Type 0} where
  -- The status is written and its result returned.
  abbrev pub finish : Answer → ℕ → State → Tally → W → Reply W
  finish answer transient s t w = record {
    answer = answer;
    state = s;
    status = write_status s answer transient t;
    world = w;
  }

  unfoldable pub fail_state : State → Tally → W → Reply W
  fail_state s t w = finish answer_failed 0 (record s { phase = failed }) t w

module _ {W : Type 0} (ops : Ops W) where
  unfoldable pub discard_and_fail : State → Output → Tally → W → Reply W
  discard_and_fail s o t w =
      if o.buffer_id != 0 then fail_state s t (ops.release_output w o).1 else fail_state s t w

  -- The answer of `try_signal`, in a state that is already marked as pending.
  unfoldable pub signalled : State → Io → W → Reply W
  signalled s io_ok w =
      finish answer_ok 0 (record s { signal_queued = true; phase = draining }) no_tally w
  signalled s io_retry w = finish would_block 0 s no_tally w
  signalled s io_window_full w = finish need_output_release 8 s no_tally w
  signalled s io_fatal w = fail_state s no_tally w

  unfoldable pub signal_in : Phase → State → W → Reply W
  signal_in failed s w = finish answer_failed 0 s no_tally w
  signal_in complete s w = finish answer_complete 0 s no_tally w
  signal_in draining s w = finish answer_ok 0 s no_tally w
  signal_in _ s w =
      let (io, w') = ops.try_signal w in
      signalled (record s { signal_requested = true; phase = signal_pending }) io w'

  unfoldable pub state_signal : State → ℕ → W → Reply W
  state_signal s struct_size w =
      if ltb struct_size status_size
      then finish invalid_argument 0 s no_tally w
      else signal_in s.phase s w

  -- The end of the stream is reached: whatever is still pending has failed.
  unfoldable pub completed : State → Tally → W → Reply W
  completed s t w =
      finish answer_complete 0 (record s { output_eos_seen = true; phase = complete }) t
        (ops.mark_remaining_pending_failed w)

  unfoldable pub released : State → Tally → Io × W → Reply W
  released s t (io_ok, w) =
      let s' = record s { controls_total = (s.controls_total + 1) % 2 ^ 64 } in
      let t' = record t { controls = t.controls + 1 } in
      if not (is_draining s.phase) then fail_state s' t' w else completed s' t' w
  released s t (_, w) = fail_state s t w

  -- A control output carries the end of the stream and nothing else.
  unfoldable pub control : State → Output → Tally → W → Reply W
  control s o t w =
      if o.flags != flag_eos
      then discard_and_fail s o t w
      else released s t (ops.release_output w o)

  -- The rest of the loop is taken as a function, for the frames that do not end the stream.
  unfoldable pub framed : (State → Tally → W → Reply W) → State → Output → Tally → Io × W → Reply W
  framed next s o t (io_ok, w) =
      let s' = record s { frames_total = (s.frames_total + 1) % 2 ^ 64 } in
      let t' = record t { frames = t.frames + 1 } in
      if bit_and o.flags flag_eos != 0 then completed s' t' w else next s' t' w
  framed next s o t (_, w) = discard_and_fail s o t w

  unfoldable pub classified : (State → Tally → W → Reply W) → State → Output → Tally → W → Reply W
  classified next s o t w =
      if o.buffer_id == 0
      then fail_state s t w
      else if o.kind == kind_control
      then control s o t w
      else if o.kind != kind_frame
      then discard_and_fail s o t w
      else if bit_and o.flags flag_eos != 0 && not (is_draining s.phase)
      then discard_and_fail s o t w
      else framed next s o t (ops.handle_frame w o)

  unfoldable pub dequeued :
      (State → Tally → W → Reply W) → State → Tally → Io × Output × W → Reply W
  dequeued next s t (io_retry, o, w) = finish would_block 4 s t w
  dequeued next s t (io_window_full, o, w) = finish need_output_release 8 s t w
  dequeued next s t (io_fatal, o, w) = fail_state s t w
  dequeued next s t (io_ok, o, w) =
      classified next (record s { outputs_total = (s.outputs_total + 1) % 2 ^ 64 }) o
        (record t { outputs = t.outputs + 1 }) w

  -- `while (outputs < max_outputs)`, with the outputs that are left.
  unfoldable pub progress_loop : ℕ → State → Tally → W → Reply W
  progress_loop zero s t w = finish answer_ok 16 s t w
  progress_loop (suc left) s t w =
      dequeued (λ s' t' w'. progress_loop left s' t' w') s t (ops.try_dequeue w)

  unfoldable pub progress_in : Phase → State → ℕ → W → Reply W
  progress_in phase_open s max w = finish not_signaled 0 s no_tally w
  progress_in failed s max w = finish answer_failed 0 s no_tally w
  progress_in complete s max w = finish answer_complete 0 s no_tally w
  progress_in _ s max w = progress_loop max s no_tally w

  unfoldable pub state_progress : State → ℕ → ℕ → W → Reply W
  state_progress s struct_size max w =
      if ltb struct_size status_size || max == 0 || ltb max_progress_outputs max
      then finish invalid_argument 0 s no_tally w
      else progress_in s.phase s max w
