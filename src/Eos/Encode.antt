-- ===== src/Eos/Encode.antt =====
-- src/vaapi_advc/advc_vaapi_encode_eos.c: `advc_vaapi_encode_eos_finish`. The callbacks act on a
-- world, and the pointers are not NULL. The loop takes fuel, and `none` means that it ran out.
pub mod Once
pub mod Returns
mod Examples
use lin_de_x.Base.{
  ℕ, zero, suc, ◌+◌, ◌-◌, ◌^◌, ◌==◌, ltb, leb, ◌||◌, not, Bool, true, false, Option, none, some,
  if◌then◌else◌, Result, ok, err, Errno, eio, eoverflow, etimedout, os,
}

pub record State : Type 0 where
  pub signal_attempted : Bool
  pub signal_succeeded : Bool
  pub eos_received : Bool
  pub failed_closed : Bool
  -- errno, and `none` for 0
  pub failure_errno : Option Errno

-- A callback's result: 0 or more, or negative with errno.
pub data Call : Type 0 where
  fine : Call
  wrong : Option Errno → Call

-- The clock's reading with errno; 2 ^ 64 - 1 is its failure.
pub record Tick : Type 0 where
  pub now : ℕ
  pub error : Option Errno

abbrev pub uint64_max : ℕ
uint64_max = 2 ^ 64 - 1

abbrev pub uint32_max : ℕ
uint32_max = 2 ^ 32 - 1

pub record Ops (W : Type 0) : Type 0 where
  pub now_ms : W → Tick × W
  pub signal_eos : W → ℕ → Call × W
  -- Whether the end of the stream was received, besides the result.
  pub drain_once : W → ℕ → Call × Bool × W
  pub fail_closed : Option (W → W)

pub record Reply (W : Type 0) : Type 0 where
  pub result : Result (Unit {0})
  pub state : State
  pub world : W

abbrev pub or_eio : Option Errno → Errno
or_eio none = eio
or_eio (some e) = e

-- errno as it was recorded, which is 0 if nothing was.
abbrev pub recorded : Option Errno → Errno
recorded none = os 0
recorded (some e) = e

abbrev pub succeed : {W : Type 0} → State → W → Reply W
succeed s w = record { result = ok tt; state = s; world = w }

module _ {W : Type 0} (ops : Ops W) where
  abbrev pub close_down : Option (W → W) → W → W
  close_down none w = w
  close_down (some f) w = f w

  -- Only the first failure is recorded and closes the encoder; each returns the recorded error.
  unfoldable pub fail_once : State → Option Errno → W → Reply W
  fail_once s e w =
      if s.failed_closed
      then record { result = err (recorded s.failure_errno); state = s; world = w }
      else record {
        result = err (or_eio e);
        state = record s { failed_closed = true; failure_errno = some (or_eio e) };
        world = close_down ops.fail_closed w;
      }

  -- What follows `drain_once`; the next round is taken as a function.
  unfoldable pub drained :
      (State → W → Option (Reply W)) → State → Call × Bool × W → Option (Reply W)
  drained next s (wrong e, received, w) = some (fail_once s e w)
  drained next s (fine, true, w) = next (record s { eos_received = true }) w
  drained next s (fine, false, w) = next s w

  unfoldable pub ticked : (State → W → Option (Reply W)) → ℕ → State → Tick × W → Option (Reply W)
  ticked next deadline s (t, w) =
      if t.now == uint64_max
      then some (fail_once s t.error w)
      else if leb deadline t.now
      then some (fail_once s (some etimedout) w)
      else let remaining = deadline - t.now in
        let wait = if ltb uint32_max remaining then uint32_max else remaining in
        drained next s (ops.drain_once w (if wait == 0 then 1 else wait))

  -- `while (!state->eos_received)`
  unfoldable pub wait_loop : ℕ → ℕ → State → W → Option (Reply W)
  wait_loop zero deadline s w = none
  wait_loop (suc fuel) deadline s w =
      if s.eos_received
      then some (succeed s w)
      else ticked (wait_loop fuel deadline) deadline s (ops.now_ms w)

  unfoldable pub start_wait : ℕ → ℕ → State → Tick × W → Option (Reply W)
  start_wait fuel timeout s (t, w) =
      if t.now == uint64_max || ltb (uint64_max - t.now) timeout
      then some (fail_once s (some eoverflow) w)
      else wait_loop fuel (t.now + timeout) s w

  unfoldable pub signalled : ℕ → ℕ → State → Call × W → Option (Reply W)
  signalled fuel timeout s (wrong e, w) = some (fail_once s e w)
  signalled fuel timeout s (fine, w) =
      start_wait fuel timeout (record s { signal_succeeded = true }) (ops.now_ms w)

  unfoldable pub encode_eos_finish : ℕ → State → ℕ → ℕ → W → Option (Reply W)
  encode_eos_finish fuel s pts_ns timeout w =
      if s.failed_closed
      then some (fail_once s s.failure_errno w)
      else if s.eos_received
      then some (succeed s w)
      else if not s.signal_attempted
      then signalled fuel timeout (record s { signal_attempted = true }) (ops.signal_eos w pts_ns)
      else if not s.signal_succeeded
      then some (fail_once s (some eio) w)
      else start_wait fuel timeout s (ops.now_ms w)
