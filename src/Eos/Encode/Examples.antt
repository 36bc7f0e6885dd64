-- ===== src/Eos/Encode/Examples.antt =====
-- An encoder whose backend never delivers the end of the stream. The world is the clock.
use lin_de_x.Base.{
  ℕ, ◌+◌, true, false, none, some, etimedout, refl, arith, zero, suc, Bool, ◌<◌, inl,
}
use lin_de_x.Eos.Encode.{State, Call, fine, Ops, encode_eos_finish}
use lin_de_x.Eos.Encode.Once.{SettledIfAny, encode_eos_finish-Settled}
use lin_de_x.Eos.Encode.Returns.{Advances, IsQuiet, Returns, encode_eos_finish-Returns}

abbrev silent : Ops ℕ
silent = record {
  now_ms = λ w. (record { now = w; error = none }, w);
  signal_eos = λ w pts. (fine, w);
  drain_once = λ w ms. (fine, false, w + ms);
  fail_closed = none;
}

-- Each drain takes as long as it was allowed to, and a millisecond more.
abbrev slow : Ops ℕ
slow = record silent { drain_once = λ w ms. (fine, false, w + ms + 1) }

abbrev fresh_state : State
fresh_state = record {
  signal_attempted = false;
  signal_succeeded = false;
  eos_received = false;
  failed_closed = false;
  failure_errno = none;
}

abbrev failed_state : State
failed_state = record fresh_state {
  signal_attempted = true;
  failed_closed = true;
  failure_errno = some etimedout;
}

abbrev received_state : State
received_state = record fresh_state {
  signal_attempted = true;
  signal_succeeded = true;
  eos_received = true;
}

-- Two frames are ready at once, and the end of the stream stands behind them: no call takes time.
abbrev prompt_drain : ℕ → Call × Bool × ℕ
prompt_drain zero = (fine, true, 0)
prompt_drain (suc frames) = (fine, false, frames)

abbrev prompt : Ops ℕ
prompt = record {
  now_ms = λ w. (record { now = 100; error = none }, w);
  signal_eos = λ w pts. (fine, w);
  drain_once = λ w ms. prompt_drain w;
  fail_closed = none;
}

prompt_drain-owes : (frames : ℕ) → IsQuiet (prompt_drain frames) → (prompt_drain frames).2 < frames
prompt_drain-owes zero q = absurd cc
prompt_drain-owes (suc frames) q = omega arith

prompt-Advances : Advances prompt (λ w. 100) (λ w. w)
prompt-Advances = record {
  reads = λ w. refl;
  read_keeps = λ w. refl;
  read_owes = λ w. omega arith;
  signal_owes = λ w pts. omega arith;
  drains = λ w ms q. inl (prompt_drain-owes w q, omega arith);
}

encode_eos_finish-Returns_example : Returns (encode_eos_finish prompt 54 fresh_state 0 50 2)
encode_eos_finish-Returns_example =
    encode_eos_finish-Returns prompt (λ w. 100) (λ w. w) prompt-Advances 54 0 50 fresh_state 2
      (omega arith)

encode_eos_finish-Settled_example : SettledIfAny (encode_eos_finish slow 52 fresh_state 0 50 100)
encode_eos_finish-Settled_example = encode_eos_finish-Settled slow 52 0 50 fresh_state 100 refl
