-- ===== src/Session/Handled.antt =====
-- What a handler of one session leaves.
use lin_de_x.Base.{ℕ}
use lin_de_x.Session.State.{Message, Session, write_status, status_ok}

pub record Handled (W : Type 0) : Type 0 where
  pub status : ℕ
  pub session : Session
  pub reply : Message
  pub world : W

-- An early return.
abbrev pub refuse : {W : Type 0} → ℕ → Session → Message → W → Handled W
refuse status s reply w = record { status = status; session = s; reply = reply; world = w }

-- `write_status(reply, ADVC_STATUS_OK, 0); return ADVC_STATUS_OK;`
abbrev pub accept : {W : Type 0} → Session → Message → W → Handled W
accept s reply w = record {
  status = status_ok;
  session = s;
  reply = write_status reply status_ok 0;
  world = w;
}
