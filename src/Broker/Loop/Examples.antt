-- ===== src/Broker/Loop/Examples.antt =====
-- A client whose requests are all PING, served by the session engine.
use lin_de_x.Base.{ℕ, ◌+◌, [], ◌∷◌, true, refl, os, none, List, Bool, false}
use lin_de_x.Kernel.{Kernel, returns}
use lin_de_x.Protocol.Limits.{header_size}
use lin_de_x.Protocol.Messages.{Socket}
use lin_de_x.Protocol.Messages.Delivery.{arrived}
use lin_de_x.Session.State.{Engine, engine_create}
use lin_de_x.Session.Unique.{IsSound, created-IsSound}
use lin_de_x.Session.Examples.{host}
use lin_de_x.Broker.{answer_request}
use lin_de_x.Broker.Replies.{Echoes}
use lin_de_x.Broker.Engine.{engine_provider, serve_requests, answer_request-engine}
use lin_de_x.Broker.Examples.{ping_datagram, flush_request}
use lin_de_x.Broker.Loop.{Apart, KeepsEngine, serve_requests-IsSound}

-- Descriptors are closed without further effect.
abbrev quiet : Kernel (ℕ × Engine)
quiet = record {
  has_cloexec = λ x fd. true;
  is_sync_file = λ x fd. true;
  dup = λ x fd. returns fd x;
  close = λ x fd. (x.0 + 1, x.1);
}

abbrev pings : Socket (ℕ × Engine)
pings = record {
  sendmsg = λ x fd d. returns (header_size + d.payload_size) (x.0 + 1, x.1);
  recvmsg = λ x fd capacity. returns (arrived ping_datagram (5 ∷ [])) (x.0 + 1, x.1);
}

quiet-Apart : Apart quiet pings
quiet-Apart = record {
  close = λ x fd. refl;
  send = λ x fd d. refl;
  receive = λ x fd capacity. refl;
}

no_probe-KeepsEngine : KeepsEngine {W = ℕ} none
unfolding KeepsEngine
no_probe-KeepsEngine = tt

answer_request-engine_example :
    Echoes flush_request
      (answer_request (engine_provider host 0x3fff none) (10, engine_create) flush_request).0
answer_request-engine_example =
    answer_request-engine host 0x3fff none 10 engine_create flush_request

-- The buffers of the third round cannot be allocated.
abbrev three_rounds : List Bool
three_rounds = true ∷ true ∷ false ∷ []

serve_requests-IsSound_example :
    IsSound
      (serve_requests
        (engine_provider host 0x3fff none)
        quiet
        pings
        (os 0)
        three_rounds
        3
        (10, engine_create)).1
serve_requests-IsSound_example =
    serve_requests-IsSound host 0x3fff none no_probe-KeepsEngine quiet pings quiet-Apart
      three_rounds (10, engine_create) (os 0) 3 created-IsSound
