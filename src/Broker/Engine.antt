-- ===== src/Broker/Engine.antt =====
-- The session engine as the provider of the broker, as serve_client of
-- src/video_bridge/android/broker_main.c puts them together, and the loop over the requests of a client.
-- The provider's userdata, the engine, is a part of the world.
use lin_de_x.Base.{
  ◌∙◌, ℕ, Option, none, some, Option-cases, inl, inr, Bool, true, false, Errno, List, [], ◌∷◌,
}
use lin_de_x.Kernel.{Kernel}
use lin_de_x.Protocol.Messages.{Socket}
use lin_de_x.Session.World.{Host}
use lin_de_x.Session.State.{Engine, Message, status_internal}
use lin_de_x.Session.Create.{Created}
use lin_de_x.Session.Engine.{engine_handle, after_reply}
use lin_de_x.Session.Identity.{Answers, engine_handle-Answers}
use lin_de_x.Broker.{Provider, Capabilities, answer_request, handle_once}
use lin_de_x.Broker.Replies.{Echoes, KeepsIdentity, answer_request-Echoes}

-- `while (advc_broker_handle_once(client, &provider) == 0) {}`, for a number of rounds: an entry of the
-- list is whether the round's buffers are allocated.
unfoldable pub serve_requests :
    {W : Type 0} (p : Provider W) (k : Kernel W) (s : Socket W) → Errno → List Bool → ℕ → W → W
serve_requests p k s errno [] client w = w
serve_requests p k s errno (allocated ∷ rounds) client w =
    let (done, v) = handle_once p k s allocated w errno client in
    let rest = serve_requests p k s errno rounds client v in elim done [ true ↦ rest | false ↦ v ]

module _ {W : Type 0} (h : Host W) where
  -- The answer of the engine; `none` stands for a search for a session id without end.
  unfoldable pub engine_answer :
      W × Engine → Message → Option (Created h) → ℕ × Message × (W × Engine)
  engine_answer w reply none = (status_internal, reply, w)
  engine_answer w reply (some c) = (c.status, c.reply, (c.world, c.engine))

  unfoldable pub handle_request : W × Engine → Message → Message → ℕ × Message × (W × Engine)
  handle_request (w, e) request reply =
      engine_answer (w, e) reply (engine_handle h w e request reply)

  unfoldable pub finish_request : W × Engine → ℕ → Message → Message → Bool × (W × Engine)
  finish_request (w, e) socket request reply =
      let (on, e', w') = after_reply h w socket e request reply in (on, (w', e'))

  unfoldable pub engine_provider :
      ℕ → Option (W × Engine → Option Capabilities × (W × Engine)) → Provider (W × Engine)
  engine_provider feature_bits query = record {
    feature_bits = feature_bits;
    query_capabilities = query;
    handle_codec_request = some handle_request;
    after_reply = some finish_request;
  }

  combined-Echoes :
      (request reply : Message) (c : Created h)
      → Echoes request reply
      → Answers h request.header.opcode reply (some c)
      → Echoes request c.reply
  unfolding Answers
  combined-Echoes request reply c e ((major, minor, message_type, opcode, request_id), session_id) =
      record {
        major = major ∙ e.major;
        minor = minor ∙ e.minor;
        message_type = message_type ∙ e.message_type;
        opcode = opcode ∙ e.opcode;
        request_id = request_id ∙ e.request_id;
        session_id = λ n. session_id n ∙ e.session_id n;
      }

  handle_request-Keeps : KeepsIdentity (some handle_request)
  unfolding KeepsIdentity handle_request engine_answer
  handle_request-Keeps (w, e) request reply echo =
      let answered = engine_handle-Answers h w e request reply in
      elim (Option-cases (engine_handle h w e request reply)) [
        | inl n ↦ rw (n, engine_answer) echo
        | inr (c, m) ↦
            rw (m, engine_answer) (combined-Echoes request reply c echo (rw m at answered))
      ]

  -- With the session engine as its codec engine, the broker's reply to any request is a reply of
  -- the protocol's major version, with the request's opcode and request id, the smaller of the two
  -- minor versions and, unless the request creates a session, the request's session id.
  pub answer_request-engine :
      (feature_bits : ℕ) (query : Option (W × Engine → Option Capabilities × (W × Engine))) (w : W)
      (e : Engine) (request : Message)
      → Echoes request (answer_request (engine_provider feature_bits query) (w, e) request).0
  unfolding engine_provider
  answer_request-engine feature_bits query w e request =
      answer_request-Echoes (engine_provider feature_bits query) (w, e) request handle_request-Keeps
