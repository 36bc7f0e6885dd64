-- ===== src/Session/Pairing.antt =====
-- The dma-bufs of a session: the completions that wait in the slots of struct advc_session_slot
-- against the buffers in flight in its registry, in src/video_bridge/src/session_engine.c.
use lin_de_x.Base.{
  arith, none, some, Option, ℕ, ◌+◌, ◌==◌, ◌≡◌, ◌≢◌, refl, Bool-cases, Option-cases, inl, inr, Bool,
  true, List, [], ◌∷◌, find_first, update_first, if◌then◌else◌, Result-cases, ok, ◌∙◌, sym, ◌⊎◌,
  subst, ltb, ◌||◌, ◌!=◌,
}
use lin_de_x.Kernel.{Kernel}
use lin_de_x.Dmabuf.Descriptor.{Descriptor}
use lin_de_x.Dmabuf.Requests.{Submission, unregister_decode}
use lin_de_x.Dmabuf.Registry.{
  Registry, Reply, Job, Verdict, registry_begin, begin_found, started, registry_register,
  registry_unregister,
}
use lin_de_x.Dmabuf.Registry.Refine.{
  IsValid, status, registry_register-IsValid, registry_register-status, registry_register-fresh,
}
use lin_de_x.Dmabuf.Registry.Flights.{registry_unregister_lem}
use lin_de_x.Session.World.{Host}
use lin_de_x.Session.Ingress.{
  handle_register_dmabuf, registry_answer, handle_unregister_dmabuf, dmabuf_session, format_allowed,
}
use lin_de_x.Dmabuf.Records.{registration_decode}
use lin_de_x.Session.State.{
  Message, Session, Completion, free_completion, is_completion, is_free_completion,
  transport_dmabuf,
}

unfoldable pub waiting : ℕ → List Completion → ℕ
waiting id [] = 0
waiting id (c ∷ cs) = if is_completion id c then waiting id cs + 1 else waiting id cs

abbrev pub flies : Option Bool → ℕ
flies (some true) = 1
flies _ = 0

-- One completion waits for each buffer in flight, and none for any other.
unfoldable pub Paired : Option Registry → List Completion → Type 0
Paired none cs = Unit {0}
Paired (some r) cs = IsValid r × ((id : ℕ) → waiting id cs ≡ flies (status r id))

pub waiting-fill :
    (id : ℕ) (new : Completion) (cs : List Completion) (c : Completion)
    → find_first is_free_completion cs ≡ some c
    → new.in_use ≡ true
    → waiting id (update_first is_free_completion (λ _. new) cs)
      ≡ waiting id cs + (if id == new.buffer_id then 1 else 0)
unfolding waiting find_first update_first
waiting-fill id new [] c p u = ground arith
waiting-fill id new (x ∷ xs) c p u = ground (arith, waiting-fill id new xs c)

pub waiting-free :
    (id j : ℕ) (cs : List Completion) (c : Completion)
    → find_first (is_completion id) cs ≡ some c
    → waiting j cs
      ≡ waiting j (update_first (is_completion id) (λ _. free_completion) cs)
        + (if j == id then 1 else 0)
unfolding waiting find_first update_first
waiting-free id j [] c p = ground arith
waiting-free id j (x ∷ xs) c p = ground (arith, waiting-free id j xs c)

pub registry_begin-job :
    {W : Type 0} (k : Kernel W) (w : W) (r : Registry) (s : Submission) (job : Job)
    → (registry_begin k w r s).result ≡ ok job
    → (job.buffer_id ≡ s.buffer_id) × (s.buffer_id ≢ 0)
unfolding registry_begin begin_found started
registry_begin-job k w r s job p = ground arith

-- A registry whose flights are those of `r` stays paired.
pub Paired-same :
    (r r' : Registry) (cs : List Completion)
    → Paired (some r) cs
    → IsValid r'
    → ((id : ℕ) → flies (status r' id) ≡ flies (status r id))
    → Paired (some r') cs
unfolding Paired
Paired-same r r' cs p v same = (v, λ id. p.1 id ∙ sym (same id))

pub register-flies :
    {W : Type 0} (k : Kernel W) (policy : W → Descriptor → Verdict) (w : W) (r : Registry)
    (d : Descriptor) (id : ℕ)
    → flies (status (registry_register k policy w r d).registry id) ≡ flies (status r id)
register-flies k policy w r d id =
    ground
      (arith, registry_register-status k policy w r d id, registry_register-fresh k policy w r d)

unregister-flies :
    {W : Type 0} (k : Kernel W) (w : W) (r : Registry) (id j : ℕ)
    → IsValid r
    → flies (status (registry_unregister k w r id).registry j) ≡ flies (status r j)
unregister-flies k w r id j v =
    let (answer, changes, _) = registry_unregister_lem k w r id v in
    elim (Option-cases (status r id)) [
      | inl n ↦ ground (arith, answer, changes j)
      | inr (b, n) ↦ ground (arith, answer, changes j)
    ]

-- The registry of a request is that of the session.
pub dmabuf_session-cases :
    (s : Session) (request : Message)
    → (dmabuf_session s request ≡ none)
      ⊎ ((r : Registry) × (dmabuf_session s request ≡ some r) × (s.dmabufs ≡ some r))
unfolding dmabuf_session
dmabuf_session-cases s request =
    elim (Bool-cases (ltb request.header.minor 5 || s.transport != transport_dmabuf)) [
      | inl b ↦ rw b (inl refl)
      | inr b ↦ rw b (elim (Option-cases s.dmabufs) [ inl n ↦ inl n | inr (r, e) ↦ inr (r, e, e) ])
    ]

-- A session whose completions match its flights.
abbrev pub SessionPaired : Session → Type 0
SessionPaired s = Paired s.dmabufs s.completions

module _ {W : Type 0} (h : Host W) where
  registry_answer-Paired :
      (s : Session) (reply : Message) (x : Reply W (Unit {0}))
      → Paired (some x.registry) s.completions
      → SessionPaired (registry_answer h s reply x).session
  unfolding registry_answer
  registry_answer-Paired s reply x p = elim (Result-cases x.result) [
    | inl (e, q) ↦ rw q p
    | inr (u, q) ↦ rw q p
  ]

  module _ (w : W) (s : Session) (request reply : Message) (p : SessionPaired s) where
    -- If a session's registry is valid and its completions are paired with its flights, so they are
    -- after REGISTER_DMABUF, accepted or not.
    pub handle_register_dmabuf-Paired :
        SessionPaired (handle_register_dmabuf h w s request reply).session
    unfolding handle_register_dmabuf Paired
    handle_register_dmabuf-Paired = elim (dmabuf_session-cases s request) [
      | inl n ↦ rw (n, handle_register_dmabuf) p
      | inr (r, n, e) ↦
          rw (n, handle_register_dmabuf)
            (elim (Result-cases (
              registration_decode h.kernel w request.payload request.header.payload_size request.fds
                request.header.fd_count)) [
                  | inl (x, q) ↦ rw q p
                  | inr (d, q) ↦ rw q (
                      registry_answer-Paired s reply _ (
                        Paired-same r _ s.completions (subst (λ o. Paired o s.completions) e p)
                          (registry_register-IsValid h.kernel (format_allowed h s.handle) w r d
                            (subst (λ o. Paired o s.completions) e p).0)
                          (register-flies h.kernel (format_allowed h s.handle) w r d)))
                ])
    ]

    -- If a session's registry is valid and its completions are paired with its flights, so they are
    -- after UNREGISTER_DMABUF, accepted or not.
    pub handle_unregister_dmabuf-Paired :
        SessionPaired (handle_unregister_dmabuf h w s request reply).session
    unfolding handle_unregister_dmabuf Paired
    handle_unregister_dmabuf-Paired = elim (dmabuf_session-cases s request) [
      | inl n ↦ rw (n, handle_unregister_dmabuf) p
      | inr (r, n, e) ↦
          rw (n, handle_unregister_dmabuf)
            (elim (Result-cases (
              unregister_decode request.payload request.header.payload_size
                request.header.fd_count)) [
                  | inl (x, q) ↦ rw q p
                  | inr (id, q) ↦
                      let before = subst (λ o. Paired o s.completions) e p in
                      rw q (
                        registry_answer-Paired s reply _ (
                          Paired-same r _ s.completions before
                            (registry_unregister_lem h.kernel w r id before.0).2
                            (λ j. unregister-flies h.kernel w r id j before.0)))
                ])
    ]
