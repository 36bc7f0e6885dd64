-- ===== src/Session/Flights.antt =====
-- Submitting a dma-buf and delivering its completion, `handle_queue_dmabuf` and
-- `handle_complete_dmabuf` of src/video_bridge/src/session_engine.c, against the pairing of Pairing.
use lin_de_x.Base.{
  sym, ap, ◌∙◌, ◌<◌, Errno, arith, none, some, Option, ℕ, ◌==◌, ◌≡◌, ◌≢◌, refl, Bool-cases,
  Option-cases, inl, inr, Bool, true, false, List, find_first, update_first, is_some, if◌then◌else◌,
  Result-cases, ok, err, ◌!=◌, ◌||◌, subst,
}
use lin_de_x.Dmabuf.Descriptor.{Descriptor}
use lin_de_x.Dmabuf.Requests.{Submission, submission_decode}
use lin_de_x.Dmabuf.Registry.{Registry, Reply, Job, registry_begin, registry_finish}
use lin_de_x.Dmabuf.Registry.Refine.{status, IsValid}
use lin_de_x.Dmabuf.Registry.Flights.{finish_answer, registry_begin-Begun, registry_finish_lem}
use lin_de_x.Protocol.Wire.{get_u64}
use lin_de_x.Session.World.{Host}
use lin_de_x.Session.Ingress.{
  handle_queue_dmabuf, queue_dmabuf_to, begun, submitted, new_completion, handle_complete_dmabuf,
  completed_dmabuf,
}
use lin_de_x.Session.State.{
  status_ok, status_would_block, status_internal, Message, Session, Completion, is_completion,
  is_free_completion,
}
use lin_de_x.Session.Pairing.{
  Paired, SessionPaired, Paired-same, flies, waiting-fill, waiting-free, registry_begin-job,
  dmabuf_session-cases,
}

-- A buffer put in flight, and what was so before: the registry of an accepted submission.
Launched : Registry → Registry → ℕ → Type 0
Launched r r' id =
    IsValid r'
    × (id ≢ 0)
    × (status r id ≡ some false)
    × ((j : ℕ) → status r' j ≡ (if j == id then some true else status r j))

-- A submission that failed in the backend lands its buffer, and the flights are as before.
landed-Paired :
    (r r' : Registry) (id : ℕ) (cs : List Completion)
    → Paired (some r) cs
    → Launched r r' id
    → Paired (some (registry_finish r' id).1) cs
unfolding Launched
landed-Paired r r' id cs p l =
    let (answer, changes, valid) = registry_finish_lem r' id l.0 in
    Paired-same r _ cs p valid (λ j. ground (arith, answer, changes j, l.3 j, l.3 id, l.2, l.1))

module _ {W : Type 0} (h : Host W) where
  -- A submission that the backend took adds the completion of its buffer.
  Launched-Paired :
      (r r' : Registry) (id : ℕ) (fence : Option ℕ) (cs : List Completion) (c : Completion)
      → Paired (some r) cs
      → Launched r r' id
      → find_first is_free_completion cs ≡ some c
      → Paired (some r') (update_first is_free_completion (λ _. new_completion h id fence) cs)
  unfolding Launched Paired new_completion
  Launched-Paired r r' id fence cs c p l f = (
    l.0,
    λ j. ground (arith, waiting-fill j (new_completion h id fence) cs c f refl, p.1 j, l.3 j, l.2),
  )

  submitted-Paired :
      (s : Session) (reply : Message) (r r' : Registry) (job : Job) (c : Completion)
      (result : ℕ × Option ℕ × W)
      → Paired (some r) s.completions
      → Launched r r' job.buffer_id
      → find_first is_free_completion s.completions ≡ some c
      → SessionPaired (submitted h s reply r' job result).session
  unfolding submitted
  submitted-Paired s reply r r' job c (status, fence, w) p l f = ground (
    arith,
    landed-Paired r r' job.buffer_id s.completions p l,
    Launched-Paired r r' job.buffer_id fence s.completions c p l f,
    Launched-Paired r r' job.buffer_id none s.completions c p l f,
  )

  begun-Paired :
      (submit : W → ℕ → Descriptor → ℕ → Option ℕ → ℕ × Option ℕ × W) (s : Session)
      (reply : Message) (r : Registry) (x : Reply W Job) (c : Completion)
      → Paired (some r) s.completions
      → find_first is_free_completion s.completions ≡ some c
      → ((e : Errno) → x.result ≡ err e → Paired (some x.registry) s.completions)
      → ((job : Job) → x.result ≡ ok job → Launched r x.registry job.buffer_id)
      → SessionPaired (begun h submit s reply x).session
  unfolding begun
  begun-Paired submit s reply r x c p f failure success = elim (Result-cases x.result) [
    | inl (e, q) ↦ rw q (failure e q)
    | inr (job, q) ↦ rw q (
        submitted-Paired s reply r x.registry job c
          (submit x.world s.handle job.descriptor job.pts_ns job.acquire_fence) p (success job q) f)
  ]

  module _ (w : W) (r : Registry) (s : Submission) (cs : List Completion)
      (p : Paired (some r) cs) where
    failed-Paired :
        (e : Errno)
        → (registry_begin h.kernel w r s).result ≡ err e
        → Paired (some (registry_begin h.kernel w r s).registry) cs
    unfolding Paired
    failed-Paired e q =
        let b = registry_begin-Begun h.kernel w r s p.0 in
        Paired-same r _ cs p b.valid λ j. ground (arith, b.changes j, q)

    begin-Launched :
        (job : Job)
        → (registry_begin h.kernel w r s).result ≡ ok job
        → Launched r (registry_begin h.kernel w r s).registry job.buffer_id
    unfolding Launched Paired
    begin-Launched job q =
        let b = registry_begin-Begun h.kernel w r s p.0 in
        let same = registry_begin-job h.kernel w r s job q in
        (
          b.valid,
          ground (arith, same),
          ground (arith, same, b.grounded_before, q),
          λ j. ground (arith, same, b.changes j, q),
        )

  module _ (w : W) (s : Session) (request reply : Message) (p : SessionPaired s) where
    -- If a session's registry is valid and one completion waits for each of its buffers in flight
    -- and none for any other, so it is after QUEUE_DMABUF, on every branch: a buffer that the
    -- backend took has its completion, and one that failed is not in flight.
    pub handle_queue_dmabuf-Paired : SessionPaired (handle_queue_dmabuf h w s request reply).session
    unfolding handle_queue_dmabuf queue_dmabuf_to
    handle_queue_dmabuf-Paired = elim (dmabuf_session-cases s request) [
      | inl n ↦ rw (n, handle_queue_dmabuf) p
      | inr (r, n, e) ↦
          rw (n, handle_queue_dmabuf)
            (elim (Option-cases h.backend.submit_dmabuf) [
              | inl m ↦ rw m p
              | inr (submit, m) ↦
                  rw m (elim (Option-cases (find_first is_free_completion s.completions)) [
                    | inl f ↦ rw f p
                    | inr (c, f) ↦
                        rw f
                          (elim (Result-cases (
                            submission_decode h.kernel w request.payload request.header.payload_size
                              request.fds request.header.fd_count)) [
                                | inl (x, q) ↦ rw q p
                                | inr (submission, q) ↦ rw q (
                                    let before = subst (λ o. Paired o s.completions) e p in
                                    begun-Paired submit s reply r _ c before f
                                      (failed-Paired w r submission s.completions before)
                                      (begin-Launched w r submission s.completions before))
                              ])
                  ])
            ])
    ]

-- A completion that waits belongs to a buffer in flight.
waiting-flies :
    (r : Registry) (id : ℕ) (cs : List Completion) (c : Completion)
    → Paired (some r) cs
    → find_first (is_completion id) cs ≡ some c
    → status r id ≡ some true
unfolding Paired
waiting-flies r id cs c p f =
    ground (arith, waiting-free id id cs c f, p.1 id, flies_true (status r id))
  where
    flies_true : (o : Option Bool) → 0 < flies o → o ≡ some true
    flies_true (some true) l = refl
    flies_true (some false) l = ground arith
    flies_true none l = ground arith

module _ {W : Type 0} (h : Host W) (w : W) where
  module _ (r : Registry) (s : Session) (reply : Message) (id : ℕ)
      (p : Paired (some r) s.completions) (g : (id == 0) ≡ false) where
    completed-Paired :
        (o : Option Completion)
        → find_first (is_completion id) s.completions ≡ o
        → s.dmabufs ≡ some r
        → SessionPaired (completed_dmabuf h w r s reply id o).session
          × ((completed_dmabuf h w r s reply id o).status
              ≡ (if is_some o then status_ok else status_would_block))
    unfolding completed_dmabuf Paired
    completed-Paired none f e = (subst (λ x. Paired x s.completions) (sym e) p, refl)
    completed-Paired (some c) f e =
        let (answer, changes, valid) = registry_finish_lem r id p.0 in
        let lands = answer ∙ ap (finish_answer id) (waiting-flies r id s.completions c p f) in
        elim (Result-cases (registry_finish r id).0) [
          | inl (x, q) ↦ ground (arith, lands, q, g)
          | inr (u, q) ↦
              rw (q, completed_dmabuf)
                (
                  (
                    valid,
                    λ j. ground (
                      arith,
                      changes j,
                      q,
                      p.1 j,
                      waiting-free id j s.completions c f,
                      waiting-flies r id s.completions c p f,
                    ),
                  ),
                  refl,
                )
        ]

  module _ (s : Session) (request reply : Message) (p : SessionPaired s) where
    -- If a session's registry is valid and its completions are paired with its flights, so they are
    -- after COMPLETE_DMABUF, and the status is not INTERNAL.
    pub handle_complete_dmabuf-Paired :
        SessionPaired (handle_complete_dmabuf h w s request reply).session
        × ((handle_complete_dmabuf h w s request reply).status ≢ status_internal)
    unfolding handle_complete_dmabuf
    handle_complete_dmabuf-Paired = elim (dmabuf_session-cases s request) [
      | inl n ↦ rw (n, handle_complete_dmabuf) (p, λ q. ground arith)
      | inr (r, n, e) ↦
          rw (n, handle_complete_dmabuf)
            (elim (Bool-cases (
              request.header.payload_size != 8
              || request.header.fd_count != 0
              || get_u64 request.payload 0 == 0)) [
                | inl b ↦ rw b (p, λ q. ground arith)
                | inr b ↦
                    let (paired, answer) =
                      completed-Paired r s reply (get_u64 request.payload 0)
                        (subst (λ o. Paired o s.completions) e p) (ground (arith, b))
                        (find_first (is_completion (get_u64 request.payload 0)) s.completions) refl
                        e in
                    rw b (paired, λ q. ground (arith, answer, q))
              ])
    ]
