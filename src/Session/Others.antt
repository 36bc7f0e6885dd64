-- ===== src/Session/Others.antt =====
-- `advc_session_engine_handle` of src/video_bridge/src/session_engine.c and the sessions that a
-- request does not name.
use lin_de_x.Base.{
  ◌∙◌, find_first-passes, true, arith, none, some, Option, length, ℕ, ◌<◌, ◌≤◌, ◌≡◌, ◌≢◌, refl,
  subst, Bool-cases, Option-cases, inl, inr, not, ◌&&◌, ◌==◌, List, [], ◌∷◌, false, find_first,
  update_first, find_first-passes, ◌!=◌,
}
use lin_de_x.Session.World.{Host, Config, BackendOutput}
use lin_de_x.Session.State.{
  free_session, Engine, Message, Session, find_session, is_session, is_free, status_ok,
  allocate_session_id,
}
use lin_de_x.Session.Create.{
  Created, handle_create, opened, new_session, read_config, registry_failure,
}
use lin_de_x.Session.Input.{handle_queue, queue_loaded, load_input, queued}
use lin_de_x.Session.Ahb.{
  is_idle, handle_queue_ahb, await_ahb, handle_complete_ahb, complete_in, completed_ahb,
}
use lin_de_x.Session.Ingress.{
  handle_register_dmabuf, registry_answer, handle_unregister_dmabuf, handle_queue_dmabuf,
  queue_dmabuf_to, begun, submitted, handle_complete_dmabuf, completed_dmabuf,
}
use lin_de_x.Session.Output.{
  handle_dequeue, dequeued_output, dequeue_bytes, dequeue_ahb, entered, handle_release,
  release_slot, freed, handle_transfer_ahb, handle_transfer_prime, exported, release_outstanding,
}
use lin_de_x.Session.Ids.{Fresh, allocate_session_id-Fresh}
use lin_de_x.Session.Engine.{
  queue_input, dequeue_output, release_output, flush, close_session, create_session, transfer_ahb,
  queue_ahb, complete_ahb, register_dmabuf, unregister_dmabuf, queue_dmabuf, complete_dmabuf,
  transfer_prime, other, dispatch, flushed, handle_flush, handle_close, engine_handle,
  handle_session, handled_by, Op, is_complete_ahb, op_of,
}

pub find-update_other :
    (id j : ℕ) (new : Session) (ss : List Session)
    → j ≢ id
    → is_session j new ≡ false
    → find_session j (update_first (is_session id) (λ _. new) ss) ≡ find_session j ss
unfolding find_first update_first
find-update_other id j new [] n e = refl
find-update_other id j new (s ∷ ss) n e = ground (arith, find-update_other id j new ss n e)

find-fill_other :
    (id j : ℕ) (new : Session) (ss : List Session) (s : Session)
    → new.id ≡ id
    → find_session id ss ≡ none
    → find_session j ss ≡ some s
    → find_session j (update_first is_free (λ _. new) ss) ≡ some s
unfolding find_first update_first
find-fill_other id j new [] s q f p = p
find-fill_other id j new (x ∷ xs) s q f p = elim (Bool-cases x.in_use) [
  | inl u ↦ ground (arith, find-fill_other id j new xs s q)
  | inr u ↦ ground (arith, found-differs)
]
  where
    found-differs : is_session j new ≡ true → find_session id (x ∷ xs) ≡ find_session j (x ∷ xs)
    found-differs b = ground arith

-- A slot that was free is cleared.
pub find-clear :
    (j : ℕ) (ss : List Session)
    → find_session j (update_first is_free (λ _. free_session) ss) ≡ find_session j ss
unfolding find_first update_first
find-clear j [] = refl
find-clear j (s ∷ ss) = ground (arith, find-clear j ss)

-- A handler leaves a session with the id that it got, or a free slot.
abbrev pub Keeps : Session → Session → Type 0
Keeps s s' = (s'.in_use && not (s'.id == s.id)) ≡ false

module _ {W : Type 0} (h : Host W) (w : W) (s : Session) (request reply : Message) where
  handle_queue-Keeps : Keeps s (handle_queue h w s request reply).session
  unfolding handle_queue queue_loaded load_input queued
  handle_queue-Keeps = ground arith

  handle_queue_ahb-Keeps : Keeps s (handle_queue_ahb h w s request reply).session
  unfolding handle_queue_ahb await_ahb
  handle_queue_ahb-Keeps = ground arith

  handle_complete_ahb-Keeps : Keeps s (handle_complete_ahb h w s request reply).session
  unfolding handle_complete_ahb complete_in completed_ahb
  handle_complete_ahb-Keeps = ground arith

  handle_register-Keeps : Keeps s (handle_register_dmabuf h w s request reply).session
  unfolding handle_register_dmabuf registry_answer
  handle_register-Keeps = ground arith

  handle_queue_dmabuf-Keeps : Keeps s (handle_queue_dmabuf h w s request reply).session
  unfolding handle_queue_dmabuf queue_dmabuf_to begun submitted
  handle_queue_dmabuf-Keeps = ground arith

  handle_complete_dmabuf-Keeps : Keeps s (handle_complete_dmabuf h w s request reply).session
  unfolding handle_complete_dmabuf completed_dmabuf
  handle_complete_dmabuf-Keeps = ground arith

  handle_unregister-Keeps : Keeps s (handle_unregister_dmabuf h w s request reply).session
  unfolding handle_unregister_dmabuf registry_answer
  handle_unregister-Keeps = ground arith

  handle_release-Keeps : Keeps s (handle_release h w s request reply).session
  unfolding handle_release release_slot freed
  handle_release-Keeps = ground arith

  handle_transfer_ahb-Keeps : Keeps s (handle_transfer_ahb h w s request reply).session
  unfolding handle_transfer_ahb
  handle_transfer_ahb-Keeps = ground arith

  handle_transfer_prime-Keeps : Keeps s (handle_transfer_prime h w s request reply).session
  unfolding handle_transfer_prime exported
  handle_transfer_prime-Keeps = ground arith

  handle_flush-Keeps : Keeps s (handle_flush h w s request reply).session
  unfolding handle_flush flushed release_outstanding
  handle_flush-Keeps = ground arith

  handle_close-Keeps : Keeps s (handle_close h w s request reply).session
  unfolding handle_close
  handle_close-Keeps = ground arith

  module _ (n : ℕ) where
    dequeued_output-Keeps :
        (result : ℕ × BackendOutput × W)
        → Keeps s (dequeued_output h n s reply result).handled.session
    unfolding dequeued_output dequeue_bytes dequeue_ahb entered
    dequeued_output-Keeps (status, o, w') = ground arith

    handle_dequeue-Keeps : Keeps s (handle_dequeue h n w s request reply).handled.session
    unfolding handle_dequeue
    handle_dequeue-Keeps =
        ground (arith, dequeued_output-Keeps (h.backend.dequeue_output w s.handle))

    pub dispatch-Keeps : (op : Op) → Keeps s (dispatch h op n w s request reply).handled.session
    unfolding dispatch
    dispatch-Keeps queue_input = handle_queue-Keeps
    dispatch-Keeps dequeue_output = handle_dequeue-Keeps
    dispatch-Keeps release_output = handle_release-Keeps
    dispatch-Keeps transfer_ahb = ground (arith, handle_transfer_ahb-Keeps)
    dispatch-Keeps transfer_prime = ground (arith, handle_transfer_prime-Keeps)
    dispatch-Keeps queue_ahb = handle_queue_ahb-Keeps
    dispatch-Keeps complete_ahb = handle_complete_ahb-Keeps
    dispatch-Keeps register_dmabuf = handle_register-Keeps
    dispatch-Keeps unregister_dmabuf = handle_unregister-Keeps
    dispatch-Keeps queue_dmabuf = handle_queue_dmabuf-Keeps
    dispatch-Keeps complete_dmabuf = handle_complete_dmabuf-Keeps
    dispatch-Keeps flush = handle_flush-Keeps
    dispatch-Keeps close_session = handle_close-Keeps
    dispatch-Keeps create_session = ground arith
    dispatch-Keeps other = ground arith

-- A session `j` of the table stands in the answer's table as before.
unfoldable pub Untouched : {W : Type 0} (h : Host W) → ℕ → Engine → Option (Created h) → Type 0
Untouched h j e none = Unit {0}
Untouched h j e (some c) =
    (s : Session) → find_session j e.sessions ≡ some s → find_session j c.engine.sessions ≡ some s

module _ {W : Type 0} (h : Host W) (w : W) (e : Engine) (request reply : Message) (j : ℕ) where
  handle_session-Untouched :
      j ≢ request.header.session_id → Untouched h j e (handle_session h w e request reply)
  unfolding handle_session handled_by Untouched
  handle_session-Untouched n =
      elim (Option-cases (find_session request.header.session_id e.sessions)) [
        | inl p ↦ rw (p, Untouched) (λ s q. q)
        | inr (s, p) ↦
            elim (Bool-cases
              (not (is_idle s.pending) && not (is_complete_ahb (op_of request.header.opcode)))) [
                | inl b ↦ rw (p, b, Untouched) (λ s q. q)
                | inr b ↦
                    rw (p, b, Untouched)
                      (λ x q.
                        find-update_other request.header.session_id j
                          (dispatch h (op_of request.header.opcode) e.next_output_id w s request
                            reply).handled.session
                          e.sessions n
                          (ground (
                            arith,
                            dispatch-Keeps h w s request reply e.next_output_id
                                (op_of request.header.opcode),
                            find_first-passes (is_session request.header.session_id) e.sessions s p,
                          ))
                        ∙ q)
              ]
      ]

  opened-Untouched :
      (c : Config) (result : ℕ × Option ℕ × W)
      → length e.sessions ≤ 4
      → e.next_session_id < 4294967296
      → Untouched h j e (opened h e reply c result)
  unfolding opened Fresh Untouched new_session
  opened-Untouched c (status, handle, w') l m = elim (Bool-cases (status != status_ok)) [
    | inl q ↦ rw (q, Untouched) (λ s p. p)
    | inr q ↦ elim (Option-cases handle) [
      | inl n ↦ rw (q, n, Untouched) (λ s p. p)
      | inr (pointer, n) ↦ elim (Option-cases (registry_failure h c w')) [
        | inr (error, r) ↦ rw (q, n, r, Untouched) (λ s p. find-clear j e.sessions ∙ p)
        | inl r ↦ elim (Option-cases (allocate_session_id 6 e.next_session_id e.sessions)) [
          | inl a ↦ rw (q, n, r, a, Untouched) tt
          | inr (found, a) ↦
              rw (q, n, r, a, Untouched)
                (λ s p.
                  find-fill_other found.0 j (new_session h c pointer found.0) e.sessions s refl
                    (subst (Fresh e.sessions) a
                      (allocate_session_id-Fresh e.next_session_id e.sessions m l)).3
                    p)
        ]
      ]
    ]
  ]

  handle_create-Untouched :
      length e.sessions ≤ 4
      → e.next_session_id < 4294967296
      → Untouched h j e (handle_create h w e request reply)
  unfolding handle_create Untouched
  handle_create-Untouched l m = ground (
    arith,
    opened-Untouched (read_config request.payload)
        (h.backend.create w (read_config request.payload)) l m,
  )

  -- For a table of at most four sessions and a session counter below 2^32: a request, whatever its
  -- opcode, creation included, leaves every session of the table but the one whose id the request
  -- carries as it was.
  pub engine_handle-Untouched :
      length e.sessions ≤ 4
      → e.next_session_id < 4294967296
      → j ≢ request.header.session_id
      → Untouched h j e (engine_handle h w e request reply)
  unfolding engine_handle Untouched
  engine_handle-Untouched l m n =
      ground (arith, handle_create-Untouched l m, handle_session-Untouched n)
