-- ===== src/Session/Unique.antt =====
-- The sessions of the engine of src/video_bridge/src/session_engine.c over any number of requests: their
-- ids stay apart.
use lin_de_x.Base.{
  bit_and, sym, ◌∙◌, find_first-passes, true, arith, none, some, Option, length, ℕ, ◌<◌, ◌≡◌, ◌≢◌,
  refl, subst, Bool-cases, Option-cases, inl, inr, not, ◌&&◌, ◌==◌, List, [], ◌∷◌, false,
  find_first, update_first, ◌!=◌, length-update_first, sym,
}
use lin_de_x.Session.World.{Host, Config}
use lin_de_x.Session.State.{
  free_session, Engine, Message, Session, Pending, pending_none, await_handle, pending_complete,
  find_session, is_session, is_free, status_ok, allocate_session_id, engine_create,
}
use lin_de_x.Session.Create.{
  Created, handle_create, opened, new_session, read_config, registry_failure,
}
use lin_de_x.Session.Ahb.{received, flag_ahb_follows, is_idle, receive_ahb, receive_in}
use lin_de_x.Session.Ids.{Fresh, allocate_session_id-Fresh}
use lin_de_x.Session.Others.{find-clear, Keeps, dispatch-Keeps, find-update_other}
use lin_de_x.Session.Valid.{Answered, engine_handle-Answered}
use lin_de_x.Session.Engine.{
  Op, dispatch, engine_handle, handle_session, handled_by, is_complete_ahb, op_of, after_reply,
  after_reply_op, send_ahb, send_slot, queue_ahb, transfer_ahb, queue_input, dequeue_output,
  release_output, flush, close_session, create_session, complete_ahb, register_dmabuf,
  unregister_dmabuf, queue_dmabuf, complete_dmabuf, transfer_prime, other,
}

-- No session in use has the id of a later one in use.
unfoldable pub Unique : List Session → Type 0
Unique [] = Unit
Unique (s ∷ ss) = (s.in_use ≡ true → find_session s.id ss ≡ none) × Unique ss

update-Unique :
    (id : ℕ) (new : Session) (ss : List Session)
    → (new.in_use ≡ true → new.id ≡ id)
    → Unique ss
    → Unique (update_first (is_session id) (λ _. new) ss)
unfolding Unique update_first
update-Unique id new [] same u = tt
update-Unique id new (s ∷ ss) same (apart, u) = elim (Bool-cases (is_session id s)) [
  | inl e ↦
      let same_id : s.id ≡ id = ground (arith, e) in
      let used : s.in_use ≡ true = ground (arith, e) in
      rw e (
        λ used'.
            subst (λ (n : ℕ). find_session n ss ≡ none) (same_id ∙ sym (same used')) (apart used),
        u,
      )
  | inr e ↦ rw e (
    λ used.
        find-update_other id s.id new ss (other used e) (ground (arith, other used e, same))
        ∙ apart used,
    update-Unique id new ss same u,
  )
]
  where
    other : s.in_use ≡ true → is_session id s ≡ false → s.id ≢ id
    other used e = ground arith

find-fill_none :
    (id j : ℕ) (new : Session) (ss : List Session)
    → new.id ≡ id
    → j ≢ id
    → find_session j ss ≡ none
    → find_session j (update_first is_free (λ _. new) ss) ≡ none
unfolding find_first update_first
find-fill_none id j new [] same n f = refl
find-fill_none id j new (s ∷ ss) same n f = ground (arith, find-fill_none id j new ss same n)

fill-Unique :
    (id : ℕ) (new : Session) (ss : List Session)
    → new.id ≡ id
    → find_session id ss ≡ none
    → Unique ss
    → Unique (update_first is_free (λ _. new) ss)
unfolding Unique update_first find_first
fill-Unique id new [] same f u = tt
fill-Unique id new (s ∷ ss) same f (apart, u) =
    let later : find_session id ss ≡ none = ground (arith, f) in
    elim (Bool-cases (is_free s)) [
      | inl e ↦ rw e (λ used. subst (λ (n : ℕ). find_session n ss ≡ none) (sym same) later, u)
      | inr e ↦ rw e (
        λ used. find-fill_none id s.id new ss same (differs e) (apart used),
        fill-Unique id new ss same later u,
      )
    ]
  where
    differs : is_free s ≡ false → s.id ≢ id
    differs e = ground (arith, f)

clear-Unique :
    (ss : List Session) → Unique ss → Unique (update_first is_free (λ _. free_session) ss)
unfolding Unique update_first
clear-Unique [] u = tt
clear-Unique (s ∷ ss) (apart, u) = elim (Bool-cases (is_free s)) [
  | inl e ↦ rw e (λ used. absurd cc, u)
  | inr e ↦ rw e (λ used. find-clear s.id ss ∙ apart used, clear-Unique ss u)
]

-- The table of an engine: four slots, ids apart, and a counter of 32 bits.
pub record IsSound (e : Engine) : Type 0 where
  pub slots : length e.sessions ≡ 4
  pub counter : e.next_session_id < 4294967296
  pub ids : Unique e.sessions

-- What an answer leaves of the ids.
unfoldable pub UniqueAfter : {W : Type 0} (h : Host W) → Option (Created h) → Type 0
UniqueAfter h none = Unit {0}
UniqueAfter h (some c) = Unique c.engine.sessions

module _ {W : Type 0} (h : Host W) where
  opened-Unique :
      (e : Engine) (reply : Message) (c : Config) (result : ℕ × Option ℕ × W)
      → IsSound e
      → UniqueAfter h (opened h e reply c result)
  unfolding opened Fresh UniqueAfter new_session
  opened-Unique e reply c (status, handle, w) sound = elim (Bool-cases (status != status_ok)) [
    | inl q ↦ rw (q, UniqueAfter) sound.ids
    | inr q ↦ elim (Option-cases handle) [
      | inl n ↦ rw (q, n, UniqueAfter) sound.ids
      | inr (pointer, n) ↦ elim (Option-cases (registry_failure h c w)) [
        | inr (error, r) ↦ rw (q, n, r, UniqueAfter) (clear-Unique e.sessions sound.ids)
        | inl r ↦ elim (Option-cases (allocate_session_id 6 e.next_session_id e.sessions)) [
          | inl a ↦ rw (q, n, r, a, UniqueAfter) tt
          | inr (found, a) ↦
              rw (q, n, r, a, UniqueAfter)
                (fill-Unique found.0 (new_session h c pointer found.0) e.sessions refl
                  (subst (Fresh e.sessions) a (
                    allocate_session_id-Fresh e.next_session_id e.sessions sound.counter
                      (omega (arith, sound.slots)))).3
                  sound.ids)
        ]
      ]
    ]
  ]

  handle_create-Unique :
      (w : W) (e : Engine) (request reply : Message)
      → IsSound e
      → UniqueAfter h (handle_create h w e request reply)
  unfolding handle_create UniqueAfter
  handle_create-Unique w e request reply sound = ground (
    arith,
    sound.ids,
    opened-Unique e reply (read_config request.payload)
        (h.backend.create w (read_config request.payload)) sound,
  )

  handle_session-Unique :
      (w : W) (e : Engine) (request reply : Message)
      → IsSound e
      → UniqueAfter h (handle_session h w e request reply)
  unfolding handle_session handled_by UniqueAfter
  handle_session-Unique w e request reply sound =
      let id = request.header.session_id in
      elim (Option-cases (find_session id e.sessions)) [
        | inl p ↦ rw (p, UniqueAfter) sound.ids
        | inr (s, p) ↦
            elim (Bool-cases
              (not (is_idle s.pending) && not (is_complete_ahb (op_of request.header.opcode)))) [
                | inl b ↦ rw (p, b, UniqueAfter) sound.ids
                | inr b ↦
                    rw (p, b, UniqueAfter)
                      (update-Unique id
                        (dispatch h (op_of request.header.opcode) e.next_output_id w s request
                          reply).handled.session
                        e.sessions
                        (λ used. ground (
                          arith,
                          used,
                          dispatch-Keeps h w s request reply e.next_output_id
                              (op_of request.header.opcode),
                          find_first-passes (is_session id) e.sessions s p,
                        ))
                        sound.ids)
              ]
      ]

  engine_handle-Unique :
      (w : W) (e : Engine) (request reply : Message)
      → IsSound e
      → UniqueAfter h (engine_handle h w e request reply)
  unfolding engine_handle UniqueAfter
  engine_handle-Unique w e request reply sound = ground (
    arith,
    sound.ids,
    handle_create-Unique w e request reply sound,
    handle_session-Unique w e request reply sound,
  )

  itself-Keeps : (s : Session) → Keeps s s
  itself-Keeps s = ground arith

  receive_in-Keeps :
      (p : Pending) (w : W) (socket : ℕ) (s : Session) → Keeps s (receive_in h p w socket s).1
  unfolding receive_in received
  receive_in-Keeps pending_none w socket s = itself-Keeps s
  receive_in-Keeps await_handle w socket s = ground arith
  receive_in-Keeps pending_complete w socket s = itself-Keeps s

  send_ahb-Keeps :
      (w : W) (socket : ℕ) (s : Session) (request : Message)
      → Keeps s (send_ahb h w socket s request).1
  unfolding send_ahb send_slot
  send_ahb-Keeps w socket s request = ground arith

  -- What follows a reply keeps the session's id and its use.
  after_reply_op-Keeps :
      (op : Op) (w : W) (socket : ℕ) (s : Session) (request : Message)
      → Keeps s (after_reply_op h op w socket s request).1
  unfolding after_reply_op receive_ahb
  after_reply_op-Keeps queue_ahb w socket s request = receive_in-Keeps s.pending w socket s
  after_reply_op-Keeps transfer_ahb w socket s request = send_ahb-Keeps w socket s request
  after_reply_op-Keeps queue_input w socket s request = itself-Keeps s
  after_reply_op-Keeps dequeue_output w socket s request = itself-Keeps s
  after_reply_op-Keeps release_output w socket s request = itself-Keeps s
  after_reply_op-Keeps flush w socket s request = itself-Keeps s
  after_reply_op-Keeps close_session w socket s request = itself-Keeps s
  after_reply_op-Keeps create_session w socket s request = itself-Keeps s
  after_reply_op-Keeps complete_ahb w socket s request = itself-Keeps s
  after_reply_op-Keeps register_dmabuf w socket s request = itself-Keeps s
  after_reply_op-Keeps unregister_dmabuf w socket s request = itself-Keeps s
  after_reply_op-Keeps queue_dmabuf w socket s request = itself-Keeps s
  after_reply_op-Keeps complete_dmabuf w socket s request = itself-Keeps s
  after_reply_op-Keeps transfer_prime w socket s request = itself-Keeps s
  after_reply_op-Keeps other w socket s request = itself-Keeps s

  pub after_reply-IsSound :
      (w : W) (socket : ℕ) (e : Engine) (request reply : Message)
      → IsSound e
      → IsSound (after_reply h w socket e request reply).1
  unfolding after_reply
  after_reply-IsSound w socket e request reply sound =
      let id = request.header.session_id in
      elim (Bool-cases (bit_and reply.header.flags flag_ahb_follows == 0)) [
        | inl a ↦ rw a sound
        | inr a ↦ elim (Option-cases (find_session id e.sessions)) [
          | inl p ↦ rw (a, p) sound
          | inr (s, p) ↦
              let new = (after_reply_op h (op_of request.header.opcode) w socket s request).1 in
              rw (a, p)
                record {
                  slots = length-update_first (is_session id) (λ _. new) e.sessions ∙ sound.slots;
                  counter = sound.counter;
                  ids =
                      update-Unique id new e.sessions
                        (λ used. ground (
                          arith,
                          used,
                          after_reply_op-Keeps (op_of request.header.opcode) w socket s request,
                          find_first-passes (is_session id) e.sessions s p,
                        ))
                        sound.ids;
                }
        ]
      ]

-- A step of the engine and the world: a request that is answered, what follows a reply, or something else
-- that happens in the world.
pub data Step {W : Type 0} (h : Host W) : W × Engine → W × Engine → Type 0 where
  answers :
      (w : W) (e : Engine) (request reply : Message) (c : Created h)
      → engine_handle h w e request reply ≡ some c
      → Step h (w, e) (c.world, c.engine)
  follows :
      (w : W) (e : Engine) (socket : ℕ) (request reply : Message)
      → Step h
          (w, e)
          ((after_reply h w socket e request reply).2, (after_reply h w socket e request reply).1)
  elsewhere : (w w' : W) (e : Engine) → Step h (w, e) (w', e)

pub data Reaches {W : Type 0} (h : Host W) : W × Engine → Type 0 where
  begins : (w : W) → Reaches h (w, engine_create)
  continues : (x y : W × Engine) → Reaches h x → Step h x y → Reaches h y

pub created-IsSound : IsSound engine_create
unfolding engine_create Unique find_first
created-IsSound = record {
  slots = refl;
  counter = omega arith;
  ids = ((λ _. refl), ((λ _. refl), ((λ _. refl), ((λ _. refl), tt))));
}

module _ {W : Type 0} (h : Host W) where
  answer-IsSound :
      (e : Engine) (c : Created h)
      → IsSound e
      → Answered h e (some c)
      → UniqueAfter h (some c)
      → IsSound c.engine
  unfolding Answered UniqueAfter
  answer-IsSound e c sound (slots, counter) unique = record {
    slots = slots ∙ sound.slots;
    counter = counter;
    ids = unique;
  }

  pub Step-IsSound : (x y : W × Engine) → Step h x y → IsSound x.1 → IsSound y.1
  Step-IsSound x y (answers w e request reply c m) sound =
      let answered =
        rw m at
          (engine_handle-Answered h w e request reply (omega (arith, sound.slots)) sound.counter) in
      let unique = rw m at (engine_handle-Unique h w e request reply sound) in
      answer-IsSound e c sound answered unique
  Step-IsSound x y (follows w e socket request reply) sound =
      after_reply-IsSound h w socket e request reply sound
  Step-IsSound x y (elsewhere w w' e) sound = sound

  pub Reaches-IsSound : (x : W × Engine) → Reaches h x → IsSound x.1
  Reaches-IsSound x (begins w) = created-IsSound
  Reaches-IsSound x (continues y z r step) = Step-IsSound y z step (Reaches-IsSound y r)

  -- In every state that a created engine reaches by requests it answers, by what follows a reply
  -- and by changes of the world alone, the engine answers any request, and leaves four slots, a
  -- 32-bit counter of session ids and session ids that no two sessions share.
  pub Reaches-Answered :
      (w : W) (e : Engine) (request reply : Message)
      → Reaches h (w, e)
      → (c : Created h) × (engine_handle h w e request reply ≡ some c) × IsSound c.engine
  unfolding Answered
  Reaches-Answered w e request reply r =
      let sound = Reaches-IsSound (w, e) r in
      let answered =
        engine_handle-Answered h w e request reply (omega (arith, sound.slots)) sound.counter in
      elim (Option-cases (engine_handle h w e request reply)) [
        | inl n ↦ absurd (rw n at answered)
        | inr (c, m) ↦
            (c, m, Step-IsSound (w, e) (c.world, c.engine) (answers w e request reply c m) sound)
      ]
