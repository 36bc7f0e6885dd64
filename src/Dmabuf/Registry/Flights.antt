-- ===== src/Dmabuf/Registry/Flights.antt =====
-- `advc_dmabuf_registry_unregister`, `_begin` and `_finish` of
-- src/video_bridge/src/dmabuf_ingress.c against the abstract map of Refine.
use lin_de_x.Base.{
  ◌||◌, ◌&&◌, not, ap, is_ok, ℕ, ◌+◌, ◌-◌, ◌<◌, ◌==◌, ◌&&◌, Bool, true, false, Option, none, some,
  if◌then◌else◌, ◌≡◌, ◌≢◌, refl, arith, sym, ◌∙◌, Result, ok, err, einval, enoent, ebusy, ealready,
  Bool-cases, Errno, inl, ltb, inr, leb, is_some, eagain,
}
use lin_de_x.Kernel.{Kernel}
use lin_de_x.Dmabuf.Registry.Counts.{
  length-modify, find-modify_other, find-modify, find_entry-holds, find-modify_gone,
  Distinct-modify, count_used-modify, count_flying-modify, Grounded-modify,
}
use lin_de_x.Dmabuf.Registry.Refine.{IsValid, status, flight}
use lin_de_x.Dmabuf.Registry.{
  Entry, Registry, find_entry, modify, holds, free_entry, max_inflight, unregister_found,
  registry_unregister, finish_found, registry_finish, Submission, Reply, started, begin_found,
  registry_begin, Job, refuse, Outcome, fails, returns, int64_max, is_sync_file,
}

-- The answers that the contract gives, from the state of the id.
abbrev pub unregister_answer : ℕ → Option Bool → Result (Unit {0})
unregister_answer id none = if id == 0 then err einval else err enoent
unregister_answer id (some true) = if id == 0 then err einval else err ebusy
unregister_answer id (some false) = if id == 0 then err einval else ok tt

abbrev pub finish_answer : ℕ → Option Bool → Result (Unit {0})
finish_answer id none = if id == 0 then err einval else err enoent
finish_answer id (some true) = if id == 0 then err einval else ok tt
finish_answer id (some false) = if id == 0 then err einval else err ealready

abbrev land : Entry → Entry
land e = record e { in_flight = false }

abbrev fly : Entry → Entry
fly e = record e { in_flight = true }

module _ (r : Registry) (id : ℕ) (e : Entry) (v : IsValid r)
    (found : find_entry id r.entries ≡ some e) where
  freed-IsValid :
      e.in_flight ≡ false
      → IsValid (record r {
        entries = modify id (λ _. free_entry) r.entries;
        registered_count = r.registered_count - 1;
      })
  freed-IsValid g = record {
    size = ground (arith, v.size, length-modify id (λ _. free_entry) r.entries);
    registered = ground (
      arith,
      v.registered,
      count_used-modify id (λ _. free_entry) r.entries e found,
      find_entry-holds id r.entries e found,
    );
    inflight =
        ground (arith, v.inflight, count_flying-modify id (λ _. free_entry) r.entries e found);
    bound = v.bound;
    distinct = Distinct-modify id (λ _. free_entry) r.entries (λ x j h. cc) v.distinct;
    grounded = Grounded-modify id (λ _. free_entry) r.entries (λ x h f. cc) v.grounded;
  }

  landed-IsValid :
      e.in_flight ≡ true
      → IsValid
          (record r { entries = modify id land r.entries; inflight_count = r.inflight_count - 1 })
  landed-IsValid g = record {
    size = ground (arith, v.size, length-modify id land r.entries);
    registered = ground (arith, v.registered, count_used-modify id land r.entries e found);
    inflight = ground (arith, v.inflight, count_flying-modify id land r.entries e found);
    bound = ground (arith, v.bound);
    distinct = Distinct-modify id land r.entries (λ x j h. h) v.distinct;
    grounded = Grounded-modify id land r.entries (λ x h f. cc) v.grounded;
  }

  flown-IsValid :
      e.in_flight ≡ false
      → r.inflight_count < max_inflight
      → IsValid
          (record r { entries = modify id fly r.entries; inflight_count = r.inflight_count + 1 })
  flown-IsValid g room = record {
    size = ground (arith, v.size, length-modify id fly r.entries);
    registered = ground (arith, v.registered, count_used-modify id fly r.entries e found);
    inflight = ground (arith, v.inflight, count_flying-modify id fly r.entries e found);
    bound = ground (arith);
    distinct = Distinct-modify id fly r.entries (λ x j h. h) v.distinct;
    grounded = Grounded-modify id fly r.entries (λ x h f. ground arith) v.grounded;
  }

-- What an operation on `id` may do to the map: nothing, or on success the new state of `id`.
abbrev pub Changes : {A : Type 0} → Registry → ℕ → Option Bool → Result A → Registry → Type 0
Changes r id new result r' =
    (j : ℕ) → status r' j ≡ (if is_ok result && j == id then new else status r j)

status-modify :
    (r r' : Registry) (id j : ℕ) (f : Entry → Entry) (e : Entry)
    → find_entry id r.entries ≡ some e
    → ((e : Entry) (j : ℕ) → holds j (f e) ≡ holds j e)
    → r'.entries ≡ modify id f r.entries
    → status r' j ≡ (if j == id then some (f e).in_flight else status r j)
unfolding status
status-modify r r' id j f e p same q = rw q (
    ground (
      arith,
      find-modify id f r.entries e (λ x h. same x id ∙ h) p,
      find-modify_other id j f r.entries,
      λ (n : j ≢ id). find-modify_other id j f r.entries n (λ x h. sym (same x j) ∙ h),
    ))

module _ {W : Type 0} (k : Kernel W) (w : W) (r : Registry) (id : ℕ) (v : IsValid r) where
  freed_lem :
      (e : Entry) (b : Bool)
      → find_entry id r.entries ≡ some e
      → e.in_flight ≡ b
      → (id == 0) ≡ false
      → let reply = unregister_found k w r id (some e) in
        (reply.result ≡ unregister_answer id (some b))
        × Changes r id none reply.result reply.registry
        × IsValid reply.registry
  unfolding unregister_found status
  freed_lem e true p f nz = rw (f, nz) (refl, λ j. refl, v)
  freed_lem e false p f nz =
      rw (f, nz)
        (
          refl,
          λ j. ground (
            arith,
            find-modify_gone id (λ _. free_entry) r.entries (λ _. refl) v.distinct,
            λ (n : j ≢ id). find-modify_other id j (λ _. free_entry) r.entries n (λ x h. cc),
          ),
          freed-IsValid r id e v p f,
        )

  found_lem :
      (o : Option Entry)
      → find_entry id r.entries ≡ o
      → (id == 0) ≡ false
      → let reply = unregister_found k w r id o in
        (reply.result ≡ unregister_answer id (flight o))
        × Changes r id none reply.result reply.registry
        × IsValid reply.registry
  unfolding unregister_found
  found_lem none p nz = rw nz (refl, λ j. refl, v)
  found_lem (some e) p nz = freed_lem e e.in_flight p refl nz

  -- On a valid registry, unregistering answers by the state of the id: EINVAL for zero, ENOENT,
  -- EBUSY in flight, or success. On success the id is gone; no other id changes, and a failure
  -- changes none. The registry stays valid.
  pub registry_unregister_lem :
      let reply = registry_unregister k w r id in
      (reply.result ≡ unregister_answer id (status r id))
      × Changes r id none reply.result reply.registry
      × IsValid reply.registry
  unfolding registry_unregister
  registry_unregister_lem = elim (Bool-cases (id == 0)) [
    | inl z ↦ rw z (zero_answer z (status r id), λ j. refl, v)
    | inr nz ↦ rw nz (unfold status in found_lem (find_entry id r.entries) refl nz)
  ]
    where
      zero_answer : (id == 0) ≡ true → (o : Option Bool) → err einval ≡ unregister_answer id o
      zero_answer z none = rw z
      zero_answer z (some true) = rw z
      zero_answer z (some false) = rw z

module _ (r : Registry) (id : ℕ) (v : IsValid r) where
  landed_lem :
      (e : Entry) (b : Bool)
      → find_entry id r.entries ≡ some e
      → e.in_flight ≡ b
      → (id == 0) ≡ false
      → let reply = finish_found r id (some e) in
        (reply.0 ≡ finish_answer id (some b))
        × Changes r id (some false) reply.0 reply.1
        × IsValid reply.1
  unfolding finish_found
  landed_lem e false p f nz = rw (f, nz) (refl, λ j. refl, v)
  landed_lem e true p f nz =
      rw (f, nz)
        (refl, λ j. status-modify r _ id j land e p (λ x i. refl) refl, landed-IsValid r id e v p f)

  finish_found_lem :
      (o : Option Entry)
      → find_entry id r.entries ≡ o
      → (id == 0) ≡ false
      → let reply = finish_found r id o in
        (reply.0 ≡ finish_answer id (flight o))
        × Changes r id (some false) reply.0 reply.1
        × IsValid reply.1
  unfolding finish_found
  finish_found_lem none p nz = rw nz (refl, λ j. refl, v)
  finish_found_lem (some e) p nz = landed_lem e e.in_flight p refl nz

  -- On a valid registry, finishing answers by the state of the id: EINVAL for zero, ENOENT,
  -- EALREADY if not in flight, or success. On success the id is not in flight; no other id changes,
  -- and a failure changes none. The registry stays valid.
  pub registry_finish_lem :
      let reply = registry_finish r id in
      (reply.0 ≡ finish_answer id (status r id))
      × Changes r id (some false) reply.0 reply.1
      × IsValid reply.1
  unfolding registry_finish
  registry_finish_lem = elim (Bool-cases (id == 0)) [
    | inl z ↦ rw z (zero_answer z (status r id), λ j. refl, v)
    | inr nz ↦ rw nz (unfold status in finish_found_lem (find_entry id r.entries) refl nz)
  ]
    where
      zero_answer : (id == 0) ≡ true → (o : Option Bool) → err einval ≡ finish_answer id o
      zero_answer z none = rw z
      zero_answer z (some true) = rw z
      zero_answer z (some false) = rw z

module _ {W : Type 0} (k : Kernel W) (w : W) (r : Registry) (s : Submission) (v : IsValid r) where
  -- What a submission leaves: on success its buffer flies, which it did not before.
  pub record Begun (reply : Reply W Job) : Type 0 where
    pub changes : Changes r s.buffer_id (some true) reply.result reply.registry
    pub valid : IsValid reply.registry
    pub grounded_before :
        is_ok reply.result ≡ true
        → (status r s.buffer_id ≡ some false) × (r.inflight_count < max_inflight)

  refuse-Begun : (e : Errno) → Begun (refuse e r w)
  refuse-Begun e = record { changes = λ j. refl; valid = v; grounded_before = λ h. cc }

  started-Begun :
      (e : Entry) (o : Outcome W (Option ℕ))
      → find_entry s.buffer_id r.entries ≡ some e
      → e.in_flight ≡ false
      → r.inflight_count < max_inflight
      → Begun (started k r s e o)
  unfolding started status
  started-Begun e (fails x w') p f room = record {
    changes = λ j. refl;
    valid = v;
    grounded_before = λ h. cc;
  }
  started-Begun e (returns fence w') p f room = record {
    changes = λ j.
        status-modify r
          (record r {
            entries = modify s.buffer_id fly r.entries;
            inflight_count = r.inflight_count + 1;
          })
          s.buffer_id j fly e p (λ x i. refl) refl;
    valid = flown-IsValid r s.buffer_id e v p f room;
    grounded_before = λ h. (rw p (ap some f), room);
  }

  begin_found-Begun :
      (o : Option Entry) → find_entry s.buffer_id r.entries ≡ o → Begun (begin_found k w r s o)
  unfolding begin_found
  begin_found-Begun none p = refuse-Begun enoent
  begin_found-Begun (some e) p = elim (Bool-cases e.in_flight) [
    | inl f ↦ simp f (refuse-Begun ebusy)
    | inr f ↦ simp f (elim (Bool-cases (leb max_inflight r.inflight_count)) [
      | inl full ↦ rw full (refuse-Begun eagain)
      | inr room ↦ rw room (started-Begun e _ p f (ground arith))
    ])
  ]

  -- On a valid registry: a submission that is accepted puts its buffer in flight, which was
  -- registered and not in flight, while fewer than four were; it changes no other id, and one that
  -- is refused changes none. The registry stays valid.
  pub registry_begin-Begun : Begun (registry_begin k w r s)
  unfolding registry_begin
  registry_begin-Begun =
      elim (Bool-cases (
        s.buffer_id == 0
        || ltb int64_max s.pts_ns
        || is_some s.acquire_fence && not (is_sync_file k w s.acquire_fence))) [
          | inl bad ↦ rw bad (refuse-Begun einval)
          | inr good ↦ rw good (begin_found-Begun (find_entry s.buffer_id r.entries) refl)
        ]
