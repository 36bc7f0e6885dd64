-- ===== src/Dmabuf/Registry/Refine.antt =====
-- The registry against its contract: a finite map from the ids of registered buffers to whether
-- each is in flight, with at most sixteen entries, of which at most four fly.
use lin_de_x.Base.{
  Result-cases, is_ok, ℕ, ◌≤◌, ◌==◌, leb, ◌&&◌, Bool, true, false, Option, none, some, List, [],
  if◌then◌else◌, length, ◌≡◌, refl, arith, Bool-cases, Option-cases, inl, inr, Errno, eexist,
  enospc, enotsup, eio,
}
use lin_de_x.Kernel.{Kernel, Outcome, returns, fails}
use lin_de_x.Dmabuf.Descriptor.{Object, Descriptor, descriptor_validate}
use lin_de_x.Dmabuf.Registry.Counts.{
  count_used, count_flying, Distinct, Grounded, length-fill, count_used-fill, count_flying-fill,
  Grounded-fill, find-fill_other, find-fill, Distinct-fill,
}
use lin_de_x.Dmabuf.Registry.{
  Entry, Registry, Reply, Verdict, allowed, refused, failed, refuse, dup_objects, find_entry,
  has_free, free_entry, max_registered, max_inflight, registry_create, stored, store,
  registry_register,
}

-- The counters are the numbers of entries, ids are distinct, and the bounds of the protocol hold.
pub record IsValid (r : Registry) : Type 0 where
  pub size : length r.entries ≡ max_registered
  pub registered : r.registered_count ≡ count_used r.entries
  pub inflight : r.inflight_count ≡ count_flying r.entries
  pub bound : r.inflight_count ≤ max_inflight
  pub distinct : Distinct r.entries
  pub grounded : Grounded r.entries

abbrev pub flight : Option Entry → Option Bool
flight none = none
flight (some e) = some e.in_flight

-- The abstract map: `none` for an id that is not registered.
unfoldable pub status : Registry → ℕ → Option Bool
status r id = flight (find_entry id r.entries)

pub registry_create-IsValid : IsValid registry_create
unfolding registry_create count_used count_flying find_entry
registry_create-IsValid = ground arith

module _ {W : Type 0} (k : Kernel W) where
  stored-IsValid :
      (r : Registry) (d : Descriptor) (o : Outcome W (List Object))
      → has_free r.entries ≡ true
      → find_entry d.buffer_id r.entries ≡ none
      → IsValid r
      → IsValid (stored k r d o).registry
  unfolding stored
  stored-IsValid r d (returns os w) f n v =
      let new : Entry = record {
        descriptor = record d { objects = os };
        in_flight = false;
        in_use = true;
      } in
      record {
        size = ground (arith, length-fill new r.entries);
        registered = ground (arith, count_used-fill new r.entries);
        inflight = ground (arith, count_flying-fill new r.entries refl v.grounded);
        bound = v.bound;
        distinct = Distinct-fill new r.entries (λ _. n) v.distinct;
        grounded = Grounded-fill new r.entries refl v.grounded;
      }
  stored-IsValid r d (fails e w) f n v = record {
    size = ground (arith, length-fill free_entry r.entries);
    registered = ground (arith, count_used-fill free_entry r.entries);
    inflight = ground (arith, count_flying-fill free_entry r.entries refl v.grounded);
    bound = v.bound;
    distinct = Distinct-fill free_entry r.entries (λ u. cc) v.distinct;
    grounded = Grounded-fill free_entry r.entries refl v.grounded;
  }

  module _ (policy : W → Descriptor → Verdict) (w : W) (r : Registry) (d : Descriptor) where
    store_cases {ℓ} :
        (P : Reply W (Unit {0}) → Type ℓ) (a : Verdict)
        → ((e : Errno) → P (refuse e r w))
        → (has_free r.entries ≡ true
            → P (stored k r d (dup_objects k w [] d.object_count d.objects)))
        → P (store k a w r d)
    unfolding store
    store_cases P allowed refusal stores = elim (Bool-cases (has_free r.entries)) [
      | inl f ↦ rw f (stores f)
      | inr f ↦ rw f (refusal enospc)
    ]
    store_cases P refused refusal stores = refusal enotsup
    store_cases P (failed none) refusal stores = refusal eio
    store_cases P (failed (some e)) refusal stores = refusal e

    -- A registration is refused with the table untouched, or reaches the copies of its descriptors.
    pub register_cases {ℓ} :
        (P : Reply W (Unit {0}) → Type ℓ)
        → ((e : Errno) → P (refuse e r w))
        → (find_entry d.buffer_id r.entries ≡ none
            → has_free r.entries ≡ true
            → P (stored k r d (dup_objects k w [] d.object_count d.objects)))
        → P (registry_register k policy w r d)
    unfolding registry_register
    register_cases P refusal stores = elim (Result-cases (descriptor_validate k w d)) [
      | inl (e, q) ↦ rw (q, registry_register) (refusal e)
      | inr (_, q) ↦
          rw (q, registry_register)
            (elim (Option-cases (find_entry d.buffer_id r.entries)) [
              | inr (x, p) ↦ rw p (refusal eexist)
              | inl p ↦ rw p (elim (Bool-cases (leb max_registered r.registered_count)) [
                | inl full ↦ rw full (refusal enospc)
                | inr room ↦ rw room (store_cases P (policy w d) refusal (stores p))
              ])
            ])
    ]

    -- Every registration, refused or not, keeps a valid registry valid.
    pub registry_register-IsValid : IsValid r → IsValid (registry_register k policy w r d).registry
    registry_register-IsValid v =
        register_cases (λ q. IsValid q.registry) (λ _. v) λ n f. stored-IsValid r d _ f n v

    stored-status :
        (j : ℕ) (o : Outcome W (List Object))
        → find_entry d.buffer_id r.entries ≡ none
        → has_free r.entries ≡ true
        → status (stored k r d o).registry j
          ≡ (if is_ok (stored k r d o).result && j == d.buffer_id then some false else status r j)
    unfolding stored status
    stored-status j (fails e w) n f = ground (arith, find-fill_other j free_entry r.entries refl)
    stored-status j (returns os w) n f =
        let new : Entry = record {
          descriptor = record d { objects = os };
          in_flight = false;
          in_use = true;
        } in
        ground (arith, find-fill_other j new r.entries, find-fill j new r.entries)

    -- A registration that succeeds adds its id, not in flight, and changes no other; one that fails
    -- changes no id.
    pub registry_register-status :
        (j : ℕ)
        → let reply = registry_register k policy w r d in
          status reply.registry j
          ≡ (if is_ok reply.result && j == d.buffer_id then some false else status r j)
    registry_register-status j =
        register_cases
          (λ q.
            status q.registry j
            ≡ (if is_ok q.result && j == d.buffer_id then some false else status r j))
          (λ _. refl) (stored-status j _)

    -- If a registration succeeds, its id was not registered before.
    pub registry_register-fresh :
        is_ok (registry_register k policy w r d).result ≡ true → status r d.buffer_id ≡ none
    unfolding status
    registry_register-fresh =
        register_cases
          (λ q. is_ok q.result ≡ true → flight (find_entry d.buffer_id r.entries) ≡ none)
          (λ _ h. cc) (λ n _ h. rw n)
