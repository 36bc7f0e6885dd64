-- ===== src/Dmabuf/Registry.antt =====
-- struct advc_dmabuf_registry and its operations, `advc_dmabuf_registry_register`, `_unregister`,
-- `_begin`, `_finish` and `_destroy`. The table is a list of sixteen entries. A pointer to an entry
-- is the first entry that `find_entry` or the search for a free slot stops at; a write through it
-- is `modify` or `fill`. The format policy is the callback that the registry was created with.
pub mod Counts
pub mod Refine
pub mod Flights
pub mod Leaks
mod LeakExample
mod Examples
use lin_de_x.Base.{
  ℕ, zero, suc, ◌+◌, ◌-◌, ◌*◌, ◌^◌, ◌==◌, ◌!=◌, ltb, leb, ◌&&◌, ◌||◌, not, Bool, true, false,
  Option, none, some, is_some, List, [], ◌∷◌, ◌++◌, if◌then◌else◌, get_or, replicate, Result, ok,
  err, Errno, einval, eexist, enospc, enotsup, eio, enoent, ebusy, eagain, ealready, map,
}
use lin_de_x.Kernel.{Kernel, Outcome, returns, fails, close_fd, dup_fd}
use lin_de_x.Dmabuf.Descriptor.{
  Object, Plane, Descriptor, Crop, Color, no_object, no_plane, descriptor_validate,
}
use lin_de_x.Dmabuf.Requests.{Submission, int64_max, is_sync_file}

abbrev pub max_registered : ℕ
max_registered = 16

abbrev pub max_inflight : ℕ
max_inflight = 4

pub record Entry : Type 0 where
  pub descriptor : Descriptor
  pub in_flight : Bool
  pub in_use : Bool

pub record Registry : Type 0 where
  pub entries : List Entry
  pub registered_count : ℕ
  pub inflight_count : ℕ

pub record Job : Type 0 where
  pub buffer_id : ℕ
  pub pts_ns : ℕ
  pub acquire_fence : Option ℕ
  pub descriptor : Descriptor

-- The callback's answer: positive, zero, or negative with errno, if it set one.
pub data Verdict : Type 0 where
  allowed refused : Verdict
  failed : Option Errno → Verdict

-- `memset(entry, 0, sizeof(*entry))`
abbrev pub blank : Descriptor
blank = record {
  buffer_id = 0;
  width = 0;
  height = 0;
  drm_fourcc = 0;
  explicit_flags = 0;
  drm_modifier = 0;
  crop = record { left = 0; top = 0; width = 0; height = 0 };
  object_count = 0;
  plane_count = 0;
  color = record {
    primaries = 0;
    transfer = 0;
    matrix = 0;
    range = 0;
    chroma_horizontal = 0;
    chroma_vertical = 0;
  };
  objects = replicate 4 no_object;
  planes = replicate 4 no_plane;
}

abbrev pub free_entry : Entry
free_entry = record { descriptor = blank; in_flight = false; in_use = false }

unfoldable pub registry_create : Registry
registry_create = record {
  entries = replicate max_registered free_entry;
  registered_count = 0;
  inflight_count = 0;
}

abbrev pub holds : ℕ → Entry → Bool
holds id e = e.in_use && e.descriptor.buffer_id == id

unfoldable pub find_entry : ℕ → List Entry → Option Entry
find_entry id [] = none
find_entry id (e ∷ es) = if holds id e then some e else find_entry id es

-- A write through the pointer of `find_entry`.
unfoldable pub modify : ℕ → (Entry → Entry) → List Entry → List Entry
modify id f [] = []
modify id f (e ∷ es) = if holds id e then f e ∷ es else e ∷ modify id f es

unfoldable pub has_free : List Entry → Bool
has_free [] = false
has_free (e ∷ es) = not e.in_use || has_free es

-- A write to the first free entry.
unfoldable pub fill : Entry → List Entry → List Entry
fill new [] = []
fill new (e ∷ es) = if e.in_use then e ∷ fill new es else new ∷ es

abbrev pub without_fd : Object → Object
without_fd o = record { fd = none; size = o.size }

-- What a call on the registry leaves.
pub record Reply (W A : Type 0) : Type 0 where
  pub result : Result A
  pub registry : Registry
  pub world : W

abbrev pub refuse : {W A : Type 0} → Errno → Registry → W → Reply W A
refuse e r w = record { result = err e; registry = r; world = w }

abbrev pub prepend : {W : Type 0} → ℕ → ℕ → Outcome W (List Object) → Outcome W (List Object)
prepend fd size (returns os w) = returns (record { fd = some fd; size = size } ∷ os) w
prepend fd size (fails e w) = fails e w

abbrev pub same_fd : Option ℕ → Option ℕ → Bool
same_fd none none = true
same_fd (some a) (some b) = a == b
same_fd _ _ = false

abbrev pub stands_in : Option ℕ → List (Option ℕ) → Bool
stands_in fd [] = false
stands_in fd (x ∷ xs) = same_fd x fd || stands_in fd xs

module _ {W : Type 0} (k : Kernel W) where
  -- `close_descriptor`: every declared object that has a descriptor is closed.
  unfoldable pub close_objects : W → ℕ → List Object → W
  close_objects w zero os = w
  close_objects w (suc count) [] = w
  close_objects w (suc count) (o ∷ os) = close_objects (close_fd k w o.fd) count os

  -- The loop of `advc_dmabuf_descriptor_close`: a descriptor that stood earlier is skipped.
  unfoldable pub close_distinct : W → List (Option ℕ) → ℕ → List Object → W
  close_distinct w seen zero os = w
  close_distinct w seen (suc count) [] = w
  close_distinct w seen (suc count) (o ∷ os) =
      close_distinct (if stands_in o.fd seen then w else close_fd k w o.fd) (o.fd ∷ seen) count os

  -- `advc_dmabuf_descriptor_close` closes at most four objects.
  unfoldable pub descriptor_close : W → Descriptor → W
  descriptor_close w d =
      close_distinct w [] (if ltb 4 d.object_count then 4 else d.object_count) d.objects

  unfoldable pub destroy_entries : W → List Entry → W
  destroy_entries w [] = w
  destroy_entries w (e ∷ es) =
      destroy_entries
        (if e.in_use then close_objects w e.descriptor.object_count e.descriptor.objects else w) es

  unfoldable pub registry_destroy : W → Registry → W
  registry_destroy w r = destroy_entries w r.entries

  unfoldable pub close_all : W → List ℕ → W
  close_all w [] = w
  close_all w (fd ∷ fds) = close_all (k.close w fd) fds

  -- The loop that duplicates the descriptors into the new entry, `done` being the copies so far. If
  -- a copy fails, those are closed.
  unfoldable pub dup_objects : W → List ℕ → ℕ → List Object → Outcome W (List Object)
  dup_objects w done zero os = returns (map without_fd os) w
  dup_objects w done (suc count) [] = returns [] w
  dup_objects w done (suc count) (o ∷ os) = elim (dup_fd k w o.fd) [
    | returns new w' ↦ prepend new o.size (dup_objects w' (done ++ new ∷ []) count os)
    | fails e w' ↦ fails e (close_all w' done)
  ]

  unfoldable pub stored : Registry → Descriptor → Outcome W (List Object) → Reply W (Unit {0})
  stored r d (returns os w) = record {
    result = ok tt;
    registry = record {
      entries =
          fill (record { descriptor = record d { objects = os }; in_flight = false; in_use = true })
            r.entries;
      registered_count = r.registered_count + 1;
      inflight_count = r.inflight_count;
    };
    world = w;
  }
  stored r d (fails e w) = record {
    result = err e;
    registry = record r { entries = fill free_entry r.entries };
    world = w;
  }

  unfoldable pub store : Verdict → W → Registry → Descriptor → Reply W (Unit {0})
  store allowed w r d =
      if has_free r.entries
      then stored r d (dup_objects w [] d.object_count d.objects)
      else refuse enospc r w
  store refused w r d = refuse enotsup r w
  store (failed none) w r d = refuse eio r w
  store (failed (some e)) w r d = refuse e r w

  -- The policy callback is consulted last.
  unfoldable pub registry_register :
      (W → Descriptor → Verdict) → W → Registry → Descriptor → Reply W (Unit {0})
  registry_register policy w r d = elim (descriptor_validate k w d) [
    | err e ↦ refuse e r w
    | ok _ ↦
        if is_some (find_entry d.buffer_id r.entries)
        then refuse eexist r w
        else if leb max_registered r.registered_count
        then refuse enospc r w
        else store (policy w d) w r d
  ]

  unfoldable pub unregister_found : W → Registry → ℕ → Option Entry → Reply W (Unit {0})
  unregister_found w r id none = refuse enoent r w
  unregister_found w r id (some e) = if e.in_flight then refuse ebusy r w else record {
    result = ok tt;
    registry = record r {
      entries = modify id (λ _. free_entry) r.entries;
      registered_count = r.registered_count - 1;
    };
    world = close_objects w e.descriptor.object_count e.descriptor.objects;
  }

  unfoldable pub registry_unregister : W → Registry → ℕ → Reply W (Unit {0})
  registry_unregister w r id =
      if id == 0 then refuse einval r w else unregister_found w r id (find_entry id r.entries)

  -- The fence of a submission is duplicated; without one nothing is.
  unfoldable pub dup_fence : W → Option ℕ → Outcome W (Option ℕ)
  dup_fence w none = returns none w
  dup_fence w (some fd) = elim (k.dup w fd) [
    | returns new w' ↦ returns (some new) w'
    | fails e w' ↦ fails e w'
  ]

  unfoldable pub started : Registry → Submission → Entry → Outcome W (Option ℕ) → Reply W Job
  started r s e (fails x w) = refuse x r w
  started r s e (returns fence w) = record {
    result = ok (record {
      buffer_id = s.buffer_id;
      pts_ns = s.pts_ns;
      acquire_fence = fence;
      descriptor = e.descriptor;
    });
    registry = record r {
      entries = modify s.buffer_id (λ x. record x { in_flight = true }) r.entries;
      inflight_count = r.inflight_count + 1;
    };
    world = w;
  }

  unfoldable pub begin_found : W → Registry → Submission → Option Entry → Reply W Job
  begin_found w r s none = refuse enoent r w
  begin_found w r s (some e) =
      if e.in_flight
      then refuse ebusy r w
      else if leb max_inflight r.inflight_count
      then refuse eagain r w
      else started r s e (dup_fence w s.acquire_fence)

  unfoldable pub registry_begin : W → Registry → Submission → Reply W Job
  registry_begin w r s =
      if s.buffer_id == 0
        || ltb int64_max s.pts_ns
        || is_some s.acquire_fence && not (is_sync_file k w s.acquire_fence)
      then refuse einval r w
      else begin_found w r s (find_entry s.buffer_id r.entries)

unfoldable pub finish_found : Registry → ℕ → Option Entry → Result (Unit {0}) × Registry
finish_found r id none = (err enoent, r)
finish_found r id (some e) =
    if e.in_flight
    then (
      ok tt,
      record r {
        entries = modify id (λ x. record x { in_flight = false }) r.entries;
        inflight_count = r.inflight_count - 1;
      },
    )
    else (err ealready, r)

unfoldable pub registry_finish : Registry → ℕ → Result (Unit {0}) × Registry
registry_finish r id =
    if id == 0 then (err einval, r) else finish_found r id (find_entry id r.entries)
