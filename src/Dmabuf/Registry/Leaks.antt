-- ===== src/Dmabuf/Registry/Leaks.antt =====
-- `advc_dmabuf_registry_register` of src/video_bridge/src/dmabuf_ingress.c and the descriptors of a
-- registration that fails.
use lin_de_x.Base.{
  ebadf, ℕ, zero, suc, ◌==◌, ◌||◌, Bool, true, false, Option, none, some, List, [], ◌∷◌, ◌++◌,
  if◌then◌else◌, is_ok, ◌≡◌, refl, arith, Errno, inl, inr, ap, ◌∙◌, ◌⊎◌,
}
use lin_de_x.Kernel.{Kernel, Outcome, returns, fails, Laws, dup_fd}
use lin_de_x.Dmabuf.Descriptor.{Descriptor, Object}
use lin_de_x.Dmabuf.Registry.{
  Registry, Verdict, close_all, dup_objects, stored, registry_register, prepend,
}
use lin_de_x.Dmabuf.Registry.Refine.{register_cases}

abbrev pub member : ℕ → List ℕ → Bool
member fd [] = false
member fd (x ∷ xs) = fd == x || member fd xs

member-append :
    (fd new : ℕ) (xs : List ℕ) → member fd (xs ++ new ∷ []) ≡ (member fd xs || fd == new)
member-append fd new [] = ground arith
member-append fd new (x ∷ xs) = ground (arith, member-append fd new xs)

pub Outcome-cases :
    {W A : Type 0} (o : Outcome W A)
    → ((a : A) × (w : W) × (o ≡ returns a w)) ⊎ ((e : Errno) × (w : W) × (o ≡ fails e w))
Outcome-cases (returns a w) = inl (a, w, refl)
Outcome-cases (fails e w) = inr (e, w, refl)

module _ {W : Type 0} (k : Kernel W) (live : W → ℕ → Bool) (laws : Laws k live) where
  pub close_all-live :
      (w : W) (fds : List ℕ) (fd : ℕ)
      → live (close_all k w fds) fd ≡ (if member fd fds then false else live w fd)
  unfolding close_all
  close_all-live w [] fd = refl
  close_all-live w (x ∷ xs) fd =
      ground (arith, close_all-live (k.close w x) xs fd, laws.close_live w x fd)

  -- A failure leaves the table of `before`.
  abbrev Kept : W → {A : Type 0} → Outcome W A → Type 0
  Kept before (returns a w) = Unit
  Kept before (fails e w) = (fd : ℕ) → live w fd ≡ live before fd

  -- The copies in `done` are all that the table has beside that of `before`, which has none of them.
  record Copied (before w : W) (done : List ℕ) : Type 0 where
    beside : (fd : ℕ) → live w fd ≡ (member fd done || live before fd)
    fresh : (fd : ℕ) → member fd done ≡ true → live before fd ≡ false

  closed-Kept :
      (before w : W) (done : List ℕ) (c : Copied before w done) (fd : ℕ)
      → live (close_all k w done) fd ≡ live before fd
  closed-Kept before w done c fd = ground (arith, close_all-live w done fd, c.beside fd, c.fresh fd)

  copy-Copied :
      (before w v : W) (done : List ℕ) (fd new : ℕ)
      → Copied before w done
      → k.dup w fd ≡ returns new v
      → Copied before v (done ++ new ∷ [])
  copy-Copied before w v done fd new c e = record {
    beside =
        λ x. ground (arith, member-append x new done, laws.dup_live w v fd new x e, c.beside x);
    fresh = λ x m.
        ground
          (arith, member-append x new done, laws.dup_fresh w v fd new e, c.beside new, c.fresh x);
  }

  prepend-Kept :
      (before : W) (fd size : ℕ) (o : Outcome W (List Object))
      → Kept before o
      → Kept before (prepend fd size o)
  prepend-Kept before fd size (returns os w) h = tt
  prepend-Kept before fd size (fails e w) h = h

  dup_fd-cases :
      (w : W) (o : Option ℕ)
      → ((e : Errno) × (dup_fd k w o ≡ fails e w))
        ⊎ ((fd : ℕ) × (new : ℕ) × (v : W) × (o ≡ some fd) × (k.dup w fd ≡ returns new v))
  dup_fd-cases w none = inl (ebadf, refl)
  dup_fd-cases w (some fd) = elim (Outcome-cases (k.dup w fd)) [
    | inl (new, v, e) ↦ inr (fd, new, v, refl, e)
    | inr (e, v, q) ↦ inl (e, q ∙ ap (fails e) (laws.dup_fails w v fd e q))
  ]

  dup_objects-Kept :
      (before w : W) (done : List ℕ) (count : ℕ) (os : List Object)
      → Copied before w done
      → Kept before (dup_objects k w done count os)
  unfolding dup_objects
  dup_objects-Kept before w done zero os c = tt
  dup_objects-Kept before w done (suc count) [] c = tt
  dup_objects-Kept before w done (suc count) (o ∷ os) c = elim (dup_fd-cases w o.fd) [
    | inl (e, q) ↦ rw (q, dup_objects) (closed-Kept before w done c)
    | inr (fd, new, v, q, d) ↦
        rw (q, d, dup_objects)
          (prepend-Kept before new o.size _ (
            dup_objects-Kept before v (done ++ new ∷ []) count os
              (copy-Copied before w v done fd new c d)))
  ]

  stored-Kept :
      (r : Registry) (d : Descriptor) (before : W) (o : Outcome W (List Object))
      → Kept before o
      → is_ok (stored k r d o).result ≡ false
      → (fd : ℕ) → live (stored k r d o).world fd ≡ live before fd
  unfolding stored
  stored-Kept r d before (returns os w) h e fd = ground arith
  stored-Kept r d before (fails x w) h e fd = h fd

  -- If duplicating and closing descriptors do what their manual says (a copy is a descriptor that
  -- was free, a failed copy changes nothing, a close removes one), a registration that fails leaves
  -- the process with exactly the descriptors that it had.
  pub registry_register-live :
      (policy : W → Descriptor → Verdict) (w : W) (r : Registry) (d : Descriptor)
      → is_ok (registry_register k policy w r d).result ≡ false
      → (fd : ℕ) → live (registry_register k policy w r d).world fd ≡ live w fd
  registry_register-live policy w r d =
      register_cases k policy w r d
        (λ q. is_ok q.result ≡ false → (fd : ℕ) → live q.world fd ≡ live w fd) (λ e h fd. refl)
        (λ n f. stored-Kept r d w _ (
          dup_objects-Kept w w [] d.object_count d.objects
            (record { beside = λ fd. refl; fresh = λ fd m. ground (arith, m) })))
