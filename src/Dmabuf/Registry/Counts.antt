-- ===== src/Dmabuf/Registry/Counts.antt =====
-- The searches and writes of the registry's table: what they find, and how they change the number
-- of registered and of in-flight entries.
use lin_de_x.Base.{
  ◌∙◌, ℕ, ◌+◌, ◌≤◌, ◌<◌, Bool, true, false, none, some, List, [], ◌∷◌, length, ◌≡◌, ◌≢◌, refl,
  arith, All, Bool-cases, inl, inr,
}
use lin_de_x.Dmabuf.Registry.{Entry, find_entry, modify, has_free, fill, holds}

abbrev pub weight : Bool → ℕ
weight true = 1
weight false = 0

unfoldable pub count_used : List Entry → ℕ
count_used [] = 0
count_used (e ∷ es) = weight e.in_use + count_used es

unfoldable pub count_flying : List Entry → ℕ
count_flying [] = 0
count_flying (e ∷ es) = weight e.in_flight + count_flying es

-- No two entries in use have one id.
abbrev pub Distinct : List Entry → Type 0
Distinct [] = Unit
Distinct (e ∷ es) = (e.in_use ≡ true → find_entry e.descriptor.buffer_id es ≡ none) × Distinct es

-- What flies is in use.
abbrev pub Grounded : List Entry → Type 0
Grounded = All λ e. e.in_flight ≡ true → e.in_use ≡ true

pub length-fill : (new : Entry) (es : List Entry) → length (fill new es) ≡ length es
unfolding fill
length-fill new [] = refl
length-fill new (e ∷ es) = ground (arith, length-fill new es)

pub length-modify :
    (id : ℕ) (f : Entry → Entry) (es : List Entry) → length (modify id f es) ≡ length es
unfolding modify
length-modify id f [] = refl
length-modify id f (e ∷ es) = ground (arith, length-modify id f es)

pub has_free-lt : (es : List Entry) → has_free es ≡ true → count_used es < length es
unfolding has_free count_used
has_free-lt [] h = ground arith
has_free-lt (e ∷ es) h = ground (arith, has_free-lt es, count_used-le es)
  where
    count_used-le : (es : List Entry) → count_used es ≤ length es
    count_used-le [] = omega arith
    count_used-le (e ∷ es) = ground (arith, count_used-le es)

pub has_free_of_lt : (es : List Entry) → count_used es < length es → has_free es ≡ true
unfolding has_free count_used
has_free_of_lt [] h = ground arith
has_free_of_lt (e ∷ es) h = ground (arith, has_free_of_lt es)

pub count_used-fill :
    (new : Entry) (es : List Entry)
    → has_free es ≡ true
    → count_used (fill new es) ≡ weight new.in_use + count_used es
unfolding has_free fill count_used
count_used-fill new [] h = ground arith
count_used-fill new (e ∷ es) h = ground (arith, count_used-fill new es)

pub count_flying-fill :
    (new : Entry) (es : List Entry)
    → new.in_flight ≡ false
    → Grounded es
    → count_flying (fill new es) ≡ count_flying es
unfolding fill count_flying
count_flying-fill new [] h g = refl
count_flying-fill new (e ∷ es) h g = ground (arith, g.0, count_flying-fill new es h g.1)

pub Grounded-fill :
    (new : Entry) (es : List Entry) → new.in_flight ≡ false → Grounded es → Grounded (fill new es)
unfolding fill
Grounded-fill new [] h g = tt
Grounded-fill new (e ∷ es) h g = ground (arith, g.0, Grounded-fill new es h g.1)

-- A new entry that does not hold the id changes no search for it.
pub find-fill_other :
    (id : ℕ) (new : Entry) (es : List Entry)
    → holds id new ≡ false
    → find_entry id (fill new es) ≡ find_entry id es
unfolding find_entry fill
find-fill_other id new [] h = refl
find-fill_other id new (e ∷ es) h = ground (arith, find-fill_other id new es)

pub find-fill :
    (id : ℕ) (new : Entry) (es : List Entry)
    → holds id new ≡ true
    → has_free es ≡ true
    → find_entry id es ≡ none
    → find_entry id (fill new es) ≡ some new
unfolding find_entry fill has_free
find-fill id new [] h f n = ground arith
find-fill id new (e ∷ es) h f n = ground (arith, find-fill id new es)

-- A write through the pointer to one entry changes no search for another id.
pub find-modify_other :
    (id other : ℕ) (f : Entry → Entry) (es : List Entry)
    → other ≢ id
    → ((e : Entry) → holds other (f e) ≡ true → holds other e ≡ true)
    → find_entry other (modify id f es) ≡ find_entry other es
unfolding find_entry modify
find-modify_other id other f [] n h = refl
find-modify_other id other f (e ∷ es) n h = ground (arith, h e, find-modify_other id other f es n h)

pub find-modify :
    (id : ℕ) (f : Entry → Entry) (es : List Entry) (e : Entry)
    → ((e : Entry) → holds id e ≡ true → holds id (f e) ≡ true)
    → find_entry id es ≡ some e
    → find_entry id (modify id f es) ≡ some (f e)
unfolding find_entry modify
find-modify id f [] e h s = cc
find-modify id f (x ∷ es) e h s = ground (arith, h x, find-modify id f es e h)

pub find_entry-holds :
    (id : ℕ) (es : List Entry) (e : Entry) → find_entry id es ≡ some e → holds id e ≡ true
unfolding find_entry
find_entry-holds id [] e s = cc
find_entry-holds id (x ∷ es) e s = ground (arith, find_entry-holds id es e)

-- Once the only entry that holds the id is written over, the id is gone.
pub find-modify_gone :
    (id : ℕ) (f : Entry → Entry) (es : List Entry)
    → ((e : Entry) → holds id (f e) ≡ false)
    → Distinct es
    → find_entry id (modify id f es) ≡ none
unfolding find_entry modify
find-modify_gone id f [] h d = refl
find-modify_gone id f (x ∷ es) h d = elim (Bool-cases (holds id x)) [
  | inl here ↦ ground (arith, h x, d.0)
  | inr there ↦ ground (arith, find-modify_gone id f es h d.1)
]

unclaimed :
    (x y : Entry) (es : List Entry)
    → ((j : ℕ) → holds j y ≡ true → holds j x ≡ true)
    → (x.in_use ≡ true → find_entry x.descriptor.buffer_id es ≡ none)
    → y.in_use ≡ true
    → find_entry y.descriptor.buffer_id es ≡ none
unclaimed x y es h d u = ground (arith, h y.descriptor.buffer_id)

-- A write that keeps an entry's id and use keeps the ids distinct, and so does one that frees it.
pub Distinct-modify :
    (id : ℕ) (f : Entry → Entry) (es : List Entry)
    → ((e : Entry) (j : ℕ) → holds j (f e) ≡ true → holds j e ≡ true)
    → Distinct es
    → Distinct (modify id f es)
unfolding modify
Distinct-modify id f [] h d = tt
Distinct-modify id f (x ∷ es) h d = elim (Bool-cases (holds id x)) [
  | inl here ↦ rw here (unclaimed x (f x) es (h x) d.0, d.1)
  | inr there ↦ rw there (
    λ u.
        let other : x.descriptor.buffer_id ≢ id = λ e. ground arith in
        find-modify_other id x.descriptor.buffer_id f es other (λ e. h e x.descriptor.buffer_id)
        ∙ d.0 u,
    Distinct-modify id f es h d.1,
  )
]

pub Distinct-fill :
    (new : Entry) (es : List Entry)
    → (new.in_use ≡ true → find_entry new.descriptor.buffer_id es ≡ none)
    → Distinct es
    → Distinct (fill new es)
unfolding fill find_entry
Distinct-fill new [] n d = tt
Distinct-fill new (x ∷ es) n d = elim (Bool-cases x.in_use) [
  | inl used ↦ rw used (
    λ u. find-fill_other x.descriptor.buffer_id new es (ground (arith, n)) ∙ d.0 used,
    Distinct-fill new es (λ u. ground (arith, n u)) d.1,
  )
  | inr free ↦ rw free (λ u. ground (arith, n u), d.1)
]

module _ (id : ℕ) (f : Entry → Entry) where
  -- The counts change by what the written entry changes.
  pub count_used-modify :
      (es : List Entry) (e : Entry)
      → find_entry id es ≡ some e
      → count_used (modify id f es) + weight e.in_use ≡ count_used es + weight (f e).in_use
  unfolding find_entry modify count_used
  count_used-modify [] e s = cc
  count_used-modify (x ∷ es) e s = ground (arith, count_used-modify es e)

  pub count_flying-modify :
      (es : List Entry) (e : Entry)
      → find_entry id es ≡ some e
      → count_flying (modify id f es) + weight e.in_flight
        ≡ count_flying es + weight (f e).in_flight
  unfolding find_entry modify count_flying
  count_flying-modify [] e s = cc
  count_flying-modify (x ∷ es) e s = ground (arith, count_flying-modify es e)

  pub Grounded-modify :
      (es : List Entry)
      → ((e : Entry) → holds id e ≡ true → (f e).in_flight ≡ true → (f e).in_use ≡ true)
      → Grounded es
      → Grounded (modify id f es)
  unfolding modify
  Grounded-modify [] h g = tt
  Grounded-modify (x ∷ es) h g = ground (arith, h x, g.0, Grounded-modify es h g.1)
