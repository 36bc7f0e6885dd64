-- ===== src/Kernel/Table.antt =====
-- A descriptor table as the list of its descriptors, which keeps the kernel's laws.
use lin_de_x.Base.{
  ℕ, suc, ◌+◌, ◌≤◌, ◌==◌, true, false, List, [], ◌∷◌, if◌then◌else◌, ◌≡◌, arith, os, Errno,
}
use lin_de_x.Kernel.{Kernel, Outcome, returns, fails, Laws}
use lin_de_x.Dmabuf.Registry.Leaks.{member}

abbrev pub total : List ℕ → ℕ
total [] = 0
total (x ∷ xs) = x + total xs

abbrev pub remove : ℕ → List ℕ → List ℕ
remove fd [] = []
remove fd (x ∷ xs) = if fd == x then remove fd xs else x ∷ remove fd xs

member-total : (fd : ℕ) (w : List ℕ) → member fd w ≡ true → fd ≤ total w
member-total fd [] h = ground arith
member-total fd (x ∷ xs) h = ground (arith, member-total fd xs)

member-remove :
    (fd other : ℕ) (w : List ℕ)
    → member other (remove fd w) ≡ (if other == fd then false else member other w)
member-remove fd other [] = ground arith
member-remove fd other (x ∷ xs) = ground (arith, member-remove fd other xs)

-- A full table refuses: it holds at most three descriptors.
abbrev pub duplicate : List ℕ → ℕ → Outcome (List ℕ) ℕ
duplicate (x ∷ y ∷ z ∷ w) fd = fails (os 24) (x ∷ y ∷ z ∷ w)
duplicate w fd = returns (suc (total w)) (suc (total w) ∷ w)

abbrev pub table : Kernel (List ℕ)
table = record {
  has_cloexec = λ w fd. member fd w;
  is_sync_file = λ w fd. true;
  dup = duplicate;
  close = λ w fd. remove fd w;
}

duplicate-fresh :
    (w v : List ℕ) (fd new : ℕ) → duplicate w fd ≡ returns new v → member new w ≡ false
duplicate-fresh [] v fd new e = ground arith
duplicate-fresh (x ∷ []) v fd new e = ground arith
duplicate-fresh (x ∷ y ∷ []) v fd new e = ground arith
duplicate-fresh (x ∷ y ∷ z ∷ w) v fd new e = ground arith

duplicate-live :
    (w v : List ℕ) (fd new other : ℕ)
    → duplicate w fd ≡ returns new v
    → member other v ≡ (if other == new then true else member other w)
duplicate-live [] v fd new other e = ground arith
duplicate-live (x ∷ []) v fd new other e = ground arith
duplicate-live (x ∷ y ∷ []) v fd new other e = ground arith
duplicate-live (x ∷ y ∷ z ∷ w) v fd new other e = ground arith

duplicate-fails : (w v : List ℕ) (fd : ℕ) (e : Errno) → duplicate w fd ≡ fails e v → v ≡ w
duplicate-fails [] v fd e q = ground arith
duplicate-fails (x ∷ []) v fd e q = ground arith
duplicate-fails (x ∷ y ∷ []) v fd e q = ground arith
duplicate-fails (x ∷ y ∷ z ∷ w) v fd e q = ground arith

pub table-Laws : Laws table (λ w fd. member fd w)
table-Laws = record {
  dup_fresh = λ w v fd new e. duplicate-fresh w v fd new e;
  dup_live = λ w v fd new other e. duplicate-live w v fd new other e;
  dup_fails = λ w v fd e q. duplicate-fails w v fd e q;
  close_live = λ w fd other. member-remove fd other w;
}
