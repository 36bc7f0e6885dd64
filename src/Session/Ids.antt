-- ===== src/Session/Ids.antt =====
-- `allocate_session_id` of src/video_bridge/src/session_engine.c: the search for a session id.
use lin_de_x.Base.{
  ℕ, zero, suc, ◌+◌, ◌%◌, ◌==◌, Option, none, some, is_some, List, [], ◌∷◌, length, arith, refl,
  ◌≡◌, ◌≤◌, ◌<◌, if◌then◌else◌, Bool-cases, find_first, inl, inr, Option-cases,
}
use lin_de_x.Session.State.{Session, find_session, allocate_session_id, uint32_mod}

-- How often `x` stands among the `n` candidates from `c` on.
unfoldable hits : ℕ → ℕ → ℕ → ℕ
hits zero c x = 0
hits (suc n) c x = let rest = hits n ((c + 1) % uint32_mod) x in if c == x then suc rest else rest

-- How many of the `n` candidates from `c` on are passed over.
unfoldable passed : ℕ → ℕ → List Session → ℕ
passed zero c ss = 0
passed (suc n) c ss =
    let rest = passed n ((c + 1) % uint32_mod) ss in
    if c == 0 then suc rest else if is_some (find_session c ss) then suc rest else rest

hits-far :
    (n c x : ℕ)
    → c < 4294967296
    → (c ≤ x → c + n ≤ x)
    → (x < c → c + n ≤ x + 4294967296)
    → hits n c x ≡ 0
unfolding hits
hits-far zero c x l a b = refl
hits-far (suc n) c x l a b = elim (Bool-cases (c == x)) [
  | inl e ↦ grind arith
  | inr e ↦ ground (
    arith,
    hits-far n ((c + 1) % 4294967296) x (omega arith) (λ q. grind arith) (λ q. grind arith),
  )
]

hits_lem : (n c x : ℕ) → c < 4294967296 → n ≤ 4294967296 → hits n c x ≤ 1
unfolding hits
hits_lem zero c x l m = omega arith
hits_lem (suc n) c x l m = elim (Bool-cases (c == x)) [
  | inl e ↦ ground (
    arith,
    hits-far n ((c + 1) % 4294967296) x (omega arith) (λ q. ground arith) (λ q. ground arith),
  )
  | inr e ↦ ground (arith, hits_lem n ((c + 1) % 4294967296) x (omega arith) (omega arith))
]

passed-none : (n c : ℕ) → passed n c [] ≡ hits n c 0
unfolding passed hits find_first
passed-none zero c = refl
passed-none (suc n) c = ground (arith, passed-none n ((c + 1) % 4294967296))

passed-one :
    (n c : ℕ) (s : Session) (ss : List Session)
    → passed n c (s ∷ ss) ≤ passed n c ss + hits n c s.id
unfolding passed hits find_first
passed-one zero c s ss = omega arith
passed-one (suc n) c s ss = ground (arith, passed-one n ((c + 1) % 4294967296) s ss)

passed_lem :
    (n c : ℕ) (ss : List Session) → c < 4294967296 → n ≤ 4294967296 → passed n c ss ≤ 1 + length ss
passed_lem n c [] l m = ground (arith, passed-none n c, hits_lem n c 0 l m)
passed_lem n c (s ∷ ss) l m =
    ground (arith, passed-one n c s ss, hits_lem n c s.id l m, passed_lem n c ss l m)

-- The id that the search returns.
unfoldable pub Fresh : List Session → Option (ℕ × ℕ) → Type 0
Fresh ss none = ⊥
Fresh ss (some found) =
    (0 < found.0)
    × (found.0 < 4294967296)
    × (found.1 < 4294967296)
    × (find_session found.0 ss ≡ none)

allocate-passed :
    (n c : ℕ) (ss : List Session)
    → c < 4294967296
    → passed n c ss < n
    → Fresh ss (allocate_session_id n c ss)
unfolding passed allocate_session_id Fresh
allocate-passed zero c ss l p = ground arith
allocate-passed (suc n) c ss l p = elim (Bool-cases (c == 0)) [
  | inl e ↦ rw e (allocate-passed n ((c + 1) % 4294967296) ss (omega arith) (ground arith))
  | inr e ↦ elim (Option-cases (find_session c ss)) [
    | inl f ↦ rw (e, f) (ground arith, ground arith, omega arith, f)
    | inr (s, f) ↦
        rw (e, f) (allocate-passed n ((c + 1) % 4294967296) ss (omega arith) (ground arith))
  ]
]

-- For at most four sessions and a counter below 2^32, six tries find a session id: it is not zero,
-- it is below 2^32, and no session in use has it; the counter stays below 2^32.
pub allocate_session_id-Fresh :
    (c : ℕ) (ss : List Session)
    → c < 4294967296
    → length ss ≤ 4
    → Fresh ss (allocate_session_id 6 c ss)
allocate_session_id-Fresh c ss l m =
    allocate-passed 6 c ss l (ground (arith, passed_lem 6 c ss l (omega arith)))
