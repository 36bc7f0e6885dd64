-- ===== src/Policy/Modifier.antt =====
-- src/vaapi_advc/advc_vaapi_modifier_policy.c: which modifiers of a surface the driver admits, and
-- by which route. A string is the list of its bytes, and `none` is NULL; the pointers to policies
-- are not NULL.
mod Parsing
mod Examples
use lin_de_x.Base.{
  ℕ, ◌==◌, ◌!=◌, ◌&&◌, ◌||◌, not, Bool, true, false, if◌then◌else◌, ◌≡◌, ◌≢◌, refl, List, [], ◌∷◌,
  Option, none, some, Result, ok, err, einval, Bool-cases, inl, inr, ◌⊎◌, ap, ==_iff,
}

-- enum advc_vaapi_modifier_mode
pub data ModifierMode : Type 0 where
  auto linear qcom : ModifierMode

-- enum advc_vaapi_modifier_source
pub data ModifierSource : Type 0 where
  default primary_env legacy_env : ModifierSource

pub record ModifierPolicy : Type 0 where
  pub mode : ModifierMode
  pub source : ModifierSource

-- enum advc_vaapi_modifier_route
pub data ModifierRoute : Type 0 where
  unsupported direct_linear direct_qcom gpu_repack_linear : ModifierRoute

abbrev pub qcom_modifier : ℕ
qcom_modifier = 0x0500000000000001

-- `strcmp (a, b) == 0`
unfoldable pub same_string : List ℕ → List ℕ → Bool
same_string [] [] = true
same_string [] (d ∷ b) = false
same_string (c ∷ a) [] = false
same_string (c ∷ a) (d ∷ b) = c == d && same_string a b

-- `advc_vaapi_modifier_mode_name`, in ASCII.
unfoldable pub mode_name : ModifierMode → List ℕ
mode_name auto = 97 ∷ 117 ∷ 116 ∷ 111 ∷ []
mode_name linear = 108 ∷ 105 ∷ 110 ∷ 101 ∷ 97 ∷ 114 ∷ []
mode_name qcom = 113 ∷ 99 ∷ 111 ∷ 109 ∷ []

unfoldable pub parse_mode : List ℕ → Result ModifierMode
parse_mode value =
    if same_string value (mode_name auto)
    then ok auto
    else if same_string value (mode_name linear)
    then ok linear
    else if same_string value (mode_name qcom)
    then ok qcom
    else err einval

abbrev pub default_policy : ModifierPolicy
default_policy = record { mode = auto; source = default }

-- The policy that a value of that source leaves, behind the answer.
unfoldable pub parsed : ModifierSource → List ℕ → Result (Unit {0}) × ModifierPolicy
parsed source value = elim (parse_mode value) [
  | ok mode ↦ (ok tt, record { mode = mode; source = source })
  | err e ↦ (err e, default_policy)
]

-- A value is there if it is not NULL and not empty.
unfoldable pub legacy_parse : Option (List ℕ) → Result (Unit {0}) × ModifierPolicy
legacy_parse none = (ok tt, default_policy)
legacy_parse (some []) = (ok tt, default_policy)
legacy_parse (some (c ∷ value)) = parsed legacy_env (c ∷ value)

unfoldable pub policy_parse : Option (List ℕ) → Option (List ℕ) → Result (Unit {0}) × ModifierPolicy
policy_parse none legacy = legacy_parse legacy
policy_parse (some []) legacy = legacy_parse legacy
policy_parse (some (c ∷ value)) legacy = parsed primary_env (c ∷ value)

unfoldable pub is_linear : ModifierMode → Bool
is_linear auto = false
is_linear linear = true
is_linear qcom = false

unfoldable pub is_qcom : ModifierMode → Bool
is_qcom auto = false
is_qcom linear = false
is_qcom qcom = true

unfoldable pub qcom_direct_ready : Bool → Bool → Bool
qcom_direct_ready broker_capable importer_validated = broker_capable && importer_validated

-- The arguments that both directions take.
pub record ModifierSurface : Type 0 where
  pub modifier : ℕ
  pub descriptor_valid : Bool
  pub broker_qcom_capable : Bool
  pub qcom_validated : Bool
  pub gpu_repack_available : Bool

unfoldable pub route_decode : ModifierPolicy → ModifierSurface → Bool → ModifierRoute
route_decode policy s async_linear_reservation =
    if not s.descriptor_valid
    then unsupported
    else if s.modifier == 0
    then if is_qcom policy.mode then unsupported else direct_linear
    else if s.modifier != qcom_modifier || is_linear policy.mode
    then unsupported
    else if not async_linear_reservation && qcom_direct_ready s.broker_qcom_capable s.qcom_validated
    then direct_qcom
    else if is_qcom policy.mode
    then unsupported
    else if s.gpu_repack_available
    then gpu_repack_linear
    else unsupported

unfoldable pub route_encode : ModifierPolicy → ModifierSurface → ModifierRoute
route_encode policy s =
    if not s.descriptor_valid
    then unsupported
    else if s.modifier == 0
    then if is_qcom policy.mode then unsupported else direct_linear
    else if s.modifier != qcom_modifier || is_linear policy.mode
    then unsupported
    else if qcom_direct_ready s.broker_qcom_capable s.qcom_validated
    then direct_qcom
    else if is_qcom policy.mode
    then unsupported
    else if s.gpu_repack_available
    then gpu_repack_linear
    else unsupported

-- The linear layout is reserved, or one of the two sides cannot take compressed surfaces.
unfoldable pub NotDirect : ModifierSurface → Bool → Type 0
NotDirect s reserved =
    (reserved ≡ true) ⊎ (s.broker_qcom_capable ≡ false) ⊎ (s.qcom_validated ≡ false)

-- What a route needs, and when there is none.
unfoldable pub Permitted : ModifierPolicy → ModifierSurface → Bool → ModifierRoute → Type 0
Permitted p s reserved unsupported =
    (s.descriptor_valid ≡ false)
    ⊎ ((s.modifier ≡ 0) × (p.mode ≡ qcom))
    ⊎ ((s.modifier ≢ 0) × (s.modifier ≢ qcom_modifier))
    ⊎ ((s.modifier ≡ qcom_modifier)
        × ((p.mode ≡ linear)
            ⊎ (NotDirect s reserved × ((p.mode ≡ qcom) ⊎ (s.gpu_repack_available ≡ false)))))
Permitted p s reserved direct_linear =
    (s.descriptor_valid ≡ true) × (s.modifier ≡ 0) × (p.mode ≢ qcom)
Permitted p s reserved direct_qcom =
    (s.descriptor_valid ≡ true)
    × (s.modifier ≡ qcom_modifier)
    × (p.mode ≢ linear)
    × (s.broker_qcom_capable ≡ true)
    × (s.qcom_validated ≡ true)
    × (reserved ≡ false)
Permitted p s reserved gpu_repack_linear =
    (s.descriptor_valid ≡ true)
    × (s.modifier ≡ qcom_modifier)
    × (p.mode ≢ linear)
    × (p.mode ≢ qcom)
    × (s.gpu_repack_available ≡ true)
    × NotDirect s reserved

module _ (policy : ModifierPolicy) (s : ModifierSurface) where
  -- An encoder's route is that of a decoder without a reservation.
  pub route_encode-decode : route_encode policy s ≡ route_decode policy s false
  unfolding route_encode route_decode
  route_encode-decode = refl
