-- ===== src/Policy/Modifier/Parsing.antt =====
-- The policy that advc_vaapi_modifier_policy_parse of
-- src/vaapi_advc/advc_vaapi_modifier_policy.c reads from two values.
use lin_de_x.Base.{
  ℕ, ◌==◌, Bool, true, false, ◌≡◌, refl, List, [], ◌∷◌, Option, none, some, Result, ok, err, einval,
  arith, Bool-cases, inl, inr, ◌⊎◌, ap, ==_iff,
}
use lin_de_x.Policy.Modifier.{
  ModifierMode, ModifierSource, ModifierPolicy, auto, linear, qcom, default, primary_env,
  legacy_env, same_string, mode_name, parse_mode, default_policy, parsed, legacy_parse,
  policy_parse,
}

same_string-same : (a b : List ℕ) → same_string a b ≡ true → a ≡ b
unfolding same_string
same_string-same [] [] e = refl
same_string-same [] (d ∷ b) e = ground (arith, e)
same_string-same (c ∷ a) [] e = ground (arith, e)
same_string-same (c ∷ a) (d ∷ b) e = elim (Bool-cases (c == d)) [
  | inl m ↦ rw ((==_iff c d).0 m, same_string-same a b (rw m at e)) refl
  | inr m ↦ ground (arith, rw m at e)
]

parse_mode-names :
    (value : List ℕ)
    → ((m : ModifierMode) × (value ≡ mode_name m) × (parse_mode value ≡ ok m))
      ⊎ (parse_mode value ≡ err einval)
unfolding parse_mode
parse_mode-names value = elim (Bool-cases (same_string value (mode_name auto))) [
  | inl a ↦ inl (auto, same_string-same value (mode_name auto) a, rw a refl)
  | inr a ↦ elim (Bool-cases (same_string value (mode_name linear))) [
    | inl b ↦ inl (linear, same_string-same value (mode_name linear) b, rw (a, b) refl)
    | inr b ↦ elim (Bool-cases (same_string value (mode_name qcom))) [
      | inl c ↦ inl (qcom, same_string-same value (mode_name qcom) c, rw (a, b, c) refl)
      | inr c ↦ inr (rw (a, b, c) refl)
    ]
  ]
]

parsed-cases :
    (source : ModifierSource) (value : List ℕ)
    → ((m : ModifierMode) × (value ≡ mode_name m)
        × (parsed source value ≡ (ok tt, record { mode = m; source = source })))
      ⊎ (parsed source value ≡ (err einval, default_policy))
unfolding parsed
parsed-cases source value = elim (parse_mode-names value) [
  | inl (m, named, e) ↦ inl (m, named, rw (e, parsed) refl)
  | inr e ↦ inr (rw (e, parsed) refl)
]

unfoldable is_absent : Option (List ℕ) → Bool
is_absent none = true
is_absent (some []) = true
is_absent (some (c ∷ value)) = false

-- The value that a policy's mode is named by.
unfoldable Names : Option (List ℕ) → Option (List ℕ) → ModifierMode → ModifierSource → Type 0
Names primary legacy mode default =
    (is_absent primary ≡ true) × (is_absent legacy ≡ true) × (mode ≡ auto)
Names primary legacy mode primary_env = primary ≡ some (mode_name mode)
Names primary legacy mode legacy_env = (is_absent primary ≡ true) × (legacy ≡ some (mode_name mode))

-- What the parser leaves: a policy that a value names, or the default behind EINVAL.
abbrev Parsed : Option (List ℕ) → Option (List ℕ) → Result (Unit {0}) × ModifierPolicy → Type 0
Parsed primary legacy r =
    ((r.0 ≡ ok tt) × Names primary legacy r.1.mode r.1.source)
    ⊎ ((r.0 ≡ err einval) × (r.1 ≡ default_policy))

legacy_parse-Parsed :
    (primary legacy : Option (List ℕ))
    → is_absent primary ≡ true
    → Parsed primary legacy (legacy_parse legacy)
unfolding legacy_parse Names is_absent
legacy_parse-Parsed primary none absent = inl (refl, (absent, refl, refl))
legacy_parse-Parsed primary (some []) absent = inl (refl, (absent, refl, refl))
legacy_parse-Parsed primary (some (c ∷ value)) absent = elim (parsed-cases legacy_env (c ∷ value)) [
  | inl (m, named, e) ↦ rw e (inl (refl, (absent, ap some named)))
  | inr e ↦ rw e (inr (refl, refl))
]

policy_parse-Parsed :
    (primary legacy : Option (List ℕ)) → Parsed primary legacy (policy_parse primary legacy)
unfolding policy_parse Names is_absent
policy_parse-Parsed none legacy = legacy_parse-Parsed none legacy refl
policy_parse-Parsed (some []) legacy = legacy_parse-Parsed (some []) legacy refl
policy_parse-Parsed (some (c ∷ value)) legacy = elim (parsed-cases primary_env (c ∷ value)) [
  | inl (m, named, e) ↦ rw e (inl (refl, ap some named))
  | inr e ↦ rw e (inr (refl, refl))
]
