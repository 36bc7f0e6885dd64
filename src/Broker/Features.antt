-- ===== src/Broker/Features.antt =====
-- Which features the broker offers to a client: `ADVC_OP_HELLO` of src/video_bridge/src/broker.c.
use lin_de_x.Base.{
  ℕ, zero, suc, ◌-◌, ◌%◌, ◌^◌, ◌<◌, ◌≤◌, ◌==◌, ltb, ◌&&◌, ◌||◌, Bool, true, false, if◌then◌else◌,
  min, ◌≡◌, refl, arith, ap, ◌∙◌, bit_and, Bool-cases, inl, inr, ==_iff,
}
use lin_de_x.Base.Masks.{bit, bit-bit_and, bit_and-le}
use lin_de_x.Protocol.Wire.{get_u32, Buffer, get_u64, get-put_u64, put_u32}
use lin_de_x.Session.State.{Message}
use lin_de_x.Broker.{without, gate_features, hello_reply, handle_hello, get_u32}

-- A test of the numbers below a bound, and what it says of each.
abbrev all_below : ℕ → (ℕ → Bool) → Bool
all_below zero test = true
all_below (suc n) test = test n && all_below n test

all_below-holds :
    (n : ℕ) (test : ℕ → Bool) → all_below n test ≡ true → (k : ℕ) → k < n → test k ≡ true
all_below-holds zero test h k l = absurd (omega arith)
all_below-holds (suc n) test h k l = elim (Bool-cases (k == n)) [
  | inl e ↦ let here : k ≡ n = ground (arith, e) in ap test here ∙ ground (arith, h)
  | inr e ↦ all_below-holds n test (ground (arith, h)) k (ground (arith, e))
]

-- The bits of a mask's complement.
abbrev clears : ℕ → (ℕ → Bool) → ℕ → Bool
clears mask masked k = bit k (2 ^ 64 - 1 - mask) == (if masked k then 0 else 1)

module _ (mask : ℕ) (masked : ℕ → Bool) (table : all_below 64 (clears mask masked) ≡ true) where
  -- `features & ~mask` clears the masked bits and keeps the others.
  without-bit :
      (k features : ℕ)
      → k < 64
      → bit k (without mask features) ≡ (if masked k then 0 else bit k features)
  unfolding without
  without-bit k features h =
      let entry = all_below-holds 64 (clears mask masked) table k h in
      let kept = bit-bit_and k features (2 ^ 64 - 1 - mask) in
      elim (Bool-cases (masked k)) [
        | inl e ↦ let clear = rw e at entry in rw e (omega (arith, kept, is_zero clear))
        | inr e ↦ let set = rw e at entry in rw e (omega (arith, kept, is_one set))
      ]
    where
      is_zero : (bit k (2 ^ 64 - 1 - mask) == 0) ≡ true → bit k (2 ^ 64 - 1 - mask) ≡ 0
      is_zero e = (==_iff (bit k (2 ^ 64 - 1 - mask)) 0).0 e

      is_one : (bit k (2 ^ 64 - 1 - mask) == 1) ≡ true → bit k (2 ^ 64 - 1 - mask) ≡ 1
      is_one e = (==_iff (bit k (2 ^ 64 - 1 - mask)) 1).0 e

  -- The same for the clients below a version.
  step-bit :
      (condition : Bool) (k features : ℕ)
      → k < 64
      → bit k (if condition then without mask features else features)
        ≡ (if condition && masked k then 0 else bit k features)
  step-bit true k features h = without-bit k features h
  step-bit false k features h = refl

-- The first minor version of the protocol whose clients know the feature of a bit.
unfoldable pub known_since : ℕ → ℕ
known_since k =
    if k == 6
    then 3
    else if k == 7
    then 4
    else if k == 1 || k == 8 || k == 9
    then 5
    else if k == 10
    then 6
    else if k == 11 || k == 12 || k == 13
    then 8
    else 0

-- The masked bits of the five steps.
abbrev dmabuf_bit : ℕ → Bool
dmabuf_bit k = k == 1 || k == 8 || k == 9

abbrev modifier_bit : ℕ → Bool
modifier_bit k = k == 11 || k == 12 || k == 13

known_since-steps :
    (minor k x : ℕ)
    → (if ltb minor 8 && modifier_bit k
        then 0
        else if ltb minor 6 && k == 10
        then 0
        else if ltb minor 5 && dmabuf_bit k
        then 0
        else if ltb minor 4 && k == 7
        then 0
        else if ltb minor 3 && k == 6
        then 0
        else x)
      ≡ (if ltb minor (known_since k) then 0 else x)
unfolding known_since
known_since-steps minor k x = ground arith

without-le : (mask features : ℕ) → without mask features ≤ features
unfolding without
without-le mask features = bit_and-le features features (2 ^ 64 - 1 - mask) (omega arith)

step-le : (mask : ℕ) (condition : Bool) (f : ℕ) → (if condition then without mask f else f) ≤ f
step-le mask true f = without-le mask f
step-le mask false f = omega arith

gate_features-le : (minor features : ℕ) → gate_features minor features ≤ features
unfolding gate_features
gate_features-le minor features =
    let a = if ltb minor 3 then without 0x40 features else features in
    let b = if ltb minor 4 then without 0x80 a else a in
    let c = if ltb minor 5 then without 0x302 b else b in
    let d = if ltb minor 6 then without 0x400 c else c in
    omega (
      arith,
      step-le 0x3800 (ltb minor 8) d,
      step-le 0x400 (ltb minor 6) c,
      step-le 0x302 (ltb minor 5) b,
      step-le 0x80 (ltb minor 4) a,
      step-le 0x40 (ltb minor 3) features,
    )

put_u32-apart : (p : Buffer) (v : ℕ) → get_u64 (put_u32 p 8 v) 0 ≡ get_u64 p 0
unfolding get_u64 get_u32 put_u32
put_u32-apart p v = refl

hello_reply-features :
    (feature_bits : ℕ) (request reply : Message) (client most : ℕ)
    → feature_bits < 2 ^ 64
    → get_u64 (hello_reply feature_bits request reply client most).payload 0
      ≡ bit_and (gate_features request.header.minor feature_bits) client
unfolding hello_reply
hello_reply-features feature_bits request reply client most l =
    let features = bit_and (gate_features request.header.minor feature_bits) client in
    let least : features ≤ gate_features request.header.minor feature_bits =
      bit_and-le (gate_features request.header.minor feature_bits) _ client (omega arith) in
    let short : features % 2 ^ 64 ≡ features =
      omega (arith, least, gate_features-le request.header.minor feature_bits) in
    put_u32-apart _ _ ∙ get-put_u64 _ 0 features ∙ short

pub gate_features-bit :
    (minor k features : ℕ)
    → k < 64
    → bit k (gate_features minor features)
      ≡ (if ltb minor (known_since k) then 0 else bit k features)
unfolding gate_features
gate_features-bit minor k features h =
    let a = if ltb minor 3 then without 0x40 features else features in
    let b = if ltb minor 4 then without 0x80 a else a in
    let c = if ltb minor 5 then without 0x302 b else b in
    let d = if ltb minor 6 then without 0x400 c else c in
    step-bit 0x3800 modifier_bit refl (ltb minor 8) k d h
    ∙ later (ltb minor 8 && modifier_bit k) (
        step-bit 0x400 (λ k. k == 10) refl (ltb minor 6) k c h
        ∙ later (ltb minor 6 && k == 10) (
            step-bit 0x302 dmabuf_bit refl (ltb minor 5) k b h
            ∙ later (ltb minor 5 && dmabuf_bit k) (
                step-bit 0x80 (λ k. k == 7) refl (ltb minor 4) k a h
                ∙ later (ltb minor 4 && k == 7)
                    (step-bit 0x40 (λ k. k == 6) refl (ltb minor 3) k features h))))
    ∙ known_since-steps minor k (bit k features)
  where
    later :
        (condition : Bool) {x y : ℕ}
        → x ≡ y
        → (if condition then 0 else x) ≡ (if condition then 0 else y)
    later condition e = ap (λ (t : ℕ). if condition then 0 else t) e

-- For a provider's features of 64 bits and a HELLO with a payload, a feature's bit is set in the
-- reply exactly if the provider has it, the client asks for it, and the client's minor version is
-- one that knows it; versions 3, 4, 5, 6 and 8 introduced theirs.
pub handle_hello-Features :
    (feature_bits : ℕ) (request reply : Message) (k : ℕ)
    → k < 64
    → feature_bits < 2 ^ 64
    → request.header.payload_size ≡ 16
    → bit k (get_u64 (handle_hello feature_bits request reply).payload 0) ≡ (
        if ltb request.header.minor (known_since k)
        then 0
        else min (bit k feature_bits) (bit k (get_u64 request.payload 0)))
unfolding handle_hello
handle_hello-Features feature_bits request reply k h l size =
    let minor = request.header.minor in
    let client = get_u64 request.payload 0 in
    let named : (request.header.payload_size == 0) ≡ false = ground (arith, size) in
    let full : (request.header.payload_size == 16) ≡ true = ground (arith, size) in
    let answered =
      hello_reply-features feature_bits request reply client (get_u32 request.payload 8) l in
    rw
      (
        named,
        full,
        answered,
        bit-bit_and k (gate_features minor feature_bits) client,
        gate_features-bit minor k feature_bits h,
      )
      (masked (ltb minor (known_since k)))
  where
    masked :
        (unknown : Bool)
        → min (if unknown then 0 else bit k feature_bits) (bit k (get_u64 request.payload 0))
          ≡ (if unknown then 0 else min (bit k feature_bits) (bit k (get_u64 request.payload 0)))
    masked true = omega arith
    masked false = refl
