-- ===== src/Webhooks/Destinations/Networks.antt =====
-- The networks that deliveries keep out of (`isPrivateAddress` of src/webhooks/webhook-delivery.service.ts), by
-- their numbers.
use dupdap_backend.Base.{
  ℕ, ◌+◌, ◌-◌, ◌*◌, ◌^◌, ◌<◌, ◌≤◌, ◌≡◌, ◌≢◌, ◌⊎◌, Bool, true, false, ◌++◌, ◌||◌, List, [], ◌∷◌,
  some, All, arith, Bool-cases, Option-cases, inl, inr, subst, ap, refl,
}
use dupdap_backend.Webhooks.Destinations.{
  Node, is_private_v4, is_private_quad, is_private_address, starts_with, same_units, v6_loopback,
  v6_unspecified, v6_link_local, v6_unique_local, v6_unique_local_d,
}

-- What is documented of addresses: an octet is less than 256.
pub record IsNode (node : Node) : Type 0 where
  pub octets-bounded :
      {text : List ℕ} {a b : ℕ} → node.octets text ≡ some (a, b) → (a < 256) × (b < 256)

-- The networks 10.0.0.0/8, 127.0.0.0/8, 0.0.0.0/8, 169.254.0.0/16, 172.16.0.0/12, 192.168.0.0/16 and
-- 100.64.0.0/10: the first 16 bits of the network, and the length of the prefix.
abbrev pub private_networks : List (ℕ × ℕ)
private_networks =
    (10 * 256, 8)
    ∷ (127 * 256, 8)
    ∷ (0, 8)
    ∷ (169 * 256 + 254, 16)
    ∷ (172 * 256 + 16, 12)
    ∷ (192 * 256 + 168, 16)
    ∷ (100 * 256 + 64, 10)
    ∷ []

-- The first 16 bits of an address are not those of the network.
abbrev pub IsOutside : ℕ → ℕ × ℕ → Type 0
IsOutside bits (network, prefix) = (bits < network) ⊎ (network + 2 ^ (16 - prefix) ≤ bits)

-- A text does not begin like that.
abbrev pub IsNotBehind : (prefix text : List ℕ) → Type 0
IsNotBehind prefix text = (rest : List ℕ) → text ≢ prefix ++ rest

is_private_v4-IsOutside :
    (a b : ℕ) → b < 256 → is_private_v4 a b ≡ false → All (IsOutside (a * 256 + b)) private_networks
unfolding is_private_v4
is_private_v4-IsOutside a b small h = (
  ground arith,
  (
    ground arith,
    (ground arith, (ground arith, (ground arith, (ground arith, (ground arith, tt))))),
  ),
)

starts_with-append : (prefix rest : List ℕ) → starts_with prefix (prefix ++ rest) ≡ true
unfolding starts_with
starts_with-append [] rest = refl
starts_with-append (c ∷ prefix) rest = let ih = starts_with-append prefix rest in ground arith

starts_with-IsNotBehind :
    (prefix text : List ℕ) → starts_with prefix text ≡ false → IsNotBehind prefix text
starts_with-IsNotBehind prefix text h rest same =
    cc (h, ap (starts_with prefix) same, starts_with-append prefix rest)

starts_with_refl : (text : List ℕ) → starts_with text text ≡ true
unfolding starts_with
starts_with_refl [] = refl
starts_with_refl (c ∷ text) = let ih = starts_with_refl text in ground arith

same_units_refl : (text : List ℕ) → same_units text text ≡ true
same_units_refl text = rw starts_with_refl refl

same_units-differ : (text other : List ℕ) → same_units text other ≡ false → text ≢ other
same_units-differ text other h same =
    cc (same_units_refl other, subst (λ t. same_units t other ≡ false) same h)

or-false : (a b : Bool) → (a || b) ≡ false → (a ≡ false) × (b ≡ false)
or-false false b h = (refl, h)
or-false true b h = cc h

module _ (node : Node) where
  -- An IPv4 address outside the private networks.
  abbrev pub IsPublicQuad : List ℕ → Type 0
  IsPublicQuad text =
      (a : ℕ) × (b : ℕ) × (node.octets text ≡ some (a, b))
      × All (IsOutside (a * 256 + b)) private_networks

  -- An IPv6 address that is not "::1" or "::", does not begin with "fe80", "fc" or "fd" and has, if it
  -- is an IPv4-mapped address, a public IPv4 address in it.
  abbrev pub IsPublicV6 : List ℕ → Type 0
  IsPublicV6 text =
      (node.is_v6 text ≡ true)
      × (text ≢ v6_loopback)
      × (text ≢ v6_unspecified)
      × IsNotBehind v6_link_local text
      × IsNotBehind v6_unique_local text
      × IsNotBehind v6_unique_local_d text
      × ((quad : List ℕ) → node.mapped text ≡ some quad → IsPublicQuad quad)

  module _ (laws : IsNode node) where
    is_private_quad-IsPublicQuad :
        (text : List ℕ) → is_private_quad node text ≡ false → IsPublicQuad text
    unfolding is_private_quad
    is_private_quad-IsPublicQuad text h = elim (Option-cases (node.octets text)) [
      | inl no_quad ↦ cc (rw (no_quad, is_private_quad) at h)
      | inr ((a, b), is_quad) ↦ (
        a,
        b,
        is_quad,
        is_private_v4-IsOutside a b (laws.octets-bounded is_quad).1
            (rw (is_quad, is_private_quad) at h),
      )
    ]

    tests-IsPublicV6 :
        (text : List ℕ)
        → node.is_v6 text ≡ true
        → (same_units text v6_loopback || same_units text v6_unspecified) ≡ false
        → starts_with v6_link_local text ≡ false
        → (starts_with v6_unique_local text || starts_with v6_unique_local_d text) ≡ false
        → ((quad : List ℕ) → node.mapped text ≡ some quad → is_private_quad node quad ≡ false)
        → IsPublicV6 text
    tests-IsPublicV6 text v6 no_loop no_link no_local quads =
        let loops =
          or-false (same_units text v6_loopback) (same_units text v6_unspecified) no_loop in
        let locals =
          or-false (starts_with v6_unique_local text) (starts_with v6_unique_local_d text)
            no_local in
        (
          v6,
          same_units-differ text v6_loopback loops.0,
          same_units-differ text v6_unspecified loops.1,
          starts_with-IsNotBehind v6_link_local text no_link,
          starts_with-IsNotBehind v6_unique_local text locals.0,
          starts_with-IsNotBehind v6_unique_local_d text locals.1,
          λ quad is_mapped. is_private_quad-IsPublicQuad quad (quads quad is_mapped),
        )

    pub is_private_address-IsPublic :
        (text : List ℕ) → is_private_address node text ≡ false → IsPublicQuad text ⊎ IsPublicV6 text
    unfolding is_private_address
    is_private_address-IsPublic text h = elim (Option-cases (node.octets text)) [
      | inr ((a, b), is_quad) ↦ inl (
        a,
        b,
        is_quad,
        is_private_v4-IsOutside a b (laws.octets-bounded is_quad).1
            (rw (is_quad, is_private_address) at h),
      )
      | inl no_quad ↦
          let loops = same_units text v6_loopback || same_units text v6_unspecified in
          let unique = starts_with v6_unique_local text || starts_with v6_unique_local_d text in
          elim (Bool-cases (node.is_v6 text)) [
            | inr other ↦ cc (rw other at (rw (no_quad, is_private_address) at h))
            | inl v6 ↦ elim (Bool-cases loops) [
              | inl bad ↦ cc (rw bad at (rw v6 at (rw (no_quad, is_private_address) at h)))
              | inr no_loop ↦ elim (Bool-cases (starts_with v6_link_local text)) [
                | inl bad ↦
                    cc
                      (rw bad at (rw no_loop at (rw v6 at (rw (no_quad, is_private_address) at h))))
                | inr no_link ↦ elim (Bool-cases unique) [
                  | inl bad ↦ cc (
                      rw bad at (
                        rw no_link at
                          (rw no_loop at (rw v6 at (rw (no_quad, is_private_address) at h)))))
                  | inr no_local ↦
                      let rest = rw no_local at (
                        rw no_link at
                          (rw no_loop at (rw v6 at (rw (no_quad, is_private_address) at h)))) in
                      inr (
                        tests-IsPublicV6 text v6 no_loop no_link no_local
                          (λ quad is_mapped. rw is_mapped at rest))
                ]
              ]
            ]
          ]
    ]
