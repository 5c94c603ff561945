-- ===== src/Webhooks/Destinations.antt =====
-- Where src/webhooks/webhook-delivery.service.ts lets a delivery go (`isPrivateAddress`, `assertSafeUrl`). What
-- Node answers about URLs, addresses and names is an argument. Texts of addresses are lists of code
-- units, in lower case.
pub mod Networks
use Prim.Native.String.{String, compare}
use Prim.Native.Nat.{Ordering}
use dupdap_backend.Base.{
  ℕ, Bool, true, false, not, ◌&&◌, ◌||◌, leb, ◌==◌, List, [], ◌∷◌, Option, none, some, any,
  if◌then◌else◌,
}

pub record ParsedUrl : Type 0 where
  pub is_https : Bool
  pub hostname : List ℕ

-- `new URL`, `net.isIP` (4 with the first two octets, or 6), the address that an IPv4-mapped text ends
-- with, and `dns.promises.lookup`, which may throw.
pub record Node : Type 0 where
  pub parse_url : String → Option ParsedUrl
  pub octets : List ℕ → Option (ℕ × ℕ)
  pub is_v6 : List ℕ → Bool
  pub mapped : List ℕ → Option (List ℕ)
  pub lookup_host : List ℕ → Option (List (List ℕ))

abbrev pub same_text : String → String → Bool
same_text a b = elim (compare a b) [ Ordering.eq ↦ true | _ ↦ false ]

unfoldable pub starts_with : (prefix text : List ℕ) → Bool
starts_with [] text = true
starts_with (c ∷ prefix) [] = false
starts_with (c ∷ prefix) (d ∷ text) = c == d && starts_with prefix text

-- The IPv4 ranges, by the first two octets.
unfoldable pub is_private_v4 : ℕ → ℕ → Bool
is_private_v4 a b =
    a == 10
    || a == 127
    || a == 0
    || (a == 169 && b == 254)
    || (a == 172 && leb 16 b && leb b 31)
    || (a == 192 && b == 168)
    || (a == 100 && leb 64 b && leb b 127)

-- "::1", "::", "fe80", "fc" and "fd"
abbrev v6_loopback : List ℕ
v6_loopback = 58 ∷ 58 ∷ 49 ∷ []

abbrev v6_unspecified : List ℕ
v6_unspecified = 58 ∷ 58 ∷ []

abbrev v6_link_local : List ℕ
v6_link_local = 102 ∷ 101 ∷ 56 ∷ 48 ∷ []

abbrev v6_unique_local : List ℕ
v6_unique_local = 102 ∷ 99 ∷ []

abbrev v6_unique_local_d : List ℕ
v6_unique_local_d = 102 ∷ 100 ∷ []

abbrev same_units : List ℕ → List ℕ → Bool
same_units a b = starts_with a b && starts_with b a

module _ (node : Node) where
  -- An address that is an IPv4 address or none.
  unfoldable pub is_private_quad : List ℕ → Bool
  is_private_quad text = elim (node.octets text) [ none ↦ true | some (a, b) ↦ is_private_v4 a b ]

  unfoldable pub is_private_address : List ℕ → Bool
  is_private_address text = elim (node.octets text) [
    | some (a, b) ↦ is_private_v4 a b
    | none ↦
        if not (node.is_v6 text)
        then true
        else if same_units text v6_loopback || same_units text v6_unspecified
        then true
        else if starts_with v6_link_local text
        then true
        else if starts_with v6_unique_local text || starts_with v6_unique_local_d text
        then true
        else elim (node.mapped text) [ none ↦ false | some quad ↦ is_private_quad quad ]
  ]

  -- The addresses behind a host; `none` is a throw of the lookup.
  unfoldable pub addresses_of : List ℕ → Option (List (List ℕ))
  addresses_of hostname = elim (node.octets hostname) [
    | some octets ↦ some (hostname ∷ [])
    | none ↦ if node.is_v6 hostname then some (hostname ∷ []) else node.lookup_host hostname
  ]

  -- `assertSafeUrl`: whether it returns.
  unfoldable pub is_safe_url : String → Bool
  is_safe_url url = elim (node.parse_url url) [
    | none ↦ false
    | some parsed ↦ if not parsed.is_https then false else elim (addresses_of parsed.hostname) [
      | none ↦ false
      | some [] ↦ false
      | some (address ∷ addresses) ↦ not (any is_private_address (address ∷ addresses))
    ]
  ]
