-- ===== src/Security/IpAllowlist.antt =====
-- `ipInCidr`, `isValidIpOrCidr` and the guard of src/security/ip-allowlist.guard.ts. A text is a list of code units. A
-- 32-bit number keeps its wrap-around written out; `&` with a mask whose low bits are clear takes the rest
-- of the division off.
pub mod Networks
use dupdap_backend.Base.{
  ℕ, zero, suc, ◌+◌, ◌-◌, ◌*◌, ◌/◌, ◌%◌, ◌^◌, Bool, true, false, not, ◌&&◌, ltb, leb, ◌==◌, List,
  [], ◌∷◌, ◌++◌, Option, none, some, all, length, if◌then◌else◌, split_on, ◌||◌, any, filter, map,
  is_empty, same_text, trim, trim_start,
}
use dupdap_backend.Security.Ipv6.{is_digit, is_octet_text, number_of, ipv6_in_cidr}

-- `text.split('.')`
abbrev pub split_dots : List ℕ → List (List ℕ)
split_dots = split_on 46 []

-- A number as the bit operations see it: NaN, which is `none`, is 0 to them.
abbrev bits_of : Option ℕ → ℕ
bits_of none = 0
bits_of (some n) = n % 2 ^ 32

-- The `reduce` over the octets.
unfoldable pub reduce_octets : Option ℕ → List (List ℕ) → Option ℕ
reduce_octets acc [] = acc
reduce_octets acc (octet ∷ octets) =
    let value = number_of 0 octet in
    reduce_octets
      (if is_octet_text octet
        then (if ltb 255 value then none else some (bits_of acc * 256 % 2 ^ 32 + value))
        else none)
      octets

-- NaN is `none`.
unfoldable pub to_int : List ℕ → Option ℕ
to_int addr =
    let octets = split_dots addr in
    if length octets == 4 then some (bits_of (reduce_octets (some 0) octets)) else none

-- `1 << n`, which takes `n` modulo 32.
unfoldable pub one_shifted : ℕ → ℕ
one_shifted n = 2 ^ (n % 32)

-- `x & mask`, where the mask is `~((1 << (32 - bits)) - 1)`.
unfoldable pub masked : (bits x : ℕ) → ℕ
masked bits x = x - x % one_shifted (32 - bits)

-- The end of `ipInCidr`, where neither text is an IPv6 address and the prefix length is a number.
unfoldable pub ipv4_in_cidr : (ip range : List ℕ) (bits : ℕ) → Bool
ipv4_in_cidr ip range bits = if ltb 32 bits then false else elim (to_int ip) [
  | none ↦ false
  | some ip_int ↦ elim (to_int range) [
    | none ↦ false
    | some range_int ↦ masked bits ip_int == masked bits range_int
  ]
]

-- `parseInt(text, 10)`: the sign and the digits behind white space; `none` is NaN.
digits_of : (seen : Option ℕ) → List ℕ → Option ℕ
digits_of seen [] = seen
digits_of seen (c ∷ text) =
    let acc : ℕ = elim seen [ none ↦ 0 | some n ↦ n ] in
    if is_digit c then digits_of (some (acc * 10 + (c - 48))) text else seen

pub data Parsed : Type 0 where
  nan : Parsed
  positive negative : ℕ → Parsed

unfoldable pub parse_int : List ℕ → Parsed
unfolding digits_of
parse_int text = elim (trim_start text) [
  | [] ↦ nan
  | c ∷ rest ↦
      let unsigned = if c == 45 || c == 43 then rest else c ∷ rest in
      elim (digits_of none unsigned) [
        | none ↦ nan
        | some n ↦ if c == 45 && not (n == 0) then negative n else positive n
      ]
]

-- `cidr.split('/')` of a text with a slash: the address and the text of the prefix.
unfoldable pub ip_in_range : (ip : List ℕ) (parts : List (List ℕ)) → Bool
unfolding parse_int ipv4_in_cidr
ip_in_range ip (range ∷ bits_raw ∷ parts) = elim (parse_int bits_raw) [
  | nan ↦ false
  | negative n ↦ false
  | positive bits ↦
      if any (λ c. c == 58) ip || any (λ c. c == 58) range
      then ipv6_in_cidr ip range bits
      else ipv4_in_cidr ip range bits
]
ip_in_range ip parts = false

unfoldable pub ip_in_cidr : (ip cidr : List ℕ) → Bool
unfolding ip_in_range
ip_in_cidr ip cidr =
    if any (λ c. c == 47) cidr then ip_in_range ip (split_on 47 [] cidr) else same_text ip cidr

-- `isValidIpOrCidr`. `isIP` of Node is a parameter: 0, 4 or 6.
unfoldable pub is_valid_ip_or_cidr : (is_ip : List ℕ → ℕ) → List ℕ → Bool
unfolding is_octet_text number_of
is_valid_ip_or_cidr is_ip entry = elim (split_on 47 [] entry) [
  | [] ↦ false
  | addr ∷ [] ↦ not (is_ip addr == 0)
  | addr ∷ prefix ∷ [] ↦
      not (is_ip addr == 0)
      && (is_octet_text prefix && leb (number_of 0 prefix) (if is_ip addr == 4 then 32 else 128))
  | addr ∷ prefix ∷ next ∷ rest ↦ false
]

-- `canActivate` of IpAllowlistGuard: whether the request passes. `allowed_ips` is the setting
-- ADMIN_ALLOWED_IPS, and `bypass` says that the two settings of the bypass are on.
unfoldable pub can_activate : (bypass : Bool) (allowed_ips client_ip : List ℕ) → Bool
unfolding ip_in_cidr
can_activate bypass allowed_ips client_ip =
    let allowed_entries =
      filter (λ entry. not (is_empty entry)) (map trim (split_on 44 [] allowed_ips)) in
    if bypass
    then true
    else not (length allowed_entries == 0) && any (ip_in_cidr client_ip) allowed_entries
