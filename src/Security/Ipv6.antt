-- ===== src/Security/Ipv6.antt =====
-- `ipv6ToBytes` and `ipv6InCidr` of src/security/ip-allowlist.guard.ts. A text is a list of code units; NaN and null are
-- `none`. Of the white space that `trim` takes away, the space and the ASCII controls are modelled.
use dupdap_backend.Base.{
  ℕ, zero, suc, ◌+◌, ◌-◌, ◌*◌, ◌/◌, ◌%◌, ◌^◌, Bool, true, false, not, ◌&&◌, ◌||◌, ltb, leb, ◌==◌,
  List, [], ◌∷◌, ◌++◌, Option, none, some, all, any, filter, length, take, if◌then◌else◌, is_empty,
  split_on, trim,
}

abbrev pub is_digit : ℕ → Bool
is_digit c = leb 48 c && leb c 57

-- `/^\d{1,3}$/`
unfoldable pub is_octet_text : List ℕ → Bool
is_octet_text text = all is_digit text && leb 1 (length text) && leb (length text) 3

-- `parseInt` of digits.
unfoldable pub number_of : (acc : ℕ) → List ℕ → ℕ
number_of acc [] = acc
number_of acc (c ∷ text) = number_of (acc * 10 + (c - 48)) text

-- A hexadecimal digit.
hex_digit : ℕ → Option ℕ
hex_digit c =
    if is_digit c
    then some (c - 48)
    else (if leb 65 c && leb c 70
        then some (c - 55)
        else (if leb 97 c && leb c 102 then some (c - 87) else none))

-- `parseInt(part, 16)` of digits; `none` if there is another character.
hex_number : (acc : ℕ) → List ℕ → Option ℕ
hex_number acc [] = some acc
hex_number acc (c ∷ text) = elim (hex_digit c) [
  | none ↦ none
  | some d ↦ hex_number (acc * 16 + d) text
]

-- `/^[0-9a-fA-F]{1,4}$/` and the number.
unfoldable pub parse_group : List ℕ → Option ℕ
unfolding hex_digit hex_number
parse_group part = if is_empty part || ltb 4 (length part) then none else hex_number 0 part

unfoldable pub parse_groups : List (List ℕ) → Option (List ℕ)
unfolding parse_group
parse_groups [] = some []
parse_groups (part ∷ parts) =
    let rest = parse_groups parts in
    elim (parse_group part) [
      | none ↦ none
      | some group ↦ elim rest [ none ↦ none | some groups ↦ some (group ∷ groups) ]
    ]

-- The part before the first `%`.
unfoldable pub strip_zone : List ℕ → List ℕ
strip_zone [] = []
strip_zone (c ∷ text) = let rest = strip_zone text in if c == 37 then [] else c ∷ rest

ends_with_bracket : List ℕ → Bool
ends_with_bracket [] = false
ends_with_bracket (c ∷ []) = c == 93
ends_with_bracket (c ∷ d ∷ text) = ends_with_bracket (d ∷ text)

-- `input.slice(1, -1)` of a text in brackets.
unfoldable pub strip_brackets : List ℕ → List ℕ
unfolding ends_with_bracket
strip_brackets [] = []
strip_brackets (c ∷ text) =
    if c == 91 && ends_with_bracket (c ∷ text) then take (length text - 1) text else c ∷ text

-- `input.slice(lastColon + 1)`
unfoldable pub after_last_colon : List (List ℕ) → List ℕ
after_last_colon [] = []
after_last_colon (part ∷ []) = part
after_last_colon (part ∷ next ∷ parts) = after_last_colon (next ∷ parts)

-- The parts before and after the first `::`.
unfoldable pub split_double : (before text : List ℕ) → Option (List ℕ × List ℕ)
split_double before [] = none
split_double before (c ∷ []) = none
split_double before (c ∷ d ∷ text) =
    let later = split_double (before ++ c ∷ []) (d ∷ text) in
    if c == 58 && d == 58 then some (before, text) else later

-- A dotted quad as two groups.
unfoldable pub dotted_groups : List (List ℕ) → Option (List ℕ)
unfolding is_octet_text number_of
dotted_groups (a ∷ b ∷ c ∷ d ∷ []) =
    let valid = λ (o : List ℕ). is_octet_text o && leb (number_of 0 o) 255 in
    if valid a && (valid b && (valid c && valid d))
    then some ((number_of 0 a * 256 + number_of 0 b) ∷ (number_of 0 c * 256 + number_of 0 d) ∷ [])
    else none
dotted_groups octets = none

unfoldable pub zeros : ℕ → List ℕ
zeros zero = []
zeros (suc n) = 0 ∷ zeros n

-- `[(group >> 8) & 0xff, group & 0xff]` of each group.
unfoldable pub bytes_of : List ℕ → List ℕ
bytes_of [] = []
bytes_of (group ∷ groups) = group / 256 % 256 ∷ group % 256 ∷ bytes_of groups

-- `.split(':').filter(Boolean)`
abbrev colon_parts : List ℕ → List (List ℕ)
colon_parts text = filter (λ part. not (is_empty part)) (split_on 58 [] text)

-- The groups, once the dotted quad is taken off.
unfoldable pub groups_of : (input tail_groups : List ℕ) → Option (List ℕ)
unfolding split_double parse_groups zeros
groups_of input tail_groups = elim (split_double [] input) [
  | none ↦ elim (parse_groups (colon_parts input)) [
    | none ↦ none
    | some head ↦ if length (head ++ tail_groups) == 8 then some (head ++ tail_groups) else none
  ]
  | some (before, after) ↦ elim (split_double [] (58 ∷ after)) [
    | some other ↦ none
    | none ↦ elim (parse_groups (colon_parts before)) [
      | none ↦ none
      | some head ↦ elim (parse_groups (colon_parts after)) [
        | none ↦ none
        | some tail ↦
            let explicit = head ++ tail ++ tail_groups in
            if ltb 7 (length explicit)
            then none
            else some (head ++ zeros (8 - length explicit) ++ tail ++ tail_groups)
      ]
    ]
  ]
]

unfoldable pub ipv6_to_bytes : List ℕ → Option (List ℕ)
unfolding strip_zone strip_brackets after_last_colon dotted_groups groups_of bytes_of
ipv6_to_bytes addr =
    let input = strip_zone (strip_brackets (trim addr)) in
    let tail = after_last_colon (split_on 58 [] input) in
    if is_empty input
    then none
    else (if any (λ c. c == 46) tail
        then elim (dotted_groups (split_on 46 [] tail)) [
          | none ↦ none
          | some tail_groups ↦
              elim (groups_of (take (length input - length tail) input) tail_groups) [
                | none ↦ none
                | some groups ↦ some (bytes_of groups)
              ]
        ]
        else elim (groups_of input []) [ none ↦ none | some groups ↦ some (bytes_of groups) ])

-- `x & mask` of a byte, where the mask is `(0xff << (8 - remaining)) & 0xff`.
abbrev pub masked_byte : (remaining x : ℕ) → ℕ
masked_byte remaining x = x - x % 2 ^ (8 - remaining)

-- The loop over the full bytes, then the comparison of the one that is cut.
unfoldable pub same_bytes : (bits : ℕ) (ip range : List ℕ) → Bool
same_bytes bits [] range = true
same_bytes bits (x ∷ ip) [] = true
same_bytes bits (x ∷ ip) (y ∷ range) =
    let rest = same_bytes (bits - 8) ip range in
    if leb 8 bits
    then x == y && rest
    else (if bits == 0 then true else masked_byte bits x == masked_byte bits y)

unfoldable pub ipv6_in_cidr : (ip range : List ℕ) (bits : ℕ) → Bool
unfolding same_bytes
ipv6_in_cidr ip range bits = if ltb 128 bits then false else elim (ipv6_to_bytes ip) [
  | none ↦ false
  | some ip_bytes ↦ elim (ipv6_to_bytes range) [
    | none ↦ false
    | some range_bytes ↦ same_bytes bits ip_bytes range_bytes
  ]
]
