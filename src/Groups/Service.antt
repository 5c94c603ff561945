-- ===== src/Groups/Service.antt =====
-- src/groups/groups.service.ts. The id of a new group, the random invite code and the transaction hash of
-- the on-chain record are arguments, and so are the wallet and the balances that Stellar reports, in
-- units of 10^-7.
pub mod Access
pub mod Joining
use Prim.Native.String.{String}
use dupdap_backend.Base.{
  ℕ, ◌+◌, Bool, true, false, not, ◌&&◌, ◌||◌, ltb, leb, ◌==◌, List, [], ◌∷◌, ◌++◌, Option, none,
  some, Result, ok, err, Dict, lookup, insert, filter, find, any, length, if◌then◌else◌,
}
use dupdap_backend.Groups.Store.{
  CreateGroup, GateToken, Group, GroupError, GroupMember, GroupMemberRole, GroupResponse, Groups,
  UpdateGroup, add_member, admin, already_member, asset, count_members, duplicate, find_by_id,
  find_by_invite_code, forbidden, get_or, group_full, group_not_found, insufficient_balance,
  invalid_code, is_member, is_user, member, members_of, owner, response_from, unverifiable, xlm,
}

-- `createGroup`: `on_chain_id` is `none` where the best-effort record fails.
pub create_group :
    (fresh code : ℕ)
    → (on_chain_id : Option ℕ) → CreateGroup
    → (user : ℕ) → Groups
    → Groups × Result GroupError GroupResponse
create_group fresh code on_chain_id dto user s =
    if any (λ e. e.1.invite_code == code) s.groups
    then (s, err duplicate)
    else (let group : Group = record {
      name = dto.name;
      description = dto.description;
      avatar_url = dto.avatar_url;
      created_by = user;
      max_members = get_or dto.max_members 100;
      is_public = get_or dto.is_public true;
      invite_code = code;
      is_token_gated = false;
      gate_token = none;
      gate_min_balance = none;
      on_chain_id = on_chain_id;
      is_deleted = false;
    } in
        let (s', added) =
          add_member fresh user owner (record s { groups = insert fresh group s.groups }) in
        elim added [ err e ↦ (s', err e) | ok _ ↦ (s', ok (response_from fresh group true s')) ])

-- `getGroup`
unfoldable pub get_group : (id user : ℕ) → Groups → Result GroupError GroupResponse
get_group id user s = elim (find_by_id id s) [
  | none ↦ err group_not_found
  | some group ↦
      let is_in = any (is_user user) (members_of id s) in
      if not group.is_public && not is_in
      then err group_not_found
      else ok (response_from id group is_in s)
]

abbrev pub is_manager_role : GroupMemberRole → Bool
is_manager_role owner = true
is_manager_role admin = true
is_manager_role member = false

abbrev pub is_manager : Option GroupMember → Bool
is_manager none = false
is_manager (some m) = is_manager_role m.role

-- `assertOwnerOrAdmin`
unfoldable pub assert_owner_or_admin : (id user : ℕ) → Groups → Result GroupError Group
assert_owner_or_admin id user s = elim (find_by_id id s) [
  | none ↦ err group_not_found
  | some group ↦
      if is_manager (find (is_user user) (members_of id s)) then ok group else err forbidden
]

-- `Object.assign(group, dto)`
abbrev assign : UpdateGroup → Group → Group
assign dto group = record group {
  name = get_or dto.name group.name;
  description = elim dto.description [ none ↦ group.description | some d ↦ some d ];
  avatar_url = elim dto.avatar_url [ none ↦ group.avatar_url | some a ↦ some a ];
  max_members = get_or dto.max_members group.max_members;
  is_public = get_or dto.is_public group.is_public;
}

-- `repo.save` of a row.
abbrev save_group : ℕ → Group → Groups → Groups
save_group id group s = record s { groups = insert id group s.groups }

-- The row that is saved, read again for the answer.
abbrev saved_response : ℕ → Group → Groups → Groups × Result GroupError GroupResponse
saved_response id group s =
    let s' = save_group id group s in (s', ok (response_from id group true s'))

-- `updateGroup`
unfoldable pub update_group :
    UpdateGroup → (id user : ℕ) → Groups → Groups × Result GroupError GroupResponse
update_group dto id user s = elim (assert_owner_or_admin id user s) [
  | err e ↦ (s, err e)
  | ok group ↦ saved_response id (assign dto group) s
]

-- `deleteGroup`, which marks the row as deleted.
unfoldable pub delete_group : (id user : ℕ) → Groups → Groups × Result GroupError (Unit {0})
delete_group id user s = elim (assert_owner_or_admin id user s) [
  | err e ↦ (s, err e)
  | ok group ↦ (save_group id (record group { is_deleted = true }) s, ok tt)
]

-- The unique index on the invite code.
abbrev pub is_taken : (code id : ℕ) → Groups → Bool
is_taken code id s = any (λ e. e.1.invite_code == code && not (e.0 == id)) s.groups

-- `generateInviteCode`; the answer is the code.
unfoldable pub generate_invite_code : (code id user : ℕ) → Groups → Groups × Result GroupError ℕ
generate_invite_code code id user s = elim (assert_owner_or_admin id user s) [
  | err e ↦ (s, err e)
  | ok group ↦
      if is_taken code id s
      then (s, err duplicate)
      else (save_group id (record group { invite_code = code }) s, ok code)
]

-- `setTokenGate`
unfoldable pub set_token_gate :
    GateToken → (min_balance id user : ℕ) → Groups → Groups × Result GroupError GroupResponse
set_token_gate token min_balance id user s = elim (assert_owner_or_admin id user s) [
  | err e ↦ (s, err e)
  | ok group ↦
      saved_response id
        (record group {
          is_token_gated = true;
          gate_token = some token;
          gate_min_balance = some min_balance;
        })
        s
]

-- `removeTokenGate`
unfoldable pub remove_token_gate : (id user : ℕ) → Groups → Groups × Result GroupError GroupResponse
remove_token_gate id user s = elim (assert_owner_or_admin id user s) [
  | err e ↦ (s, err e)
  | ok group ↦
      saved_response id
        (record group { is_token_gated = false; gate_token = none; gate_min_balance = none }) s
]

-- A balance line of Horizon; the amount is `none` where it is no number.
pub record Balance : Type 0 where
  pub is_native : Bool
  pub code : ℕ
  pub issuer : ℕ
  pub amount : Option ℕ

abbrev pub holds_asset : GateToken → Balance → Bool
holds_asset xlm b = b.is_native
holds_asset (asset code none) b = b.code == code
holds_asset (asset code (some issuer)) b = b.code == code && b.issuer == issuer

-- `parseFloat(balance.balance) < minBalance`; a comparison with NaN is false.
abbrev pub is_below : Option ℕ → ℕ → Bool
is_below none min_balance = false
is_below (some amount) min_balance = ltb amount min_balance

-- `verifyTokenGate`; `balances` is `none` where the user's wallet is not found or Horizon does not
-- answer.
pub verify_token_gate :
    (balances : Option (List Balance))
    → GateToken
    → (min_balance : ℕ) → Result GroupError (Unit {0})
verify_token_gate none token min_balance = err unverifiable
verify_token_gate (some balances) token min_balance = elim (find (holds_asset token) balances) [
  | none ↦ err insufficient_balance
  | some b ↦ if is_below b.amount min_balance then err insufficient_balance else ok tt
]

-- The gate of a group: a token and a balance, if it is on and both are set.
abbrev pub gate_of : Group → Option (GateToken × ℕ)
gate_of group =
    if group.is_token_gated
    then elim group.gate_token [
      | none ↦ none
      | some token ↦ elim group.gate_min_balance [ none ↦ none | some n ↦ some (token, n) ]
    ]
    else none

-- `assertCanJoin`
unfoldable pub assert_can_join :
    (balances : Option (List Balance))
    → (id : ℕ) → Group
    → (user : ℕ) → Groups
    → Result GroupError (Unit {0})
assert_can_join balances id group user s =
    if is_member id user s
    then err already_member
    else if leb group.max_members (count_members id s)
    then err group_full
    else elim (gate_of group) [
      | none ↦ ok tt
      | some (token, n) ↦ verify_token_gate balances token n
    ]

-- `joinByInviteCode`, with no other call in between.
unfoldable pub join_by_invite_code :
    (balances : Option (List Balance))
    → (code user : ℕ) → Groups
    → Groups × Result GroupError GroupResponse
join_by_invite_code balances code user s = elim (find_by_invite_code code s) [
  | none ↦ (s, err invalid_code)
  | some (id, group) ↦ elim (assert_can_join balances id group user s) [
    | err e ↦ (s, err e)
    | ok _ ↦
        let (s', added) = add_member id user member s in
        elim added [ err e ↦ (s', err e) | ok _ ↦ (s', ok (response_from id group true s')) ]
  ]
]
