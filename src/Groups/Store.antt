-- ===== src/Groups/Store.antt =====
-- The tables of src/groups/entities, the queries of src/groups/groups.repository.ts, and the answers of
-- src/groups/dto/groups.dto.ts. A unique index of a table refuses a duplicate, which is the error
-- `duplicate`. The search is a paged query and is left out.
use Prim.Native.String.{String}
use dupdap_backend.Base.{
  ℕ, Bool, not, ◌&&◌, ◌==◌, List, [], ◌∷◌, ◌++◌, Option, none, some, Result, ok, err, Dict, lookup,
  filter, find, any, length, if◌then◌else◌,
}

pub data GroupMemberRole : Type 0 where
  owner admin member : GroupMemberRole

pub record GroupMember : Type 0 where
  pub group_id : ℕ
  pub user_id : ℕ
  pub role : GroupMemberRole

-- `gateTokenAddress`, split at the colon: `XLM`, or a code with an issuer or without.
pub data GateToken : Type 0 where
  xlm : GateToken
  asset : (code : ℕ) → (issuer : Option ℕ) → GateToken

pub record Group : Type 0 where
  pub name : String
  pub description : Option String
  pub avatar_url : Option String
  pub created_by : ℕ
  pub max_members : ℕ
  pub is_public : Bool
  pub invite_code : ℕ
  pub is_token_gated : Bool
  pub gate_token : Option GateToken
  pub gate_min_balance : Option ℕ
  pub on_chain_id : Option ℕ
  pub is_deleted : Bool

pub record Groups : Type 0 where
  pub groups : Dict Group
  pub members : List GroupMember

pub data GroupError : Type 0 where
  group_not_found invalid_code forbidden already_member group_full : GroupError
  unverifiable insufficient_balance duplicate : GroupError

-- The fields that only a member sees.
pub record Sensitive : Type 0 where
  pub created_by : ℕ
  pub invite_code : ℕ
  pub gate_token : Option GateToken
  pub gate_min_balance : Option ℕ
  pub on_chain_id : Option ℕ

pub record GroupResponse : Type 0 where
  pub id : ℕ
  pub name : String
  pub description : Option String
  pub avatar_url : Option String
  pub max_members : ℕ
  pub is_public : Bool
  pub is_token_gated : Bool
  pub member_count : ℕ
  pub sensitive : Option Sensitive

pub record CreateGroup : Type 0 where
  pub name : String
  pub description : Option String
  pub avatar_url : Option String
  pub max_members : Option ℕ
  pub is_public : Option Bool

-- The fields that an update names.
pub record UpdateGroup : Type 0 where
  pub name : Option String
  pub description : Option String
  pub avatar_url : Option String
  pub max_members : Option ℕ
  pub is_public : Option Bool

abbrev pub in_group : ℕ → GroupMember → Bool
in_group id m = m.group_id == id

abbrev pub is_user : ℕ → GroupMember → Bool
is_user user m = m.user_id == user

abbrev pub members_of : ℕ → Groups → List GroupMember
members_of id s = filter (in_group id) s.members

-- `findByIdWithMembers`, whose members are `members_of`.
unfoldable pub find_by_id : ℕ → Groups → Option Group
find_by_id id s = elim (lookup id s.groups) [
  | none ↦ none
  | some group ↦ if group.is_deleted then none else some group
]

-- `findByInviteCode`
unfoldable pub find_by_invite_code : ℕ → Groups → Option (ℕ × Group)
find_by_invite_code code s = find (λ e. e.1.invite_code == code && not e.1.is_deleted) s.groups

unfoldable pub count_members : ℕ → Groups → ℕ
count_members id s = length (members_of id s)

unfoldable pub is_member : ℕ → ℕ → Groups → Bool
is_member id user s = any (λ m. in_group id m && is_user user m) s.members

unfoldable pub add_member : ℕ → ℕ → GroupMemberRole → Groups → Groups × Result GroupError (Unit {0})
unfolding is_member
add_member id user role s = if is_member id user s then (s, err duplicate) else (
  record s { members = s.members ++ record { group_id = id; user_id = user; role = role } ∷ [] },
  ok tt,
)

-- `GroupResponseDto.from`
unfoldable pub response_from : ℕ → Group → Bool → Groups → GroupResponse
response_from id group include_sensitive s = record {
  id = id;
  name = group.name;
  description = group.description;
  avatar_url = group.avatar_url;
  max_members = group.max_members;
  is_public = group.is_public;
  is_token_gated = group.is_token_gated;
  member_count = length (members_of id s);
  sensitive =
      if include_sensitive
      then some (record {
        created_by = group.created_by;
        invite_code = group.invite_code;
        gate_token = group.gate_token;
        gate_min_balance = group.gate_min_balance;
        on_chain_id = group.on_chain_id;
      })
      else none;
}

abbrev pub get_or {ℓ} : {A : Type ℓ} → Option A → A → A
get_or none fallback = fallback
get_or (some a) fallback = a
