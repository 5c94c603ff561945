-- ===== src/Examples/GroupRuns.antt =====
-- Runs of the theorems about src/groups.
use dupdap_backend.Base.{ℕ, ◌+◌, ◌≤◌, ◌≡◌, refl, true, false, List, [], ◌∷◌, none, some, ok}
use dupdap_backend.Groups.Store.{
  owner, GroupMember, Group, Groups, GroupResponse, Sensitive, find_by_id, members_of,
  find_by_invite_code, count_members, is_member, add_member, response_from,
}
use dupdap_backend.Groups.Service.{
  get_group, delete_group, assert_owner_or_admin, gate_of, assert_can_join, join_by_invite_code,
}
use dupdap_backend.Groups.Service.Access.{
  ManagerCall, deletes, generates_invite_code, removes_token_gate, perform_each,
  perform_each-outsiders,
}
use dupdap_backend.Groups.Service.Joining.{PassesGate, join_by_invite_code-admits}

abbrev club : Group
club = record {
  name = "club";
  description = none;
  avatar_url = none;
  created_by = 1;
  max_members = 3;
  is_public = false;
  invite_code = 77;
  is_token_gated = false;
  gate_token = none;
  gate_min_balance = none;
  on_chain_id = none;
  is_deleted = false;
}

abbrev founder : GroupMember
founder = record { group_id = 5; user_id = 1; role = owner }

abbrev world : Groups
world = record { groups = (5, club) ∷ []; members = founder ∷ [] }

-- User 2 is no member, and group 6 does not exist.
abbrev attempts : List (ManagerCall × ℕ × ℕ)
attempts = (deletes, 5, 2) ∷ (generates_invite_code 78, 5, 2) ∷ (removes_token_gate, 6, 1) ∷ []

perform_each-outsiders_example : perform_each attempts world ≡ world
perform_each-outsiders_example = perform_each-outsiders attempts world (refl, (refl, (refl, tt)))

founder-delete_group :
    (perform_each ((deletes, 5, 1) ∷ []) world).groups ≡ (5, record club { is_deleted = true }) ∷ []
unfolding perform_each delete_group assert_owner_or_admin find_by_id members_of
founder-delete_group = refl

abbrev secrets : Sensitive
secrets = record {
  created_by = 1;
  invite_code = 77;
  gate_token = none;
  gate_min_balance = none;
  on_chain_id = none;
}

abbrev seen : (id : ℕ) → (count : ℕ) → GroupResponse
seen id count = record {
  id = id;
  name = "club";
  description = none;
  avatar_url = none;
  max_members = 3;
  is_public = false;
  is_token_gated = false;
  member_count = count;
  sensitive = some secrets;
}

founder-get_group : get_group 5 1 world ≡ ok (seen 5 1)
unfolding get_group find_by_id response_from
founder-get_group = refl

guest-join_by_invite_code : (join_by_invite_code none 77 2 world).1 ≡ ok (seen 5 2)
unfolding join_by_invite_code find_by_invite_code assert_can_join is_member count_members add_member
    response_from
guest-join_by_invite_code = refl

join_by_invite_code-admits_example :
    let s' = (join_by_invite_code none 77 2 world).0 in
    (id : ℕ) × (group : Group) × (find_by_invite_code 77 world ≡ some (id, group))
    × (is_member id 2 world ≡ false)
    × (is_member id 2 s' ≡ true)
    × (count_members id s' ≡ count_members id world + 1)
    × (count_members id s' ≤ group.max_members)
    × PassesGate none (gate_of group)
join_by_invite_code-admits_example =
    join_by_invite_code-admits none 77 2 world {answer = seen 5 2} guest-join_by_invite_code
