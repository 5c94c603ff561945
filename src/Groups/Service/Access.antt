-- ===== src/Groups/Service/Access.antt =====
-- Who may see and change a group (src/groups/groups.service.ts).
use dupdap_backend.Base.{
  ℕ, ◌≡◌, ◌∙◌, ap, All, List, [], ◌∷◌, refl, ◌⊎◌, ◌↔◌, inl, inr, Bool, true, false, any, find, none,
  some, ok, err, Option-cases, Bool-cases, arith,
}
use dupdap_backend.Groups.Store.{
  GateToken, GroupError, UpdateGroup, Group, GroupResponse, Groups, Sensitive, group_not_found,
  forbidden, is_user, members_of, find_by_id, response_from,
}
use dupdap_backend.Groups.Service.{
  get_group, is_manager, assert_owner_or_admin, update_group, delete_group, generate_invite_code,
  set_token_gate, remove_token_gate,
}

-- The caller holds the group as an owner or admin.
abbrev pub manages : (id user : ℕ) → Groups → Bool
manages id user s = is_manager (find (is_user user) (members_of id s))

assert_owner_or_admin-refuses :
    (id user : ℕ) (s : Groups)
    → manages id user s ≡ false
    → (e : GroupError) × (assert_owner_or_admin id user s ≡ err e)
unfolding assert_owner_or_admin
assert_owner_or_admin-refuses id user s outside = elim (Option-cases (find_by_id id s)) [
  | inl unknown ↦ (group_not_found, rw (assert_owner_or_admin, unknown) refl)
  | inr (group, found) ↦ (forbidden, rw (assert_owner_or_admin, found) (rw outside refl))
]

-- The calls that are for owners and admins, by a user about a group.
pub data ManagerCall : Type 0 where
  updates : UpdateGroup → ManagerCall
  deletes : ManagerCall
  generates_invite_code : (code : ℕ) → ManagerCall
  sets_token_gate : GateToken → (min_balance : ℕ) → ManagerCall
  removes_token_gate : ManagerCall

unfoldable pub perform : ManagerCall → (id user : ℕ) → Groups → Groups
perform (updates dto) id user s = (update_group dto id user s).0
perform deletes id user s = (delete_group id user s).0
perform (generates_invite_code code) id user s = (generate_invite_code code id user s).0
perform (sets_token_gate token min_balance) id user s =
    (set_token_gate token min_balance id user s).0
perform removes_token_gate id user s = (remove_token_gate id user s).0

unfoldable pub perform_each : List (ManagerCall × ℕ × ℕ) → Groups → Groups
unfolding perform
perform_each [] s = s
perform_each ((call, id, user) ∷ calls) s = perform_each calls (perform call id user s)

perform-outsider :
    (call : ManagerCall) (id user : ℕ) (s : Groups)
    → manages id user s ≡ false
    → perform call id user s ≡ s
unfolding perform update_group delete_group generate_invite_code set_token_gate remove_token_gate
perform-outsider (updates dto) id user s outside =
    rw (perform, update_group, (assert_owner_or_admin-refuses id user s outside).1) refl
perform-outsider deletes id user s outside =
    rw (perform, delete_group, (assert_owner_or_admin-refuses id user s outside).1) refl
perform-outsider (generates_invite_code code) id user s outside =
    rw (perform, generate_invite_code, (assert_owner_or_admin-refuses id user s outside).1) refl
perform-outsider (sets_token_gate token min_balance) id user s outside =
    rw (perform, set_token_gate, (assert_owner_or_admin-refuses id user s outside).1) refl
perform-outsider removes_token_gate id user s outside =
    rw (perform, remove_token_gate, (assert_owner_or_admin-refuses id user s outside).1) refl

-- Users who are neither owner nor admin of the groups that they name (also of groups that do not exist)
-- change nothing, however many calls they make and in whatever order: no group is updated or deleted, and
-- no invite code or token gate is set or removed.
pub perform_each-outsiders :
    (calls : List (ManagerCall × ℕ × ℕ)) (s : Groups)
    → All (λ c. manages c.1 c.2 s ≡ false) calls
    → perform_each calls s ≡ s
unfolding perform_each
perform_each-outsiders [] s outside = refl
perform_each-outsiders ((call, id, user) ∷ calls) s outside =
    ap (perform_each calls) (perform-outsider call id user s outside.0)
    ∙ perform_each-outsiders calls s outside.1

-- The two ways in which a group is not found.
abbrev pub IsHidden : (id user : ℕ) → Groups → Type 0
IsHidden id user s =
    (find_by_id id s ≡ none)
    ⊎ ((group : Group) × (find_by_id id s ≡ some group)
        × (group.is_public ≡ false)
        × (any (is_user user) (members_of id s) ≡ false))

-- The answer to a caller, once the group is known.
get_group-cases :
    (id user : ℕ) (s : Groups)
    → (get_group id user s ≡ err group_not_found) × IsHidden id user s
      ⊎ ((group : Group) × (find_by_id id s ≡ some group)
          × ((group.is_public ≡ true) ⊎ (any (is_user user) (members_of id s) ≡ true))
          × (get_group id user s
              ≡ ok (response_from id group (any (is_user user) (members_of id s)) s)))
unfolding get_group
get_group-cases id user s = elim (Option-cases (find_by_id id s)) [
  | inl unknown ↦ inl (rw (unknown, get_group) refl, inl unknown)
  | inr (group, found) ↦ elim (Bool-cases group.is_public) [
    | inl public_ ↦ inr (group, found, inl public_, rw (found, get_group) (rw public_ refl))
    | inr private_ ↦ elim (Bool-cases (any (is_user user) (members_of id s))) [
      | inl inside ↦
          inr (group, found, inr inside, rw (found, get_group) (rw (private_, inside) refl))
      | inr outside ↦ inl (
        rw (found, get_group) (rw (private_, outside) refl),
        inr (group, found, private_, outside),
      )
    ]
  ]
]

visible-contradiction :
    (id user : ℕ) (s : Groups) {group : Group} {P : Type 0}
    → find_by_id id s ≡ some group
    → (group.is_public ≡ true) ⊎ (any (is_user user) (members_of id s) ≡ true)
    → IsHidden id user s
    → P
visible-contradiction id user s found seen (inl unknown) = cc
visible-contradiction id user s found (inl public_) (inr (other, same, private_, outside)) = cc
visible-contradiction id user s found (inr inside) (inr (other, same, private_, outside)) = cc

-- The service answers that a group does not exist exactly when it does not, or when it is private and
-- the caller is not a member: nobody else can tell a private group from none.
get_group_not_found_iff :
    (id user : ℕ) (s : Groups) → (get_group id user s ≡ err group_not_found) ↔ IsHidden id user s
get_group_not_found_iff id user s = elim (get_group-cases id user s) [
  | inl (refused, hidden) ↦ (λ _. hidden, λ _. refused)
  | inr (group, found, seen, answered) ↦
      (λ h. cc, λ hidden. visible-contradiction id user s {group = group} found seen hidden)
]

-- The invite code, the gate and the on-chain id of a group are shown to its members only.
get_group-sensitive :
    (id user : ℕ) (s : Groups) {answer : GroupResponse} {secret : Sensitive}
    → get_group id user s ≡ ok answer
    → answer.sensitive ≡ some secret
    → any (is_user user) (members_of id s) ≡ true
unfolding response_from
get_group-sensitive id user s {answer} h shown = elim (get_group-cases id user s) [
  | inl (refused, hidden) ↦ cc
  | inr (group, found, seen, answered) ↦ ground arith
]
