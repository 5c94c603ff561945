-- ===== src/Groups/Service/Joining.antt =====
-- Joining a group by its invite code (src/groups/groups.service.ts).
use dupdap_backend.Base.{
  ℕ, ◌+◌, ◌≤◌, ◌<◌, ◌≡◌, refl, ap, ◌⊎◌, inl, inr, Bool, true, false, ◌&&◌, List, [], ◌∷◌, ◌++◌,
  Option, none, some, Result, ok, err, any, find, length, filter, leb, arith, Option-cases,
  Bool-cases,
}
use dupdap_backend.Groups.Store.{
  Group, GroupMember, member, Groups, GroupResponse, GateToken, in_group, is_user,
  find_by_invite_code, GroupError, count_members, is_member, add_member,
}
use dupdap_backend.Groups.Service.{
  Balance, is_below, holds_asset, verify_token_gate, gate_of, assert_can_join, join_by_invite_code,
}

filter-append :
    {A : Type 0} (p : A → Bool) (xs ys : List A)
    → length (filter p (xs ++ ys)) ≡ length (filter p xs) + length (filter p ys)
filter-append p [] ys = omega arith
filter-append p (x ∷ xs) ys = ground (arith, filter-append p xs ys)

-- The gate of a group is open to an account: there is none, or the first balance line of the token is
-- not below the minimum.
abbrev pub PassesGate : Option (List Balance) → Option (GateToken × ℕ) → Type 0
PassesGate balances none = Unit
PassesGate none (some (token, n)) = ⊥
PassesGate (some bs) (some (token, n)) =
    (b : Balance) × (find (holds_asset token) bs ≡ some b) × (is_below b.amount n ≡ false)

verify_token_gate-PassesGate :
    (balances : Option (List Balance)) (token : GateToken) (n : ℕ)
    → verify_token_gate balances token n ≡ ok tt
    → PassesGate balances (some (token, n))
unfolding verify_token_gate
verify_token_gate-PassesGate none token n h = cc
verify_token_gate-PassesGate (some bs) token n h =
    elim (Option-cases (find (holds_asset token) bs)) [
      | inl missing ↦ cc (rw (missing, verify_token_gate) at h)
      | inr (b, found) ↦ (b, found, ground arith)
    ]

gate_check : Option (List Balance) → Option (GateToken × ℕ) → Result GroupError (Unit {0})
gate_check balances none = ok tt
gate_check balances (some (token, n)) = verify_token_gate balances token n

gate_check-PassesGate :
    (balances : Option (List Balance)) (gate : Option (GateToken × ℕ))
    → gate_check balances gate ≡ ok tt
    → PassesGate balances gate
unfolding gate_check
gate_check-PassesGate balances none h = tt
gate_check-PassesGate balances (some (token, n)) h = verify_token_gate-PassesGate balances token n h

checked-cases : (r : Result GroupError (Unit {0})) → (r ≡ ok tt) ⊎ ((e : GroupError) × (r ≡ err e))
checked-cases (ok _) = inl refl
checked-cases (err e) = inr (e, refl)

assert_can_join-admits :
    (balances : Option (List Balance)) (id : ℕ) (group : Group) (user : ℕ) (s : Groups)
    → assert_can_join balances id group user s ≡ ok tt
    → (is_member id user s ≡ false)
      × (count_members id s < group.max_members)
      × PassesGate balances (gate_of group)
unfolding assert_can_join gate_check
assert_can_join-admits balances id group user s h = elim (Bool-cases (is_member id user s)) [
  | inl inside ↦ cc (rw (inside, assert_can_join) at h)
  | inr outside ↦ elim (Bool-cases (leb group.max_members (count_members id s))) [
    | inl full ↦ cc (rw (outside, full, assert_can_join) at h)
    | inr room ↦ (outside, ground arith, passes (rw (outside, room, assert_can_join) at h))
  ]
]
  where
    passes : gate_check balances (gate_of group) ≡ ok tt → PassesGate balances (gate_of group)
    passes e = gate_check-PassesGate balances (gate_of group) e

abbrev joined : (id user : ℕ) → Groups → Groups
joined id user s = record s {
  members = s.members ++ record { group_id = id; user_id = user; role = member } ∷ [];
}

any-last :
    {A : Type 0} (p : A → Bool) (xs : List A) (x : A) → p x ≡ true → any p (xs ++ x ∷ []) ≡ true
any-last p [] x h = ground arith
any-last p (y ∷ ys) x h = ground (arith, any-last p ys x h)

joined_lem :
    (id user : ℕ) (s : Groups)
    → (is_member id user (joined id user s) ≡ true)
      × (count_members id (joined id user s) ≡ count_members id s + 1)
unfolding is_member count_members
joined_lem id user s =
    let new : GroupMember = record { group_id = id; user_id = user; role = member } in
    (
      any-last (λ m. in_group id m && is_user user m) s.members new (ground arith),
      ground (arith, filter-append (in_group id) s.members (new ∷ [])),
    )

add_member-joined :
    (id user : ℕ) (s : Groups)
    → is_member id user s ≡ false
    → add_member id user member s ≡ (joined id user s, ok tt)
unfolding add_member is_member
add_member-joined id user s outside = ground arith

join_runs :
    (balances : Option (List Balance)) (code user id : ℕ) (group : Group) (s : Groups)
    → find_by_invite_code code s ≡ some (id, group)
    → assert_can_join balances id group user s ≡ ok tt
    → is_member id user s ≡ false
    → (join_by_invite_code balances code user s).0 ≡ joined id user s
unfolding join_by_invite_code
join_runs balances code user id group s found checked outside =
    rw (found, join_by_invite_code)
      (let added = add_member-joined id user s outside in rw (checked, added) (ap (λ r. r.0) added))

-- A user whose join succeeds was not a member of the group of the code and is one now, has passed the
-- gate, and the group has one member more, at most as many as it allows.
pub join_by_invite_code-admits :
    (balances : Option (List Balance)) (code user : ℕ) (s : Groups) {answer : GroupResponse}
    → (join_by_invite_code balances code user s).1 ≡ ok answer
    → let s' = (join_by_invite_code balances code user s).0 in
      (id : ℕ) × (group : Group) × (find_by_invite_code code s ≡ some (id, group))
      × (is_member id user s ≡ false)
      × (is_member id user s' ≡ true)
      × (count_members id s' ≡ count_members id s + 1)
      × (count_members id s' ≤ group.max_members)
      × PassesGate balances (gate_of group)
unfolding join_by_invite_code
join_by_invite_code-admits balances code user s {answer} h =
    elim (Option-cases (find_by_invite_code code s)) [
      | inl unknown ↦ cc (rw (unknown, join_by_invite_code) at h)
      | inr ((id, group), found) ↦ elim (checked-cases (assert_can_join balances id group user s)) [
        | inr (e, refused) ↦ cc (rw (found, refused, join_by_invite_code) at h)
        | inl checked ↦
            let (outside, room, open_) = assert_can_join-admits balances id group user s checked in
            let (inside, more) = joined_lem id user s in
            rw (join_runs balances code user id group s found checked outside)
              (id, group, found, outside, inside, more, omega (arith, more, room), open_)
      ]
    ]
