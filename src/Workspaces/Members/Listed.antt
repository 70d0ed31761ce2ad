-- ===== src/Workspaces/Members/Listed.antt =====
-- The list of the members of a workspace: its rows and their order.
use mathlib.Core.List.{Perm}
use relays.Prelude.{
  ℕ, ◌≡◌, refl, sym, subst, ◌≢◌, ◌⊎◌, inl, inr, Bool, true, false, ◌&&◌, ◌||◌, List, [], ◌∷◌, map,
  arith, Uuid, ltb, ◌==◌, Bool-cases, ==_refl, All, All-append, All-map,
}
use relays.Table.{select_where}
use relays.Table.Order.{order_by, order_by-InOrder, order_by-Perm, All-order_by}
use relays.Table.Partition.{EachBefore, IsIn, InOrder-EachBefore}
use relays.Table.Membership.{
  IsIn-append_left, IsIn-append_right, IsIn-select_where, IsIn-order_by, All-IsIn, selected,
  IsIn-map, All-mapped,
}
use relays.Auth.Model.{User, WorkspaceMember, WorkspaceMemberRole}
use relays.Workspaces.Members.{
  WorkspaceMemberBody, role_rank, member_row, joined_members, member_before, get_workspace_members,
}

-- A membership of the workspace, its user, and the row of the two.
abbrev pub Joins : Uuid → WorkspaceMember → User → WorkspaceMemberBody → Type 0
Joins workspace_id wm u row =
    (wm.workspace_id ≡ workspace_id)
    × (wm.user_id ≡ u.id)
    × (row ≡ record { id = u.id; email = u.email; name = u.name; role = wm.role })

abbrev pub Member : Uuid → List User → List WorkspaceMember → WorkspaceMemberBody → Type 0
Member workspace_id users members row =
    (wm : WorkspaceMember) × (u : User) × IsIn wm members
    × IsIn u users
    × Joins workspace_id wm u row

module _ (workspace_id : Uuid) (users : List User) where
  joined-Member :
      (t : List WorkspaceMember)
      → All (Member workspace_id users t) (joined_members workspace_id users t)
  unfolding joined_members
  joined-Member [] = tt
  joined-Member (wm ∷ t) =
      let rest =
        All-map (Member workspace_id users t) (Member workspace_id users (wm ∷ t))
          (joined_members workspace_id users t)
          (λ row (w, u, here, there, joins). (w, u, inr here, there, joins)) (joined-Member t) in
      elim (Bool-cases (wm.workspace_id == workspace_id)) [
        | inr miss ↦ rw miss rest
        | inl hit ↦
            let own : wm.workspace_id ≡ workspace_id = ground arith in
            rw hit (
              All-append _ (map (member_row wm) (select_where (λ u. u.id == wm.user_id) users)) _
                (All-mapped (member_row wm) (Member workspace_id users (wm ∷ t))
                  (select_where (λ u. u.id == wm.user_id) users)
                  (All-map _ (λ u. Member workspace_id users (wm ∷ t) (member_row wm u))
                    (select_where (λ u. u.id == wm.user_id) users)
                    (λ u h. (wm, u, inl refl, h.0, (own, ground (arith, h.1), refl)))
                    (selected (λ u. u.id == wm.user_id) users)))
                rest)
      ]

  joined_all :
      (t : List WorkspaceMember) (wm : WorkspaceMember) (u : User)
      → IsIn wm t
      → IsIn u users
      → wm.workspace_id ≡ workspace_id
      → wm.user_id ≡ u.id
      → IsIn (member_row wm u) (joined_members workspace_id users t)
  unfolding joined_members
  joined_all [] wm u h k own mine = absurd h
  joined_all (x ∷ t) wm u (inl same) k own mine =
      let hit : (x.workspace_id == workspace_id) ≡ true =
        subst (λ (y : WorkspaceMember). (y.workspace_id == workspace_id) ≡ true) (sym same)
          (rw own (==_refl workspace_id)) in
      let matches : (u.id == x.user_id) ≡ true =
        subst (λ (y : WorkspaceMember). (u.id == y.user_id) ≡ true) (sym same)
          (rw mine (==_refl u.id)) in
      let found =
        IsIn-map (member_row x) u _
          (IsIn-select_where (λ v. v.id == x.user_id) u users matches k) in
      rw hit (
        IsIn-append_left (member_row wm u) _ _ (
          subst
            (λ (y : WorkspaceMember).
              IsIn (member_row y u)
                (map (member_row x) (select_where (λ v. v.id == x.user_id) users)))
            same found))
  joined_all (x ∷ t) wm u (inr later) k own mine =
      let rest = joined_all t wm u later k own mine in
      elim (Bool-cases (x.workspace_id == workspace_id)) [
        | inl hit ↦ rw hit (IsIn-append_right (member_row wm u) _ _ rest)
        | inr miss ↦ rw miss rest
      ]

roles_above :
    (r s : WorkspaceMemberRole) (named : Bool)
    → (ltb (role_rank r) (role_rank s) || (role_rank r == role_rank s && named)) ≡ true
    → ((r ≡ WorkspaceMemberRole.owner) × (s ≡ WorkspaceMemberRole.member))
      ⊎ ((r ≡ s) × (named ≡ true))
roles_above WorkspaceMemberRole.owner WorkspaceMemberRole.owner named h = inr (refl, h)
roles_above WorkspaceMemberRole.owner WorkspaceMemberRole.member named h = inl (refl, refl)
roles_above WorkspaceMemberRole.member WorkspaceMemberRole.owner named h = cc
roles_above WorkspaceMemberRole.member WorkspaceMemberRole.member named h = inr (refl, h)

-- A collation puts any two names in an order.
pub record IsCollation (collated : List ℕ → List ℕ → Bool) : Type 0 where
  pub total : (a b : List ℕ) → collated a b ≡ false → collated b a ≡ true
  pub trans : (a b c : List ℕ) → collated a b ≡ true → collated b c ≡ true → collated a c ≡ true

-- The order of two listed members.
abbrev pub Above :
    (collated : List ℕ → List ℕ → Bool) → WorkspaceMemberBody → WorkspaceMemberBody → Type 0
Above collated a b =
    ((a.role ≡ WorkspaceMemberRole.owner) × (b.role ≡ WorkspaceMemberRole.member))
    ⊎ ((a.role ≡ b.role) × (collated a.name b.name ≡ true))

module _ (collated : List ℕ → List ℕ → Bool) (law : IsCollation collated) where
  member_before-total :
      (a b : WorkspaceMemberBody)
      → member_before collated a b ≡ false
      → member_before collated b a ≡ true
  unfolding member_before
  member_before-total a b h = ground (arith, law.total a.name b.name)

  member_before_trans :
      (a b c : WorkspaceMemberBody)
      → member_before collated a b ≡ true
      → member_before collated b c ≡ true
      → member_before collated a c ≡ true
  unfolding member_before
  member_before_trans a b c h k = ground (arith, h, k, law.trans a.name b.name c.name)

  member_before-Above :
      (a b : WorkspaceMemberBody) → member_before collated a b ≡ true → Above collated a b
  unfolding member_before
  member_before-Above a b h = roles_above a.role b.role (collated a.name b.name) h

  -- Under a collation that orders any two names, the members of a workspace are listed with the owners
  -- first and then by name. Each listed row is that of a membership of the workspace and its user, each
  -- such pair is listed, and the list has the rows of the join as often as the join.
  pub get_workspace_members_lem :
      (workspace_id : Uuid) (users : List User) (members : List WorkspaceMember)
      → let rows = get_workspace_members collated workspace_id users members in
        EachBefore (Above collated) rows
        × All (Member workspace_id users members) rows
        × All
            (λ wm.
              All
                (λ u.
                  (wm.workspace_id ≢ workspace_id)
                  ⊎ ((wm.user_id ≢ u.id)
                      ⊎ IsIn
                          (record { id = u.id; email = u.email; name = u.name; role = wm.role })
                          rows))
                users)
            members
        × Perm rows (joined_members workspace_id users members)
  unfolding get_workspace_members
  get_workspace_members_lem workspace_id users members =
      let join = joined_members workspace_id users members in
      let before = member_before collated in
      let rows = order_by before join in
      (
        InOrder-EachBefore before (λ _. Unit {0}) (Above collated) rows
            (λ a b _ _ first. member_before-Above a b first)
            (All-IsIn (λ _. Unit {0}) rows (λ _ _. tt))
            (order_by-InOrder before member_before-total member_before_trans join),
        All-order_by before (Member workspace_id users members) join
            (joined-Member workspace_id users members),
        All-IsIn _ members (λ wm here. All-IsIn _ users (λ u there.
            elim (Bool-cases (wm.workspace_id == workspace_id)) [
              | inr other ↦ inl (λ same. ground (arith, other, same))
              | inl own ↦ elim (Bool-cases (wm.user_id == u.id)) [
                | inr other ↦ inr (inl (λ same. ground (arith, other, same)))
                | inl mine ↦ inr (
                    inr (
                      IsIn-order_by before (member_row wm u) join (
                        joined_all workspace_id users members wm u here there (ground (arith, own))
                          (ground (arith, mine)))))
              ]
            ])),
        order_by-Perm before join,
      )
