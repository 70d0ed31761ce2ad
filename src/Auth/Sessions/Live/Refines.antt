-- ===== src/Auth/Sessions/Live/Refines.antt =====
-- The statements on sessions implement the operations on live digests.
use relays.Core.Triple.{OnOk}
use relays.Core.Result.{Result}
use relays.Table.Laws.{update_returning_cases, insert_returning_cases}
use relays.Prelude.{
  ◌≡◌, refl, ap, ◌∙◌, inl, inr, true, Option, none, some, List, Uuid, Digest, Time, ◌==◌,
  if◌then◌else◌, Bool-cases, map_option,
}
use relays.Table.{find_first, exists_row}
use relays.Auth.Model.{Session}
use relays.Auth.Queries.{
  open_session_of_hash, open_session_of_id, rotated_row, same_session, revoked_row,
  rotate_session_refresh_token, revoke_session, get_session_by_refresh_token_hash, session_check,
  create_session,
}
use relays.Auth.Sessions.Live.{
  IsKeyed, taken_by_other, Live, renewed, closed, live, rotated-IsKeyed, grant_of, Grant, opened,
}
use relays.Auth.Sessions.Live.Views.{
  found_there, if_map, rotated_view, revoked_view, revoked-IsKeyed, appended_view, appended-IsKeyed,
}

-- Where an action returns, its table stands for the live digests that `f` makes.
abbrev pub Implements :
    {A : Type 0} → (Live → Live) → List Session → Result A × List Session → Type 0
Implements f t x = OnOk (λ _ v. IsKeyed v × ((k : Digest) → live v k ≡ f (live t) k)) x

pub rotate-Implements :
    (s : Session) (h new : Digest) (expires_at : Time) (t : List Session)
    → IsKeyed t
    → find_first (open_session_of_hash h) t ≡ some s
    → Implements (renewed h new expires_at) t (rotate_session_refresh_token s.id new expires_at t)
unfolding rotate_session_refresh_token get_session_by_refresh_token_hash
rotate-Implements s h new expires_at t keyed found =
    let there : exists_row (open_session_of_id s.id) t ≡ true = found_there s h t found in
    elim (Bool-cases (exists_row (taken_by_other s new expires_at) t)) [
      | inl taken ↦ rw (there, taken, OnOk) tt
      | inr free ↦
          elim (update_returning_cases session_check (open_session_of_id s.id)
            (rotated_row new expires_at) t) [
              | inl broken ↦ rw (there, free, broken, OnOk) tt
              | inr done ↦
                  rw (there, free, done, OnOk)
                    (
                      rotated-IsKeyed s new expires_at t keyed free,
                      λ k.
                          rw (rotated_view s h new expires_at t k keyed found free, found)
                            (if_map grant_of (k == new) (some (rotated_row new expires_at s)) _
                              ∙ ap
                                  (λ (o : Option Grant).
                                    if k == new
                                    then some
                                        (record { user_id = s.user_id; expires_at = expires_at })
                                    else o)
                                  (if_map grant_of (k == h) none
                                    (find_first (open_session_of_hash k) t))),
                    )
            ]
    ]

pub revoke-Implements :
    (s : Session) (h : Digest) (now : Time) (t : List Session)
    → IsKeyed t
    → find_first (open_session_of_hash h) t ≡ some s
    → Implements (closed h) t (revoke_session now s.id t)
unfolding revoke_session get_session_by_refresh_token_hash
revoke-Implements s h now t keyed found =
    elim (update_returning_cases session_check (open_session_of_id s.id) (revoked_row now) t) [
      | inl broken ↦ rw (broken, OnOk) tt
      | inr done ↦
          rw (done, OnOk)
            (
              revoked-IsKeyed s h now t keyed,
              λ k.
                  rw (revoked_view s h now t k keyed found)
                    (if_map grant_of (k == h) none (find_first (open_session_of_hash k) t)),
            )
    ]

pub create-Implements :
    (id : Uuid) (now : Time) (user_id : Uuid) (h : Digest) (expires_at : Time) (t : List Session)
    → IsKeyed t
    → Implements
        (opened h (record { user_id = user_id; expires_at = expires_at }))
        t
        (create_session id now user_id h expires_at t)
unfolding create_session get_session_by_refresh_token_hash
create-Implements id now user_id h expires_at t keyed =
    let row : Session = record {
      id = id;
      user_id = user_id;
      refresh_token_hash = h;
      expires_at = expires_at;
      revoked_at = none;
      created_at = now;
    } in
    elim (insert_returning_cases session_check same_session row t) [
      | inl (e, raised) ↦ rw (raised, OnOk) tt
      | inr (fits, free, done) ↦
          rw (done, OnOk)
            (
              appended-IsKeyed row t keyed free,
              λ k.
                  ap (map_option grant_of) (appended_view row t k refl free)
                  ∙ if_map grant_of (k == h) (some row) (find_first (open_session_of_hash k) t),
            )
    ]
