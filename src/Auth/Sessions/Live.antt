-- ===== src/Auth/Sessions/Live.antt =====
-- The table of sessions as what it means: which digests of refresh tokens are live, and for whom.
pub mod Views
pub mod Refines
pub mod Workflows
use relays.Prelude.{
  ◌≡◌, refl, inl, inr, Bool, false, not, ◌&&◌, Option, none, some, List, [], ◌∷◌, arith, Uuid,
  Digest, Time, ◌==◌, if◌then◌else◌, Bool-cases, map_option,
}
use relays.Table.{exists_row, update_where}
use relays.Auth.Model.{Session}
use relays.Auth.Queries.{
  get_session_by_refresh_token_hash, open_session_of_id, rotated_row, same_session,
}

-- A live digest gives the session's user and its expiry.
pub record Grant : Type 0 where
  pub user_id : Uuid
  pub expires_at : Time

abbrev pub Live : Type 0
Live = Digest → Option Grant

abbrev pub grant_of : Session → Grant
grant_of s = record { user_id = s.user_id; expires_at = s.expires_at }

abbrev pub live : List Session → Live
live t h = map_option grant_of (get_session_by_refresh_token_hash h t)

-- What the operations mean.
abbrev pub opened : Digest → Grant → Live → Live
opened h g L k = if k == h then some g else L k

abbrev pub closed : Digest → Live → Live
closed h L k = if k == h then none else L k

abbrev pub renewed : (old new : Digest) → (expires_at : Time) → Live → Live
renewed old new expires_at L k =
    if k == new
    then map_option (λ (g : Grant). record g { expires_at = expires_at }) (L old)
    else closed old L k

-- The unique index on the hash and the primary key.
unfoldable pub IsKeyed : List Session → Type 0
IsKeyed [] = Unit
IsKeyed (s ∷ t) = (exists_row (same_session s) t ≡ false) × IsKeyed t

-- No row to update among rows that clash with none of it.
pub untouched :
    (f : Session → Session) (s : Session) (t : List Session)
    → exists_row (same_session s) t ≡ false
    → update_where (open_session_of_id s.id) f t ≡ t
unfolding exists_row update_where
untouched f s [] free = refl
untouched f s (x ∷ t) free = ground (arith, untouched f s t (ground arith))

module _ (s : Session) (new : Digest) (expires_at : Time) where
  abbrev pub taken_by_other : Session → Bool
  taken_by_other r = r.refresh_token_hash == new && not (r.id == s.id)

  abbrev pub rotated : List Session → List Session
  rotated = update_where (open_session_of_id s.id) (rotated_row new expires_at)

  not_clashing :
      (x : Session) (t : List Session)
      → exists_row (same_session x) t ≡ false
      → taken_by_other x ≡ false
      → exists_row (same_session x) (rotated t) ≡ false
  unfolding exists_row update_where
  not_clashing x [] free other = refl
  not_clashing x (r ∷ t) free other =
      ground (arith, free, other, not_clashing x t (ground arith) other)

  head_not_clashing :
      (x : Session) (t : List Session)
      → x.id ≡ s.id
      → exists_row (same_session x) t ≡ false
      → exists_row taken_by_other t ≡ false
      → exists_row (same_session (rotated_row new expires_at x)) t ≡ false
  unfolding exists_row
  head_not_clashing x [] same free others = refl
  head_not_clashing x (r ∷ t) same free others =
      ground (arith, same, free, others, head_not_clashing x t same (ground arith) (ground arith))

  pub rotated-IsKeyed :
      (t : List Session) → IsKeyed t → exists_row taken_by_other t ≡ false → IsKeyed (rotated t)
  unfolding IsKeyed update_where exists_row
  rotated-IsKeyed [] keyed others = tt
  rotated-IsKeyed (x ∷ t) keyed others = elim (Bool-cases (open_session_of_id s.id x)) [
    | inl hit ↦
        let same : x.id ≡ s.id = ground arith in
        rw hit (
          not_clashing (rotated_row new expires_at x) t
              (head_not_clashing x t same keyed.0 (ground arith)) (ground (arith, same)),
          rotated-IsKeyed t keyed.1 (ground arith),
        )
    | inr miss ↦
        rw miss (not_clashing x t keyed.0 (ground arith), rotated-IsKeyed t keyed.1 (ground arith))
  ]
