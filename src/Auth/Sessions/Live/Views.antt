-- ===== src/Auth/Sessions/Live/Views.antt =====
-- What an update or an insertion changes of the open session with a digest.
use relays.Table.Laws.{exists_row-update_where}
use relays.Prelude.{
  ◌≡◌, refl, ap, subst, ◌∙◌, inl, inr, Bool, true, false, Option, none, some, List, [], ◌∷◌, ◌++◌,
  arith, Digest, Time, ◌==◌, if◌then◌else◌, Bool-cases, ==_refl, is_some, map_option,
}
use relays.Table.{find_first, exists_row, update_where}
use relays.Auth.Model.{Session}
use relays.Auth.Queries.{
  open_session_of_hash, open_session_of_id, rotated_row, same_session, revoked_row,
}
use relays.Auth.Sessions.Live.{IsKeyed, untouched, taken_by_other, rotated}

-- No open session with the digest of a row among rows that do not clash with it.
no_clash :
    (s : Session) (t : List Session) (k : Digest)
    → exists_row (same_session s) t ≡ false
    → (s.refresh_token_hash == k) ≡ true
    → find_first (open_session_of_hash k) t ≡ none
unfolding exists_row find_first
no_clash s [] k free same = refl
no_clash s (x ∷ t) k free same = ground (arith, free, same, no_clash s t k (ground arith) same)

-- A row that is found has an identifier other than that of a row it does not clash with.
other_id :
    (x s : Session) (t : List Session) (h : Digest)
    → exists_row (same_session x) t ≡ false
    → find_first (open_session_of_hash h) t ≡ some s
    → (x.id == s.id) ≡ false
unfolding exists_row find_first
other_id x s [] h free found = cc
other_id x s (r ∷ t) h free found = elim (Bool-cases (open_session_of_hash h r)) [
  | inl hit ↦
      let same : r ≡ s = ground arith in subst (λ y. (x.id == y.id) ≡ false) same (ground arith)
  | inr miss ↦ other_id x s t h (ground arith) (ground arith)
]

pub found_there :
    (s : Session) (h : Digest) (t : List Session)
    → find_first (open_session_of_hash h) t ≡ some s
    → exists_row (open_session_of_id s.id) t ≡ true
unfolding exists_row find_first
found_there s h [] found = cc
found_there s h (x ∷ t) found = elim (Bool-cases (open_session_of_hash h x)) [
  | inl hit ↦
      let same : x ≡ s = ground arith in
      let here : open_session_of_id s.id x ≡ true =
        subst (λ y. open_session_of_id y.id x ≡ true) same (ground (arith, ==_refl x.id)) in
      rw here refl
  | inr miss ↦ ground (arith, found_there s h t (ground arith))
]

pub if_map :
    {A B : Type 0} (f : A → B) (b : Bool) (o o' : Option A)
    → map_option f (if b then o else o') ≡ (if b then map_option f o else map_option f o')
if_map f true o o' = refl
if_map f false o o' = refl

module _ (s : Session) (h : Digest) where
  pub rotated_view :
      (new : Digest) (expires_at : Time) (t : List Session) (k : Digest)
      → IsKeyed t
      → find_first (open_session_of_hash h) t ≡ some s
      → exists_row (taken_by_other s new expires_at) t ≡ false
      → find_first (open_session_of_hash k) (rotated s new expires_at t) ≡ (
          if k == new
          then some (rotated_row new expires_at s)
          else if k == h
          then none
          else find_first (open_session_of_hash k) t)
  unfolding IsKeyed update_where exists_row find_first
  rotated_view new expires_at [] k keyed found others = cc
  rotated_view new expires_at (x ∷ t) k keyed found others =
      elim (Bool-cases (open_session_of_hash h x)) [
        | inl hit ↦
            let same : x ≡ s = ground arith in
            let rotate = rotated_row new expires_at in
            let row : rotate x ≡ rotate s = ap rotate same in
            let still : update_where (open_session_of_id s.id) rotate t ≡ t =
              untouched rotate s t
                (subst (λ y. exists_row (same_session y) t ≡ false) same keyed.0) in
            let touched : open_session_of_id s.id x ≡ true =
              subst (λ y. open_session_of_id y.id x ≡ true) same (ground (arith, ==_refl x.id)) in
            elim (Bool-cases (k == h)) [
              | inl old ↦
                  let gone : find_first (open_session_of_hash k) t ≡ none =
                    no_clash x t k keyed.0 (ground (arith, hit, old)) in
                  rw (touched, still, row) (ground (arith, hit, old, gone))
              | inr other ↦ rw (touched, still, row) (ground (arith, hit, other))
            ]
        | inr miss ↦
            let rest : find_first (open_session_of_hash h) t ≡ some s = ground arith in
            let other = other_id x s t h keyed.0 rest in
            ground (
              arith,
              other,
              miss,
              others,
              rotated_view new expires_at t k keyed.1 rest (ground arith),
            )
      ]

  abbrev pub revoked : Time → List Session → List Session
  revoked now = update_where (open_session_of_id s.id) (revoked_row now)

  pub revoked_view :
      (now : Time) (t : List Session) (k : Digest)
      → IsKeyed t
      → find_first (open_session_of_hash h) t ≡ some s
      → find_first (open_session_of_hash k) (revoked now t)
        ≡ (if k == h then none else find_first (open_session_of_hash k) t)
  unfolding IsKeyed update_where exists_row find_first
  revoked_view now [] k keyed found = cc
  revoked_view now (x ∷ t) k keyed found = elim (Bool-cases (open_session_of_hash h x)) [
    | inl hit ↦
        let same : x ≡ s = ground arith in
        let still : update_where (open_session_of_id s.id) (revoked_row now) t ≡ t =
          untouched (revoked_row now) s t
            (subst (λ y. exists_row (same_session y) t ≡ false) same keyed.0) in
        let touched : open_session_of_id s.id x ≡ true =
          subst (λ y. open_session_of_id y.id x ≡ true) same (ground (arith, ==_refl x.id)) in
        elim (Bool-cases (k == h)) [
          | inl old ↦
              let gone : find_first (open_session_of_hash k) t ≡ none =
                no_clash x t k keyed.0 (ground (arith, hit, old)) in
              rw (touched, still) (ground (arith, hit, old, gone))
          | inr other ↦ rw (touched, still) (ground (arith, hit, other))
        ]
    | inr miss ↦
        let rest : find_first (open_session_of_hash h) t ≡ some s = ground arith in
        let other = other_id x s t h keyed.0 rest in
        ground (arith, other, miss, revoked_view now t k keyed.1 rest)
  ]

  pub revoked-IsKeyed : (now : Time) (t : List Session) → IsKeyed t → IsKeyed (revoked now t)
  unfolding IsKeyed update_where
  revoked-IsKeyed now [] keyed = tt
  revoked-IsKeyed now (x ∷ t) keyed =
      let free : (y : Session)
          → exists_row (same_session y) (revoked now t) ≡ exists_row (same_session y) t =
        λ y.
          exists_row-update_where (same_session y) (open_session_of_id s.id) (revoked_row now) t
            (λ r. refl) in
      elim (Bool-cases (open_session_of_id s.id x)) [
        | inl hit ↦ rw hit (free x ∙ keyed.0, revoked-IsKeyed now t keyed.1)
        | inr miss ↦ rw miss (free x ∙ keyed.0, revoked-IsKeyed now t keyed.1)
      ]

pub appended_view :
    (row : Session) (t : List Session) (k : Digest)
    → is_some row.revoked_at ≡ false
    → exists_row (same_session row) t ≡ false
    → find_first (open_session_of_hash k) (t ++ row ∷ [])
      ≡ (if k == row.refresh_token_hash then some row else find_first (open_session_of_hash k) t)
unfolding find_first exists_row
appended_view row [] k new free = ground (arith, new)
appended_view row (x ∷ t) k new free =
    ground (arith, new, free, appended_view row t k new (ground arith))

not_clashing_after :
    (row x : Session) (t : List Session)
    → exists_row (same_session x) t ≡ false
    → same_session x row ≡ false
    → exists_row (same_session x) (t ++ row ∷ []) ≡ false
unfolding exists_row
not_clashing_after row x [] free other = ground (arith, other)
not_clashing_after row x (r ∷ t) free other =
    ground (arith, free, other, not_clashing_after row x t (ground arith) other)

pub appended-IsKeyed :
    (row : Session) (t : List Session)
    → IsKeyed t
    → exists_row (same_session row) t ≡ false
    → IsKeyed (t ++ row ∷ [])
unfolding IsKeyed exists_row
appended-IsKeyed row [] keyed free = (refl, tt)
appended-IsKeyed row (x ∷ t) keyed free = (
  not_clashing_after row x t keyed.0 (ground arith),
  appended-IsKeyed row t keyed.1 (ground arith),
)
