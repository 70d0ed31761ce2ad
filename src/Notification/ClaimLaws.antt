-- ===== src/Notification/ClaimLaws.antt =====
-- What the retry scheduler claims.
use mathlib.Core.List.{Perm}
use relays.Prelude.{
  ℕ, zero, suc, ◌≤◌, ◌<◌, ◌≡◌, refl, ◌⊎◌, inl, inr, Bool, true, false, some, List, [], ◌∷◌, ◌++◌,
  arith, Uuid, Time, Option-cases, All, length, take, All-append, All-map,
}
use relays.Table.{select_where}
use relays.Table.Order.{order_by, All-order_by, order_by-InOrder}
use relays.Table.Partition.{
  EachBefore, InOrder-EachBefore, All-select_where, All-others, others, skip, All-take,
  EachBefore-take, All-skipped, limited-Perm,
}
use relays.Notification.Model.{Notification, NotificationState}
use relays.Notification.Queries.{is_queued}
use relays.Notification.Claim.{due_before, claimed, is_due}

-- A queued row whose retry time has arrived and which no other transaction has locked.
pub record IsDue (locked : Uuid → Bool) (now : Time) (n : Notification) : Type 0 where
  pub queued : n.state ≡ NotificationState.queued
  pub retry_at : Time
  pub planned : n.next_retry_at ≡ some retry_at
  pub arrived : retry_at ≤ now
  pub free : locked n.id ≡ false

-- By the retry time, then by the creation.
abbrev pub Earlier : Notification → Notification → Type 0
Earlier n m =
    (r : Time) × (s : Time) × (n.next_retry_at ≡ some r)
    × (m.next_retry_at ≡ some s)
    × ((r < s) ⊎ ((r ≡ s) × (n.created_at ≤ m.created_at)))

queued_only : (s : NotificationState) → is_queued s ≡ true → s ≡ NotificationState.queued
queued_only NotificationState.created h = cc
queued_only NotificationState.queued h = refl
queued_only NotificationState.processing h = cc
queued_only NotificationState.sent h = cc
queued_only NotificationState.failed h = cc

module _ (locked : Uuid → Bool) (now : Time) where
  is_due-IsDue : (n : Notification) → is_due locked now n ≡ true → IsDue locked now n
  unfolding is_due
  is_due-IsDue n h = elim (Option-cases n.next_retry_at) [
    | inl never ↦ ground (arith, never)
    | inr (r, planned) ↦ record {
      queued = queued_only n.state (ground (arith, planned));
      retry_at = r;
      planned = planned;
      arrived = ground (arith, planned);
      free = ground (arith, planned);
    }
  ]

  IsDue-is_due : (n : Notification) → IsDue locked now n → is_due locked now n ≡ true
  unfolding is_due
  IsDue-is_due n h = rw (h.queued, h.planned, h.free) (ground (arith, h.arrived))

  not-IsDue : (n : Notification) → is_due locked now n ≡ false → ¬ IsDue locked now n
  not-IsDue n h due = let hit = IsDue-is_due n due in cc

  before-Earlier :
      (n m : Notification)
      → IsDue locked now n
      → IsDue locked now m
      → due_before n m ≡ true
      → Earlier n m
  unfolding due_before
  before-Earlier n m h k first =
      let times : (h.retry_at < k.retry_at)
          ⊎ ((h.retry_at ≡ k.retry_at) × (n.created_at ≤ m.created_at)) =
        ground (arith, h.planned, k.planned, first) in
      (h.retry_at, k.retry_at, h.planned, k.planned, times)

length-take-le : (k : ℕ) (ns : List Notification) → length (take k ns) ≤ k
length-take-le zero ns = omega arith
length-take-le (suc k) [] = omega arith
length-take-le (suc k) (n ∷ ns) = omega (arith, length-take-le k ns)

due_before-total : (n m : Notification) → due_before n m ≡ false → due_before m n ≡ true
unfolding due_before
due_before-total n m h = ground arith

due_before_trans :
    (n m k : Notification) → due_before n m ≡ true → due_before m k ≡ true → due_before n k ≡ true
unfolding due_before
due_before_trans n m k h j = ground arith

-- A claim splits the table into the claimed rows and the rest. At most `limit` rows are claimed; each is
-- queued, has a retry time that has arrived, and is not locked by another transaction; and they come by
-- retry time, then by creation. A row of the rest is not due, or the limit is reached and all claimed
-- rows come before it.
pub claimed-IsDue :
    (locked : Uuid → Bool) (now : Time) (limit : ℕ) (t : List Notification)
    → let rows = claimed locked now limit t in
      (rest : List Notification) × Perm (rows ++ rest) t
      × (length rows ≤ limit)
      × All (IsDue locked now) rows
      × EachBefore Earlier rows
      × All
          (λ n. (¬ IsDue locked now n) ⊎ ((length rows ≡ limit) × All (λ m. Earlier m n) rows))
          rest
unfolding claimed
claimed-IsDue locked now limit t =
    let p = is_due locked now in
    let due = order_by due_before (select_where p t) in
    let all_due : All (IsDue locked now) due =
      All-order_by due_before (IsDue locked now) (select_where p t) (
        All-map (λ n. p n ≡ true) (IsDue locked now) (select_where p t) (is_due-IsDue locked now)
          (All-select_where p t)) in
    let ordered : EachBefore Earlier due =
      InOrder-EachBefore due_before (IsDue locked now) Earlier due (before-Earlier locked now)
        all_due
        (order_by-InOrder due_before due_before-total due_before_trans (select_where p t)) in
    (
      skip limit due ++ others p t,
      limited-Perm due_before p limit t,
      length-take-le limit due,
      All-take (IsDue locked now) limit due all_due,
      EachBefore-take Earlier limit due ordered,
      All-append _ (skip limit due) (others p t)
          (All-map _ _ (skip limit due) (λ n h. inr h) (All-skipped Earlier limit due ordered))
          (All-map (λ n. p n ≡ false) _ (others p t) (λ n h. inl (not-IsDue locked now n h))
            (All-others p t)),
    )
