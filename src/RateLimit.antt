-- ===== src/RateLimit.antt =====
-- app/infra/redis/rate_limiting: the sliding-window limiter over sorted sets, and the limits on
-- one-time passwords. The commands of Redis that the code sends are functions on the sorted set of a
-- key: the scores of its members (a member is a fresh UUID), and the instant at which the key expires.
-- Instants and windows are counted in one unit; `score <= now - window` is written `score + window <= now`.
pub mod Window
pub mod Trace
use relays.Prelude.{
  ℕ, zero, suc, ◌+◌, ◌-◌, ◌*◌, ◌^◌, ◌≤◌, ◌<◌, min, String, ◌≡◌, refl, sym, ap, subst, ◌∙◌, ◌≢◌, ◌⊎◌,
  inl, inr, Bool, true, false, not, ◌&&◌, ◌||◌, Option, none, some, List, [], ◌∷◌, ◌++◌, map, arith,
  str_eq, Uuid, Digest, Time, ltb, leb, ◌==◌, if◌then◌else◌, Bool-cases, Option-cases, ==_refl,
  is_some, map_option, All, length, take, All-append, All-map,
}

pub record SortedSet : Type 0 where
  pub scores : List Time
  pub expires_at : Option Time

abbrev pub empty_set : SortedSet
empty_set = record { scores = []; expires_at = none }

-- A key whose expiry has passed is gone.
unfoldable pub load : (now : Time) → SortedSet → SortedSet
load now z = elim z.expires_at [ none ↦ z | some t ↦ if leb t now then empty_set else z ]

abbrev pub in_window : (now window : Time) → Time → Bool
in_window now window t = ltb now (t + window)

unfoldable pub inside : (now window : Time) → List Time → List Time
inside now window [] = []
inside now window (t ∷ ts) =
    let rest = inside now window ts in if in_window now window t then t ∷ rest else rest

-- ZREMRANGEBYSCORE key -inf (now - window)
unfoldable pub zremrangebyscore : (now window : Time) → SortedSet → SortedSet
zremrangebyscore now window z = record z { scores = inside now window z.scores }

-- ZCOUNT key (now - window) +inf
unfoldable pub zcount : (now window : Time) → List Time → ℕ
zcount now window [] = 0
zcount now window (t ∷ ts) =
    let rest = zcount now window ts in if leb now (t + window) then suc rest else rest

-- `sliding_window_limiter` on the set of its key: whether the request is allowed, and the set after.
unfoldable pub sliding_window_limiter :
    (limit : ℕ) → (window_seconds : Time) → (now : Time) → SortedSet → Bool × SortedSet
unfolding load zremrangebyscore
sliding_window_limiter limit window_seconds now z =
    let active = zremrangebyscore now window_seconds (load now z) in
    if leb limit (zcount now window_seconds active.scores) then (false, active) else (
      true,
      record { scores = active.scores ++ now ∷ []; expires_at = some (now + window_seconds) },
    )

-- otp/limiter.py, otp/constants.py and otp/keys.py. A key is named by its flow, its window and the
-- email address; the six formats of keys.py have different prefixes.
pub data OtpFlow : Type 0 where
  login registration : OtpFlow

pub data OtpWindow : Type 0 where
  cooldown hourly daily : OtpWindow

abbrev pub otp_limit : OtpWindow → ℕ
otp_limit OtpWindow.cooldown = 1
otp_limit OtpWindow.hourly = 5
otp_limit OtpWindow.daily = 20

abbrev pub otp_window_seconds : OtpWindow → Time
otp_window_seconds OtpWindow.cooldown = 30
otp_window_seconds OtpWindow.hourly = 60 * 60
otp_window_seconds OtpWindow.daily = 24 * 60 * 60

-- The sets of the keys of one flow and one email address.
pub record OtpSets : Type 0 where
  pub cooldown_set : SortedSet
  pub hourly_set : SortedSet
  pub daily_set : SortedSet

abbrev limit_in : OtpWindow → Time → SortedSet → Bool × SortedSet
limit_in w now z = sliding_window_limiter (otp_limit w) (otp_window_seconds w) now z

-- The three limiters in turn, the next one only if the one before allows the request. Each reads the
-- clock for itself; `now` gives the three readings.
unfoldable pub limit_all : (now : OtpWindow → Time) → OtpSets → Bool × OtpSets
limit_all now s =
    let (cooldown_ok, c) = limit_in OtpWindow.cooldown (now OtpWindow.cooldown) s.cooldown_set in
    if not cooldown_ok
    then (false, record s { cooldown_set = c })
    else let (hourly_ok, h) = limit_in OtpWindow.hourly (now OtpWindow.hourly) s.hourly_set in
      if not hourly_ok
      then (false, record s { cooldown_set = c; hourly_set = h })
      else let (daily_ok, d) = limit_in OtpWindow.daily (now OtpWindow.daily) s.daily_set in
        (daily_ok, record { cooldown_set = c; hourly_set = h; daily_set = d })

-- Redis, as far as these keys go.
abbrev pub OtpRedis : Type 0
OtpRedis = OtpFlow → String → OtpSets

abbrev same_flow : OtpFlow → OtpFlow → Bool
same_flow OtpFlow.login OtpFlow.login = true
same_flow OtpFlow.registration OtpFlow.registration = true
same_flow _ _ = false

unfoldable pub put_sets : OtpFlow → String → OtpSets → OtpRedis → OtpRedis
put_sets flow email sets redis f e = if same_flow f flow && str_eq e email then sets else redis f e

unfoldable pub otp_rate_limit :
    (now : OtpWindow → Time) → (email : String) → OtpFlow → OtpRedis → Bool × OtpRedis
unfolding limit_all put_sets
otp_rate_limit now email flow redis =
    let (allowed, sets) = limit_all now (redis flow email) in
    (allowed, put_sets flow email sets redis)
