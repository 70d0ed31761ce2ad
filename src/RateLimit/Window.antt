-- ===== src/RateLimit/Window.antt =====
-- One call of the limiter.
use relays.Prelude.{ℕ, ◌≤◌, ◌≡◌, refl, List, [], ◌∷◌, ◌++◌, arith, Time, ltb, if◌then◌else◌, length}
use relays.RateLimit.{SortedSet, load, inside, zcount, sliding_window_limiter}

-- After the removal every score counts.
pub zcount-inside :
    (now window : Time) (ts : List Time)
    → zcount now window (inside now window ts) ≡ length (inside now window ts)
unfolding zcount inside
zcount-inside now window [] = refl
zcount-inside now window (t ∷ ts) = ground (arith, zcount-inside now window ts)

pub inside-later :
    (now later window : Time) (ts : List Time)
    → now ≤ later
    → inside later window (inside now window ts) ≡ inside later window ts
unfolding inside
inside-later now later window [] h = refl
inside-later now later window (t ∷ ts) h = ground (arith, inside-later now later window ts)

pub inside-append :
    (now window : Time) (ts us : List Time)
    → inside now window (ts ++ us) ≡ inside now window ts ++ inside now window us
unfolding inside
inside-append now window [] us = refl
inside-append now window (t ∷ ts) us = ground (arith, inside-append now window ts us)

-- The scores that are still in the window, whether or not the key has expired.
abbrev pub live : (now window : Time) → SortedSet → List Time
live now window z = inside now window (load now z).scores

-- The request is allowed exactly if fewer than `limit` allowed requests are in the window; then it is
-- added to them, and otherwise they alone are kept.
pub sliding_window_limiter_lem :
    (limit : ℕ) (window now : Time) (z : SortedSet)
    → ((sliding_window_limiter limit window now z).0 ≡ ltb (length (live now window z)) limit)
      × ((sliding_window_limiter limit window now z).1.scores ≡ (
          if ltb (length (live now window z)) limit
          then live now window z ++ now ∷ []
          else live now window z))
unfolding sliding_window_limiter
sliding_window_limiter_lem limit window now z =
    ground (arith, zcount-inside now window (load now z).scores)
