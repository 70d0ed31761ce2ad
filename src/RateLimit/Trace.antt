-- ===== src/RateLimit/Trace.antt =====
-- The limiter over a sequence of requests for one key.
use relays.RateLimit.Window.{live, inside-later, inside-append, zcount-inside}
use relays.Prelude.{
  ℕ, ◌+◌, ◌≤◌, ◌<◌, ◌≡◌, refl, sym, ap, ◌∙◌, inl, inr, false, Option, none, some, List, [], ◌∷◌,
  ◌++◌, arith, Time, leb, if◌then◌else◌, Bool-cases, Option-cases, All, length, All-append, All-map,
  length-append,
}
use relays.RateLimit.{SortedSet, sliding_window_limiter, inside, load, empty_set, in_window, zcount}

-- The allowed requests so far, the oldest first, and the set of the key.
pub record Run : Type 0 where
  pub allowed : List Time
  pub set : SortedSet

unfoldable pub request : (limit : ℕ) → (window : Time) → (now : Time) → Run → Run
request limit window now r =
    let (yes_or_no, z) = sliding_window_limiter limit window now r.set in
    record { allowed = if yes_or_no then r.allowed ++ now ∷ [] else r.allowed; set = z }

module _ (window : Time) where
  -- The key does not expire before its last score has left the window.
  abbrev Outlives : Option Time → List Time → Type 0
  Outlives none ts = Unit
  Outlives (some e) ts = All (λ t. t + window ≤ e) ts

  inside-old :
      (n e : Time) (ts : List Time) → All (λ t. t + window ≤ e) ts → e ≤ n → inside n window ts ≡ []
  unfolding inside
  inside-old n e [] h le = refl
  inside-old n e (t ∷ ts) h le = ground (arith, inside-old n e ts h.1 le)

  All-inside :
      (P : Time → Type 0) (n : Time) (ts : List Time) → All P ts → All P (inside n window ts)
  unfolding inside
  All-inside P n [] h = tt
  All-inside P n (t ∷ ts) h = elim (Bool-cases (in_window n window t)) [
    | inl hit ↦ rw hit (h.0, All-inside P n ts h.1)
    | inr miss ↦ rw miss (All-inside P n ts h.1)
  ]

  -- Expiry removes nothing that would count, now or later.
  expiry_harmless :
      (m n : Time) (z : SortedSet) (o : Option Time)
      → m ≤ n
      → z.expires_at ≡ o
      → Outlives o z.scores
      → inside n window (load m z).scores ≡ inside n window z.scores
  unfolding load inside
  expiry_harmless m n z none le e h = rw e refl
  expiry_harmless m n z (some t) le e h = elim (Bool-cases (leb t m)) [
    | inl gone ↦ rw e (rw gone (sym (inside-old n t z.scores h (ground arith))))
    | inr there ↦ rw e (rw there refl)
  ]

  All-load :
      (P : Time → Type 0) (m : Time) (z : SortedSet) → All P z.scores → All P (load m z).scores
  unfolding load
  All-load P m z h = elim (Option-cases z.expires_at) [
    | inl never ↦ rw never h
    | inr (t, e) ↦
        rw e (elim (Bool-cases (leb t m)) [ inl gone ↦ rw gone tt | inr there ↦ rw there h ])
  ]

  Outlives-load :
      (m : Time) (z : SortedSet)
      → Outlives z.expires_at z.scores
      → Outlives (load m z).expires_at (load m z).scores
  unfolding load
  Outlives-load m z h = elim (Option-cases z.expires_at) [
    | inl never ↦ rw never (rw never at h)
    | inr (t, e) ↦
        rw e
          (elim (Bool-cases (leb t m)) [ inl gone ↦ rw gone tt | inr there ↦ rw there (rw e at h) ])
  ]

  Outlives-inside :
      (n : Time) (o : Option Time) (ts : List Time)
      → Outlives o ts
      → Outlives o (inside n window ts)
  Outlives-inside n none ts h = tt
  Outlives-inside n (some e) ts h = All-inside (λ t. t + window ≤ e) n ts h

  -- The set agrees with the allowed requests on every window from now on.
  pub record IsFaithful (now : Time) (r : Run) : Type 0 where
    pub agrees : (n : Time) → now ≤ n → inside n window r.allowed ≡ inside n window r.set.scores
    pub past : All (λ t. t ≤ now) r.set.scores
    pub outlives : Outlives r.set.expires_at r.set.scores

  unfoldable pub start : Run
  start = record { allowed = []; set = empty_set }

  pub start-IsFaithful : (now : Time) → IsFaithful now start
  unfolding start
  start-IsFaithful now = record { agrees = λ n _. refl; past = tt; outlives = tt }

  length-inside-one : (t : Time) → length (inside t window (t ∷ [])) ≤ 1
  unfolding inside
  length-inside-one t = ground arith

  -- As time goes on fewer of the same requests are in the window.
  length-inside-le :
      (n later : Time) (ts : List Time)
      → n ≤ later
      → length (inside later window ts) ≤ length (inside n window ts)
  unfolding inside
  length-inside-le n later [] le = omega arith
  length-inside-le n later (t ∷ ts) le = ground (arith, length-inside-le n later ts le)

  module _ (limit now later : Time) (r : Run) (le : now ≤ later) (h : IsFaithful now r) where
    still_live :
        (n : Time)
        → later ≤ n
        → inside n window (live later window r.set) ≡ inside n window r.allowed
    still_live n after =
        inside-later later n window (load later r.set).scores after
        ∙ expiry_harmless later n r.set r.set.expires_at after refl h.outlives
        ∙ sym (h.agrees n (omega arith))

    live_past : All (λ t. t ≤ later) (live later window r.set)
    live_past =
        All-inside (λ t. t ≤ later) later (load later r.set).scores
          (All-load (λ t. t ≤ later) later r.set
            (All-map (λ t. t ≤ now) (λ t. t ≤ later) r.set.scores (λ t k. omega arith) h.past))

    -- A request at a later instant keeps the agreement.
    pub request-IsFaithful : IsFaithful later (request limit window later r)
    unfolding request sliding_window_limiter
    request-IsFaithful =
        elim (Bool-cases (leb limit (zcount later window (live later window r.set)))) [
          | inl refused ↦ rw refused (record {
            agrees = λ n after. sym (still_live n after);
            past = live_past;
            outlives =
                Outlives-inside later _ (load later r.set).scores
                  (Outlives-load later r.set h.outlives);
          })
          | inr taken ↦ rw taken (record {
            agrees = λ n after.
                inside-append n window r.allowed (later ∷ [])
                ∙ ap (λ ts. ts ++ inside n window (later ∷ [])) (sym (still_live n after))
                ∙ sym (inside-append n window (live later window r.set) (later ∷ []));
            past = All-append _ (live later window r.set) (later ∷ []) live_past (omega arith, tt);
            outlives =
                All-append _ (live later window r.set) (later ∷ [])
                  (All-map (λ t. t ≤ later) (λ t. t + window ≤ later + window) _
                    (λ t k. omega arith) live_past)
                  (omega arith, tt);
          })
        ]

    room :
        leb limit (zcount later window (live later window r.set)) ≡ false
        → length (inside later window r.allowed) < limit
    room taken =
        let same : length (live later window r.set) ≡ length (inside later window r.allowed) =
          ap length (
            sym (inside-later later later window (load later r.set).scores (omega arith))
            ∙ still_live later (omega arith)) in
        ground (arith, zcount-inside later window (load later r.set).scores)

    -- At most `limit` allowed requests lie in the window that ends now.
    request_bound :
        length (inside later window r.allowed) ≤ limit
        → length (inside later window (request limit window later r).allowed) ≤ limit
    unfolding request sliding_window_limiter
    request_bound before =
        elim (Bool-cases (leb limit (zcount later window (live later window r.set)))) [
          | inl refused ↦ rw refused before
          | inr taken ↦ rw taken (
              rw (inside-append later window r.allowed (later ∷ [])) (
                omega (
                  arith,
                  length-append (inside later window r.allowed) (inside later window (later ∷ [])),
                  length-inside-one later,
                  room taken,
                )))
        ]

  -- A sequence of requests, in the order of time from `now` on.
  abbrev pub IsChronological : Time → List Time → Type 0
  IsChronological now [] = Unit
  IsChronological now (t ∷ ts) = (now ≤ t) × IsChronological t ts

  unfoldable pub serve : (limit : ℕ) → List Time → Run → Run
  serve limit [] r = r
  serve limit (t ∷ ts) r = serve limit ts (request limit window t r)

  serve_bound :
      (limit : ℕ) (ts : List Time) (now : Time) (r : Run)
      → IsFaithful now r
      → length (inside now window r.allowed) ≤ limit
      → IsChronological now ts
      → (n : Time) → now ≤ n
      → All (λ t. t ≤ n) ts
      → length (inside n window (serve limit ts r).allowed) ≤ limit
  unfolding serve
  serve_bound limit [] now r h b c n le past = omega (arith, length-inside-le now n r.allowed le)
  serve_bound limit (t ∷ ts) now r h b c n le past =
      serve_bound limit ts t (request limit window t r) (request-IsFaithful limit now t r c.0 h)
        (request_bound limit now t r c.0 h (omega (arith, length-inside-le now t r.allowed c.0)))
        c.1 n past.0 past.1

-- Whatever requests come for a key, and however many are refused, at no instant do more than `limit`
-- allowed requests lie in the window that ends there; neither the removal of old scores nor the expiry
-- of the key lets one in too early.
pub sliding_window_bound :
    (limit : ℕ) (window : Time) (ts : List Time) (now : Time)
    → IsChronological window 0 ts
    → All (λ t. t ≤ now) ts
    → length (inside now window (serve window limit ts (start window)).allowed) ≤ limit
unfolding start inside
sliding_window_bound limit window ts now c past =
    serve_bound window limit ts 0 (start window) (start-IsFaithful window 0) (omega arith) c now
      (omega arith) past
