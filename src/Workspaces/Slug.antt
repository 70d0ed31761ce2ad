-- ===== src/Workspaces/Slug.antt =====
-- The form of slugs.
use relays.Prelude.{ℕ, ◌≡◌, refl, ap, ◌∙◌, true, false, List, [], ◌∷◌, arith, All, All-map}
use relays.Text.{IsPython, is_small_ascii, Unicode, is_nil, strip, split, join}
use relays.Text.Words.{IsWord, IsFree, split-IsWord, split-join, strip-join}
use relays.Text.Runs.{strip-runs_from, All-split, All-join, runs_from_free, All-keep, keep-All}
use relays.Workspaces.{is_alnum, is_dash, is_gap, slug_char, hyphenated, slugify}

-- A part of a slug: one or more letters from a to z and digits.
abbrev pub IsPart : List ℕ → Type 0
IsPart w = (is_nil w ≡ false) × All (λ c. is_alnum c ≡ true) w

-- A slug is made of parts with one hyphen between two of them; the empty text is made of none.
abbrev pub IsSlug : List ℕ → Type 0
IsSlug s = (parts : List (List ℕ)) × (s ≡ join 45 parts) × All IsPart parts

alnum_only :
    (w : List ℕ)
    → All (λ c. is_dash c ≡ false) w
    → All (λ c. slug_char c ≡ true) w
    → All (λ c. is_alnum c ≡ true) w
alnum_only [] h k = tt
alnum_only (c ∷ w) h k = (ground (arith, h.0, k.0), alnum_only w h.1 k.1)

All-IsPart :
    (ws : List (List ℕ))
    → All (IsWord is_dash) ws
    → All (All (λ c. slug_char c ≡ true)) ws
    → All IsPart ws
All-IsPart [] h k = tt
All-IsPart (w ∷ ws) h k = ((h.0.0, alnum_only w h.0.1 k.0), All-IsPart ws h.1 k.1)

-- Whatever the name of a workspace, its slug has the form of a slug.
pub slugify-IsSlug : (u : Unicode) (value : List ℕ) → IsSlug (slugify u value)
unfolding slugify hyphenated
slugify-IsSlug u value =
    let ws = split is_dash (hyphenated u value) in
    (
      ws,
      strip-runs_from is_dash 45 refl (hyphenated u value),
      All-IsPart ws (split-IsWord is_dash (hyphenated u value))
          (All-split is_dash (λ c. slug_char c ≡ true) (hyphenated u value) (All-keep slug_char _)),
    )

small_slug_char : (c : ℕ) → slug_char c ≡ true → is_small_ascii c ≡ true
small_slug_char c h = ground arith

module _ (u : Unicode) (python : IsPython u) where
  gap-IsFree : (s : List ℕ) → All (λ c. slug_char c ≡ true) s → IsFree (is_gap u) s
  gap-IsFree [] h = tt
  gap-IsFree (c ∷ s) h =
      (ground (arith, python.visible c (small_slug_char c h.0), h.0), gap-IsFree s h.1)

  part_chars : (w : List ℕ) → All (λ c. is_alnum c ≡ true) w → All (λ c. slug_char c ≡ true) w
  part_chars w h = All-map (λ c. is_alnum c ≡ true) (λ c. slug_char c ≡ true) w (λ c k. rw k refl) h

  parts_chars : (ws : List (List ℕ)) → All IsPart ws → All (All (λ c. slug_char c ≡ true)) ws
  parts_chars ws h = All-map IsPart (All (λ c. slug_char c ≡ true)) ws (λ w k. part_chars w k.1) h

  part-IsWord-space : (w : List ℕ) → IsPart w → IsWord u.is_space w
  part-IsWord-space w h = (
    h.0,
    All-map (λ c. is_alnum c ≡ true) (λ c. u.is_space c ≡ false) w
        (λ c k. python.visible c (small_slug_char c (rw k refl))) h.1,
  )

  part-IsWord-dash : (w : List ℕ) → IsPart w → IsWord is_dash w
  part-IsWord-dash w h = (
    h.0,
    All-map (λ c. is_alnum c ≡ true) (λ c. is_dash c ≡ false) w (λ c k. ground (arith, k)) h.1,
  )

  -- A text that has the form of a slug is its own slug.
  slugify_slug : (s : List ℕ) → IsSlug s → slugify u s ≡ s
  unfolding slugify hyphenated
  slugify_slug s (ws, e, parts) =
      let chars = All-join (λ c. slug_char c ≡ true) 45 ws refl (parts_chars ws parts) in
      let stripped : strip u.is_space (join 45 ws) ≡ join 45 ws =
        strip-join u.is_space 45 ws
          (All-map IsPart (IsWord u.is_space) ws part-IsWord-space parts) in
      let lowered = python.lower_same (join 45 ws) (
        All-map (λ c. slug_char c ≡ true) (λ c. is_small_ascii c ≡ true) (join 45 ws)
          small_slug_char chars) in
      let whole = runs_from_free (is_gap u) 45 (join 45 ws) (gap-IsFree (join 45 ws) chars) in
      rw (e, stripped, lowered, whole, keep-All slug_char (join 45 ws) chars)
        (strip-runs_from is_dash 45 refl (join 45 ws)
          ∙ ap (join 45) (
              split-join is_dash 45 ws refl
                (All-map IsPart (IsWord is_dash) ws part-IsWord-dash parts)))

-- Under what Python documents of ASCII, making a slug of a slug changes nothing.
pub slugify_idempotent :
    (u : Unicode) → IsPython u → (value : List ℕ) → slugify u (slugify u value) ≡ slugify u value
slugify_idempotent u python value = slugify_slug u python (slugify u value) (slugify-IsSlug u value)
