-- ===== src/Text/Runs.antt =====
-- Collapsing runs of separators and stripping the outer ones is splitting and joining.
use relays.Prelude.{
  ℕ, ◌≡◌, refl, sym, ap, ◌∙◌, inl, inr, Bool, true, false, List, [], ◌∷◌, ◌++◌, Bool-cases, All,
  All-append,
}
use mathlib.Core.List.{append_assoc, append-nil}
use relays.Text.{is_nil, lstrip, rstrip, strip, keep, runs_from, split_onto, split, join}
use relays.Text.Words.{IsWord, IsFree}

module _ (p : ℕ → Bool) (d : ℕ) (sep : p d ≡ true) where
  rstrip-append : (w s : List ℕ) → IsFree p w → rstrip p (w ++ s) ≡ w ++ rstrip p s
  unfolding rstrip
  rstrip-append [] s h = refl
  rstrip-append (c ∷ w) s h = rw (rstrip-append w s h.1, h.0) refl

  is_nil-snoc : (w : List ℕ) (c : ℕ) → is_nil (w ++ c ∷ []) ≡ false
  is_nil-snoc [] c = refl
  is_nil-snoc (x ∷ w) c = refl

  snoc-IsWord : (w : List ℕ) (c : ℕ) → IsFree p w → p c ≡ false → IsWord p (w ++ c ∷ [])
  snoc-IsWord w c h free = (is_nil-snoc w c, All-append (λ x. p x ≡ false) w (c ∷ []) h (free, tt))

  join_cons :
      (w s : List ℕ) (v : List ℕ)
      → is_nil v ≡ false
      → join d (w ∷ split_onto p v s) ≡ w ++ d ∷ join d (split_onto p v s)
  unfolding split_onto join
  join_cons w [] v full = rw full refl
  join_cons w (c ∷ s) v full = elim (Bool-cases (p c)) [
    | inl hit ↦ rw (hit, full) refl
    | inr miss ↦ rw miss (join_cons w s (v ++ c ∷ []) (is_nil-snoc v c))
  ]

  rstrip_sep_free : (c : ℕ) (s : List ℕ) → p c ≡ false → rstrip p (d ∷ c ∷ s) ≡ d ∷ rstrip p (c ∷ s)
  unfolding rstrip
  rstrip_sep_free c s free = rw (free, sep) refl

  rstrip_one : rstrip p (d ∷ []) ≡ []
  unfolding rstrip
  rstrip_one = rw sep refl

  -- The text that is still to come: after a word `w`, or after `w` and one separator.
  abbrev behind : Bool → List ℕ → List ℕ → List ℕ
  behind false w s = w ++ runs_from p false d s
  behind true w s = w ++ d ∷ runs_from p true d s

  abbrev parts : Bool → List ℕ → List ℕ → List (List ℕ)
  parts false w s = split_onto p w s
  parts true w s = w ∷ split_onto p [] s

  rstrip-behind :
      (after_sep : Bool) (s w : List ℕ)
      → IsWord p w
      → rstrip p (behind after_sep w s) ≡ join d (parts after_sep w s)
  unfolding runs_from split_onto join
  rstrip-behind false [] w h = rw (h.0, rstrip-append w [] h.1) (unfold rstrip in append-nil w)
  rstrip-behind true [] w h = rw (rstrip-append w (d ∷ []) h.1, rstrip_one) (append-nil w)
  rstrip-behind false (c ∷ s) w h = elim (Bool-cases (p c)) [
    | inl hit ↦ rw (hit, h.0) (rstrip-behind true s w h)
    | inr miss ↦ rw miss (
        ap (rstrip p) (sym (append_assoc w (c ∷ []) (runs_from p false d s)))
        ∙ rstrip-behind false s (w ++ c ∷ []) (snoc-IsWord w c h.1 miss))
  ]
  rstrip-behind true (c ∷ s) w h = elim (Bool-cases (p c)) [
    | inl hit ↦ rw hit (rstrip-behind true s w h)
    | inr miss ↦ rw miss (
        rstrip-append w (d ∷ c ∷ runs_from p false d s) h.1
        ∙ ap (λ t. w ++ t)
            (rstrip_sep_free c (runs_from p false d s) miss
              ∙ ap (λ t. d ∷ t) (rstrip-behind false s (c ∷ []) (refl, (miss, tt))))
        ∙ sym (join_cons w s (c ∷ []) refl))
  ]

  strip-runs_from_any :
      (inside : Bool) (s : List ℕ) → strip p (runs_from p inside d s) ≡ join d (split_onto p [] s)
  unfolding strip lstrip runs_from split_onto join
  strip-runs_from_any inside [] = unfold rstrip in refl
  strip-runs_from_any true (c ∷ s) = elim (Bool-cases (p c)) [
    | inl hit ↦ rw hit (strip-runs_from_any true s)
    | inr miss ↦ rw (miss, miss) (rstrip-behind false s (c ∷ []) (refl, (miss, tt)))
  ]
  strip-runs_from_any false (c ∷ s) = elim (Bool-cases (p c)) [
    | inl hit ↦ rw (hit, sep) (strip-runs_from_any true s)
    | inr miss ↦ rw (miss, miss) (rstrip-behind false s (c ∷ []) (refl, (miss, tt)))
  ]

  -- Every run of separators collapsed to one, and the outer ones stripped: the words of the text,
  -- joined by one separator.
  pub strip-runs_from : (s : List ℕ) → strip p (runs_from p false d s) ≡ join d (split p s)
  unfolding split
  strip-runs_from s = strip-runs_from_any false s

-- The parts of a split have the characters of the text, and a join those of its parts.
module _ (p : ℕ → Bool) (Q : ℕ → Type 0) where
  All-split_onto : (w s : List ℕ) → All Q w → All Q s → All (All Q) (split_onto p w s)
  unfolding split_onto
  All-split_onto w [] h k = elim (Bool-cases (is_nil w)) [
    | inl empty ↦ rw empty tt
    | inr full ↦ rw full (h, tt)
  ]
  All-split_onto w (c ∷ s) h k = elim (Bool-cases (p c)) [
    | inl hit ↦ elim (Bool-cases (is_nil w)) [
      | inl empty ↦ rw (hit, empty) (All-split_onto [] s tt k.1)
      | inr full ↦ rw (hit, full) (h, All-split_onto [] s tt k.1)
    ]
    | inr miss ↦ rw miss (All-split_onto (w ++ c ∷ []) s (All-append Q w (c ∷ []) h (k.0, tt)) k.1)
  ]

  pub All-split : (s : List ℕ) → All Q s → All (All Q) (split p s)
  unfolding split
  All-split s h = All-split_onto [] s tt h

pub All-join :
    (Q : ℕ → Type 0) (d : ℕ) (ws : List (List ℕ)) → Q d → All (All Q) ws → All Q (join d ws)
unfolding join
All-join Q d [] q h = tt
All-join Q d (w ∷ []) q h = h.0
All-join Q d (w ∷ v ∷ ws) q h =
    All-append Q w (d ∷ join d (v ∷ ws)) h.0 (q, All-join Q d (v ∷ ws) q h.1)

-- Nothing to collapse, and nothing to remove.
pub runs_from_free : (p : ℕ → Bool) (d : ℕ) (s : List ℕ) → IsFree p s → runs_from p false d s ≡ s
unfolding runs_from
runs_from_free p d [] h = refl
runs_from_free p d (c ∷ s) h = rw (h.0, runs_from_free p d s h.1) refl

pub All-keep : (p : ℕ → Bool) (s : List ℕ) → All (λ c. p c ≡ true) (keep p s)
unfolding keep
All-keep p [] = tt
All-keep p (c ∷ s) = elim (Bool-cases (p c)) [
  | inl hit ↦ rw hit (hit, All-keep p s)
  | inr miss ↦ rw miss (All-keep p s)
]

pub keep-All : (p : ℕ → Bool) (s : List ℕ) → All (λ c. p c ≡ true) s → keep p s ≡ s
unfolding keep
keep-All p [] h = refl
keep-All p (c ∷ s) h = rw (h.0, keep-All p s h.1) refl
