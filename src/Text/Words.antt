-- ===== src/Text/Words.antt =====
-- Splitting, joining and stripping texts made of words.
use relays.Prelude.{
  ℕ, ◌≡◌, refl, sym, ap, ◌∙◌, inl, inr, Bool, true, false, List, [], ◌∷◌, ◌++◌, arith, Bool-cases,
  All, All-append,
}
use mathlib.Core.List.{append_assoc, append-nil}
use relays.Text.{is_nil, lstrip, rstrip, strip, split_onto, split, join}

module _ (p : ℕ → Bool) where
  -- A word is not empty and has no character that separates words.
  abbrev pub IsFree : List ℕ → Type 0
  IsFree = All (λ c. p c ≡ false)

  abbrev pub IsWord : List ℕ → Type 0
  IsWord w = (is_nil w ≡ false) × IsFree w

  is_nil-append : (w : List ℕ) (c : ℕ) → is_nil (w ++ c ∷ []) ≡ false
  is_nil-append [] c = refl
  is_nil-append (x ∷ w) c = refl

  split_onto-words : (w s : List ℕ) → IsFree w → All IsWord (split_onto p w s)
  unfolding split_onto
  split_onto-words w [] h = elim (Bool-cases (is_nil w)) [
    | inl empty ↦ rw empty tt
    | inr full ↦ rw full ((full, h), tt)
  ]
  split_onto-words w (c ∷ s) h = elim (Bool-cases (p c)) [
    | inl sep ↦ elim (Bool-cases (is_nil w)) [
      | inl empty ↦ rw (sep, empty) (split_onto-words [] s tt)
      | inr full ↦ rw (sep, full) ((full, h), split_onto-words [] s tt)
    ]
    | inr free ↦
        rw free
          (split_onto-words (w ++ c ∷ []) s (All-append (λ x. p x ≡ false) w (c ∷ []) h (free, tt)))
  ]

  -- A split gives words.
  pub split-IsWord : (s : List ℕ) → All IsWord (split p s)
  unfolding split
  split-IsWord s = split_onto-words [] s tt

  split_onto-append :
      (w v s : List ℕ) → IsFree v → split_onto p w (v ++ s) ≡ split_onto p (w ++ v) s
  unfolding split_onto
  split_onto-append w [] s h = rw append-nil refl
  split_onto-append w (c ∷ v) s h =
      rw (h.0, split_onto-append (w ++ c ∷ []) v s h.1, append_assoc) refl

  split_onto_end : (w : List ℕ) → is_nil w ≡ false → split_onto p w [] ≡ w ∷ []
  unfolding split_onto
  split_onto_end w h = rw h refl

  split_onto_sep :
      (w s : List ℕ) (d : ℕ)
      → is_nil w ≡ false
      → p d ≡ true
      → split_onto p w (d ∷ s) ≡ w ∷ split_onto p [] s
  unfolding split_onto
  split_onto_sep w s d h sep = rw (sep, h) refl

  -- Splitting a join of words gives the words back.
  pub split-join :
      (d : ℕ) (ws : List (List ℕ)) → p d ≡ true → All IsWord ws → split p (join d ws) ≡ ws
  unfolding split join
  split-join d [] sep h = unfold split_onto in refl
  split-join d (w ∷ []) sep h =
      ap (split_onto p []) (sym (append-nil w))
      ∙ split_onto-append [] w [] h.0.1
      ∙ split_onto_end w h.0.0
  split-join d (w ∷ v ∷ ws) sep h =
      split_onto-append [] w (d ∷ join d (v ∷ ws)) h.0.1
      ∙ split_onto_sep w (join d (v ∷ ws)) d h.0.0 sep
      ∙ ap (λ (vs : List (List ℕ)). w ∷ vs) (split-join d (v ∷ ws) sep h.1)

  lstrip_word : (w s : List ℕ) → IsWord w → lstrip p (w ++ s) ≡ w ++ s
  unfolding lstrip
  lstrip_word [] s h = cc
  lstrip_word (c ∷ w) s h = rw h.1.0 refl

  rstrip_word : (w s : List ℕ) → IsFree w → rstrip p s ≡ s → rstrip p (w ++ s) ≡ w ++ s
  unfolding rstrip
  rstrip_word [] s h e = e
  rstrip_word (c ∷ w) s h e = rw (rstrip_word w s h.1 e, h.0) refl

  join_full :
      (d : ℕ) (v : List ℕ) (ws : List (List ℕ)) → IsWord v → is_nil (join d (v ∷ ws)) ≡ false
  unfolding join
  join_full d (c ∷ v) [] h = refl
  join_full d (c ∷ v) (w ∷ ws) h = refl
  join_full d [] ws h = cc

  rstrip_sep : (d : ℕ) (s : List ℕ) → rstrip p s ≡ s → is_nil s ≡ false → rstrip p (d ∷ s) ≡ d ∷ s
  unfolding rstrip
  rstrip_sep d s e full = ground (arith, e)

  rstrip-join : (d : ℕ) (ws : List (List ℕ)) → All IsWord ws → rstrip p (join d ws) ≡ join d ws
  unfolding join
  rstrip-join d [] h = unfold rstrip in refl
  rstrip-join d (w ∷ []) h =
      ap (rstrip p) (sym (append-nil w))
      ∙ rstrip_word w [] h.0.1 (unfold rstrip in refl)
      ∙ append-nil w
  rstrip-join d (w ∷ v ∷ ws) h =
      rstrip_word w (d ∷ join d (v ∷ ws)) h.0.1
        (rstrip_sep d (join d (v ∷ ws)) (rstrip-join d (v ∷ ws) h.1) (join_full d v ws h.1.0))

  lstrip-join : (d : ℕ) (ws : List (List ℕ)) → All IsWord ws → lstrip p (join d ws) ≡ join d ws
  unfolding join
  lstrip-join d [] h = unfold lstrip in refl
  lstrip-join d (w ∷ []) h =
      ap (lstrip p) (sym (append-nil w)) ∙ lstrip_word w [] h.0 ∙ append-nil w
  lstrip-join d (w ∷ v ∷ ws) h = lstrip_word w (d ∷ join d (v ∷ ws)) h.0

  -- A join of words has nothing to strip.
  pub strip-join : (d : ℕ) (ws : List (List ℕ)) → All IsWord ws → strip p (join d ws) ≡ join d ws
  unfolding strip
  strip-join d ws h = rw (lstrip-join d ws h) (rstrip-join d ws h)
