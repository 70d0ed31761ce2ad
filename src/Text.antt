-- ===== src/Text.antt =====
-- Texts as the lists of their characters' numbers, and the methods of Python's `str` and of `re` that
-- the code calls on them.
pub mod Words
pub mod Runs
use Prim.Native.Char.{code}
use relays.Prelude.{
  ℕ, zero, suc, ◌+◌, ◌-◌, ◌*◌, ◌^◌, ◌≤◌, ◌<◌, min, String, ◌≡◌, refl, sym, ap, subst, ◌∙◌, ◌≢◌, ◌⊎◌,
  inl, inr, Bool, true, false, not, ◌&&◌, ◌||◌, Option, none, some, List, [], ◌∷◌, ◌++◌, map, arith,
  str_eq, Uuid, Digest, Time, ltb, leb, ◌==◌, if◌then◌else◌, Bool-cases, Option-cases, ==_refl,
  is_some, map_option, All, length, take, All-append, All-map, length-append,
}

-- The characters of a literal.
unfoldable pub chars : String → List ℕ
chars String.[] = []
chars (String.◌∷◌ c s) = code c ∷ chars s

-- Unicode, as Python has it: white space (also `\s`), decimal and other digits, `lower`, and the text of
-- a list of characters.
pub record Unicode : Type 0 where
  pub is_space : ℕ → Bool
  pub is_digit : ℕ → Bool
  pub lower : List ℕ → List ℕ
  pub text : List ℕ → String

-- What Python documents of ASCII: the space is white space, the visible characters are not, and `lower`
-- leaves a text of visible characters without capitals as it is.
abbrev pub is_small_ascii : ℕ → Bool
is_small_ascii c = leb 33 c && leb c 126 && not (leb 65 c && leb c 90)

pub record IsPython (u : Unicode) : Type 0 where
  pub blank : u.is_space 32 ≡ true
  pub visible : (c : ℕ) → is_small_ascii c ≡ true → u.is_space c ≡ false
  pub lower_same : (s : List ℕ) → All (λ c. is_small_ascii c ≡ true) s → u.lower s ≡ s

abbrev pub is_nil : List ℕ → Bool
is_nil [] = true
is_nil (_ ∷ _) = false

module _ (p : ℕ → Bool) where
  unfoldable pub lstrip : List ℕ → List ℕ
  lstrip [] = []
  lstrip (c ∷ s) = if p c then lstrip s else c ∷ s

  unfoldable pub rstrip : List ℕ → List ℕ
  rstrip [] = []
  rstrip (c ∷ s) = let rest = rstrip s in if p c && is_nil rest then [] else c ∷ rest

  -- `strip`, of the characters that meet the condition.
  unfoldable pub strip : List ℕ → List ℕ
  unfolding lstrip rstrip
  strip s = rstrip (lstrip s)

  -- The characters that meet the condition, as `re.sub` leaves them when it removes the others.
  unfoldable pub keep : List ℕ → List ℕ
  keep [] = []
  keep (c ∷ s) = let rest = keep s in if p c then c ∷ rest else rest

  -- `re.sub(r"[…]+", d, s)`: each run of characters that meet the condition becomes one `d`.
  unfoldable pub runs_from : (inside : Bool) → (d : ℕ) → List ℕ → List ℕ
  runs_from inside d [] = []
  runs_from inside d (c ∷ s) =
      let in_run = runs_from true d s in
      let outside = runs_from false d s in
      if p c then (if inside then in_run else d ∷ in_run) else c ∷ outside

  -- `split`, between runs of characters that meet the condition, without empty parts.
  unfoldable pub split_onto : (word : List ℕ) → List ℕ → List (List ℕ)
  split_onto word [] = if is_nil word then [] else word ∷ []
  split_onto word (c ∷ s) =
      let closed = split_onto [] s in
      let longer = split_onto (word ++ c ∷ []) s in
      if p c then (if is_nil word then closed else word ∷ closed) else longer

  unfoldable pub split : List ℕ → List (List ℕ)
  unfolding split_onto
  split s = split_onto [] s

-- `d.join(words)`
unfoldable pub join : (d : ℕ) → List (List ℕ) → List ℕ
join d [] = []
join d (w ∷ []) = w
join d (w ∷ v ∷ ws) = w ++ d ∷ join d (v ∷ ws)

abbrev pub same_text : List ℕ → List ℕ → Bool
same_text [] [] = true
same_text [] (_ ∷ _) = false
same_text (_ ∷ _) [] = false
same_text (c ∷ s) (d ∷ t) = c == d && same_text s t

-- `s in {…}`, of literals
unfoldable pub is_one_of : List ℕ → List String → Bool
unfolding chars
is_one_of s [] = false
is_one_of s (t ∷ ts) = same_text s (chars t) || is_one_of s ts
