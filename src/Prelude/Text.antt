-- ===== src/Prelude/Text.antt =====
-- What the program uses of Rust's `str`, over the code points of a text.
use Prim.Native.Nat.{ℕ, ◌+◌, ◌≤◌}
use Prim.Native.Char.{code}
use Prim.Native.String.{String}
use mathlib.Core.Path.{◌≡◌, refl, sym, ap, ◌∙◌}
use mathlib.Core.Bool.{Bool, true, false, ◌&&◌}
use native.Mathlib.Omega.{arith}
use mathlib.Core.List.{List, [], ◌∷◌, map}
use saimiris_gateway.Prelude.Tests.{Bool-cases, leb, ◌==◌, if◌then◌else◌}
use saimiris_gateway.Prelude.Lists.{any, is_empty, length}
use mathlib.Core.Logic.{inl, inr}

abbrev pub codes : String → List ℕ
codes String.[] = []
codes (String.◌∷◌ c s) = code c ∷ codes s

abbrev pub codes_eq : List ℕ → List ℕ → Bool
codes_eq [] [] = true
codes_eq [] (y ∷ ys) = false
codes_eq (x ∷ xs) [] = false
codes_eq (x ∷ xs) (y ∷ ys) = x == y && codes_eq xs ys

-- One character of `str::to_lowercase`. Only ASCII capitals are mapped: the program compares the
-- result with words over c d i m p t u v 6, and no other character's lower case is one of these
-- alone.
abbrev pub lower : ℕ → ℕ
lower c = if leb b'A' c && leb c b'Z' then c + 32 else c

abbrev pub to_lowercase : String → List ℕ
to_lowercase s = map lower (codes s)

-- `s.contains(c)` for a character
abbrev pub contains_char : ℕ → String → Bool
contains_char c s = any (λ x. x == c) (codes s)

pub codes_eq→eq : (xs ys : List ℕ) → codes_eq xs ys ≡ true → xs ≡ ys
codes_eq→eq [] [] h = refl
codes_eq→eq [] (y ∷ ys) h = cc
codes_eq→eq (x ∷ xs) [] h = cc
codes_eq→eq (x ∷ xs) (y ∷ ys) h = ground (arith, codes_eq→eq xs ys)

-- A text that is one word is no other.
pub words_apart :
    (xs ys zs : List ℕ) → codes_eq ys zs ≡ false → codes_eq xs ys ≡ true → codes_eq xs zs ≡ false
words_apart xs ys zs apart h = rw (codes_eq→eq xs ys h) apart

-- `trim_start_matches`, `trim_end_matches` and `trim_matches`
module _ (p : ℕ → Bool) where
  abbrev pub trim_start_matches : List ℕ → List ℕ
  trim_start_matches [] = []
  trim_start_matches (c ∷ cs) = let rest = trim_start_matches cs in if p c then rest else c ∷ cs

  -- A character stays at the end if it does not match, or one that stays stands after it.
  abbrev pub trim_end_matches : List ℕ → List ℕ
  trim_end_matches [] = []
  trim_end_matches (c ∷ cs) =
      let rest = trim_end_matches cs in if p c && is_empty rest then [] else c ∷ rest

  abbrev pub trim_matches : List ℕ → List ℕ
  trim_matches s = trim_start_matches (trim_end_matches s)

  trim_start_twice : (s : List ℕ) → trim_start_matches (trim_start_matches s) ≡ trim_start_matches s
  trim_start_twice [] = refl
  trim_start_twice (c ∷ cs) = elim (Bool-cases (p c)) [
    | inl e ↦ rw e (trim_start_twice cs)
    | inr e ↦ rw e (rw e refl)
  ]

  trim_end_twice : (s : List ℕ) → trim_end_matches (trim_end_matches s) ≡ trim_end_matches s
  trim_end_twice [] = refl
  trim_end_twice (c ∷ cs) = elim (Bool-cases (p c && is_empty (trim_end_matches cs))) [
    | inl e ↦ rw e refl
    | inr e ↦ rw e (rw (trim_end_twice cs, e) refl)
  ]

  tail_eq : (c : ℕ) (b : Bool) (xs ys : List ℕ) → (if b then [] else c ∷ xs) ≡ c ∷ ys → xs ≡ ys
  tail_eq c true xs ys h = absurd cc
  tail_eq c false xs ys h = cc

  trim_end_start :
      (s : List ℕ)
      → trim_end_matches s ≡ s
      → trim_end_matches (trim_start_matches s) ≡ trim_start_matches s
  trim_end_start [] h = refl
  trim_end_start (c ∷ cs) h = elim (Bool-cases (p c)) [
    | inl e ↦ rw e (
        trim_end_start cs
          (tail_eq c (p c && is_empty (trim_end_matches cs)) (trim_end_matches cs) cs h))
    | inr e ↦ rw e h
  ]

  -- A trimmed text is trimmed.
  pub trim_twice : (s : List ℕ) → trim_matches (trim_matches s) ≡ trim_matches s
  trim_twice s =
      ap trim_start_matches (trim_end_start (trim_end_matches s) (trim_end_twice s))
      ∙ trim_start_twice (trim_end_matches s)

  trim_start_le : (s : List ℕ) → length (trim_start_matches s) ≤ length s
  trim_start_le [] = omega arith
  trim_start_le (c ∷ cs) = ground (arith, trim_start_le cs)

  trim_start_whole :
      (s : List ℕ) → length (trim_start_matches s) ≡ length s → trim_start_matches s ≡ s
  trim_start_whole [] h = refl
  trim_start_whole (c ∷ cs) h = ground (arith, trim_start_le cs)

  trim_end_le : (s : List ℕ) → length (trim_end_matches s) ≤ length s
  trim_end_le [] = omega arith
  trim_end_le (c ∷ cs) = ground (arith, trim_end_le cs)

  trim_end_whole : (s : List ℕ) → length (trim_end_matches s) ≡ length s → trim_end_matches s ≡ s
  trim_end_whole [] h = refl
  trim_end_whole (c ∷ cs) h = ground (arith, trim_end_whole cs)

  -- A text that keeps its length is left as it is.
  pub trim_whole : (s : List ℕ) → length (trim_matches s) ≡ length s → trim_matches s ≡ s
  trim_whole s h =
      let long = trim_start_le (trim_end_matches s) in
      let ended = trim_end_whole s (omega (arith, long, trim_end_le s, h)) in
      ap trim_start_matches ended
      ∙ trim_start_whole s (sym (ap (λ t. length (trim_start_matches t)) ended) ∙ h)
