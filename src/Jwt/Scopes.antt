-- ===== src/Jwt/Scopes.antt =====
-- The scopes are the words of the claim.
use Prim.Native.Char.{Char, code}
use saimiris_gateway.Prelude.{
  ℕ, String, false, List, [], ◌∷◌, ◌++◌, ◌≡◌, refl, ap, arith, All, ◌==◌, codes, contains_char,
  is_empty, Bool-cases, inl, inr, ◌∙◌, ==_iff,
}
use saimiris_gateway.Jwt.Validator.{push, split_spaces}

-- The words with a space between any two.
abbrev pub join_spaces : List String → List ℕ
join_spaces [] = []
join_spaces (word ∷ []) = codes word
join_spaces (word ∷ next ∷ words) = codes word ++ (b' ' ∷ join_spaces (next ∷ words))

push_joined :
    (c : Char) (words : List String) → join_spaces (push c words) ≡ code c ∷ join_spaces words
push_joined c [] = refl
push_joined c (word ∷ []) = refl
push_joined c (word ∷ next ∷ words) = refl

push-All :
    (c : Char) (words : List String)
    → (code c == b' ') ≡ false
    → All (λ word. contains_char b' ' word ≡ false) words
    → All (λ word. contains_char b' ' word ≡ false) (push c words)
push-All c [] other h = (ground arith, tt)
push-All c (word ∷ words) other h = (ground arith, h.1)

pushed : (c : Char) (words : List String) → is_empty (push c words) ≡ false
pushed c [] = refl
pushed c (word ∷ words) = refl

-- There is a word before each space, and one at the end.
some_words : (s : String) → is_empty (split_spaces s) ≡ false
unfolding split_spaces
some_words String.[] = refl
some_words (String.◌∷◌ c s) = elim (Bool-cases (code c == b' ')) [
  | inl e ↦ rw e refl
  | inr e ↦ rw e (pushed c (split_spaces s))
]

space_joined :
    (words : List String)
    → is_empty words ≡ false
    → join_spaces ("" ∷ words) ≡ b' ' ∷ join_spaces words
space_joined [] h = absurd cc
space_joined (word ∷ words) h = refl

-- The scopes, joined by spaces, are the claim again, and no scope has a space.
pub join_spaces-split_spaces :
    (s : String)
    → (join_spaces (split_spaces s) ≡ codes s)
      × All (λ word. contains_char b' ' word ≡ false) (split_spaces s)
unfolding split_spaces
join_spaces-split_spaces String.[] = (refl, (refl, tt))
join_spaces-split_spaces (String.◌∷◌ c s) =
    let (joined, apart) = join_spaces-split_spaces s in
    let words = split_spaces s in
    elim (Bool-cases (code c == b' ')) [
      | inl e ↦ rw e (
        space_joined words (some_words s) ∙ rw (joined, (==_iff (code c) b' ').0 e) refl,
        (refl, apart),
      )
      | inr e ↦ rw e (push_joined c words ∙ ap (λ cs. code c ∷ cs) joined, push-All c words e apart)
    ]
