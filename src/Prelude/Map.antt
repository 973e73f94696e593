-- ===== src/Prelude/Map.antt =====
-- `HashMap<String, V>` as a list of entries with distinct keys.
use saimiris_gateway.Prelude.{
  String, Bool, false, Option, none, some, List, [], ◌∷◌, ◌≡◌, refl, str_eq, eq_iff, if◌then◌else◌,
  arith, filter, All, Bool-cases, inl, inr, sym, subst,
}
use mathlib.Core.Option

abbrev pub Map {ℓ} : Type ℓ → Type ℓ
Map V = List (String × V)

module _ {ℓ} {V : Type ℓ} where
  unfoldable pub lookup : String → Map V → Option V
  lookup k [] = none
  lookup k ((j, v) ∷ m) = if str_eq j k then some v else lookup k m

  unfoldable pub insert : String → V → Map V → Map V
  insert k v [] = (k, v) ∷ []
  insert k v ((j, w) ∷ m) = if str_eq j k then (k, v) ∷ m else (j, w) ∷ insert k v m

  unfoldable pub remove : String → Map V → Map V
  remove k [] = []
  remove k ((j, v) ∷ m) = if str_eq j k then m else (j, v) ∷ remove k m

  -- `if let Some(v) = map.get_mut(k) { *v = f(*v) }`
  unfoldable pub modify : String → (V → V) → Map V → Map V
  modify k f [] = []
  modify k f ((j, v) ∷ m) = if str_eq j k then (j, f v) ∷ m else (j, v) ∷ modify k f m

  -- No key stands in two entries.
  abbrev pub Distinct : Map V → Type 0
  Distinct [] = Unit
  Distinct ((k, v) ∷ m) = All (λ (e : String × V). str_eq k e.0 ≡ false) m × Distinct m

  pub lookup-insert :
      (new key : String) (v : V) (entries : Map V)
      → lookup key (insert new v entries) ≡ (if str_eq new key then some v else lookup key entries)
  unfolding lookup insert
  lookup-insert new key v [] = refl
  lookup-insert new key v ((other, w) ∷ entries) =
      ground
        (arith, lookup-insert new key v entries, eq_iff new key, eq_iff other new, eq_iff other key)

  pub lookup-modify :
      (k j : String) (f : V → V) (m : Map V)
      → lookup j (modify k f m) ≡ (if str_eq k j then Option.map f (lookup j m) else lookup j m)
  unfolding lookup modify
  lookup-modify k j f [] = ground arith
  lookup-modify k j f ((i, w) ∷ m) =
      ground (arith, eq_iff k j, eq_iff i k, eq_iff i j, lookup-modify k j f m)

  module _ (x : String × V → Type 0) where
    pub All-modify :
        (k : String) (f : V → V) (m : Map V)
        → ((j : String) (v : V) → x (j, v) → x (j, f v))
        → All x m
        → All x (modify k f m)
    unfolding modify
    All-modify k f [] keep h = tt
    All-modify k f ((j, v) ∷ m) keep h = ground (arith, keep j v, All-modify k f m keep)

    pub All-insert : (k : String) (v : V) (m : Map V) → x (k, v) → All x m → All x (insert k v m)
    unfolding insert
    All-insert k v [] p h = (p, tt)
    All-insert k v ((j, w) ∷ m) p h = ground (arith, All-insert k v m p)

    pub All-remove : (k : String) (m : Map V) → All x m → All x (remove k m)
    unfolding remove
    All-remove k [] h = tt
    All-remove k ((j, w) ∷ m) h = ground (arith, All-remove k m)

  pub All-filter {κ} :
      (P : String × V → Type κ) (p : String × V → Bool) (m : Map V) → All P m → All P (filter p m)
  All-filter P p [] h = tt
  All-filter P p (e ∷ m) h = ground (arith, All-filter P p m)

  pub Distinct-modify : (k : String) (f : V → V) (m : Map V) → Distinct m → Distinct (modify k f m)
  unfolding modify
  Distinct-modify k f [] d = tt
  Distinct-modify k f ((j, v) ∷ m) d =
      ground
        (arith, Distinct-modify k f m, All-modify (λ e. str_eq j e.0 ≡ false) k f m (λ _ _ h. h))

  pub Distinct-insert : (k : String) (v : V) (m : Map V) → Distinct m → Distinct (insert k v m)
  unfolding insert
  Distinct-insert k v [] d = (tt, tt)
  Distinct-insert k v ((j, w) ∷ m) d = ground (
    arith,
    eq_iff k j,
    eq_iff j k,
    Distinct-insert k v m,
    All-insert (λ e. str_eq j e.0 ≡ false) k v m,
  )

  pub Distinct-remove : (k : String) (m : Map V) → Distinct m → Distinct (remove k m)
  unfolding remove
  Distinct-remove k [] d = tt
  Distinct-remove k ((j, w) ∷ m) d =
      ground (arith, Distinct-remove k m, All-remove (λ e. str_eq j e.0 ≡ false) k m)

  pub Distinct-filter : (p : String × V → Bool) (m : Map V) → Distinct m → Distinct (filter p m)
  Distinct-filter p [] d = tt
  Distinct-filter p ((j, w) ∷ m) d =
      ground (arith, Distinct-filter p m, All-filter (λ e. str_eq j e.0 ≡ false) p m)

  -- A key that no entry has is not found.
  pub lookup-missing :
      (k : String) (m : Map V) → All (λ e. str_eq k e.0 ≡ false) m → lookup k m ≡ none
  unfolding lookup
  lookup-missing k [] h = refl
  lookup-missing k ((j, w) ∷ m) h = ground (arith, eq_iff k j, eq_iff j k, lookup-missing k m)

  pub lookup-remove :
      (k j : String) (m : Map V)
      → Distinct m
      → lookup j (remove k m) ≡ (if str_eq k j then none else lookup j m)
  unfolding lookup remove
  lookup-remove k j [] d = ground arith
  lookup-remove k j ((i, w) ∷ m) d =
      ground (arith, eq_iff k j, eq_iff i k, eq_iff i j, lookup-remove k j m, lookup-missing i m)

  -- After `retain` a key has its value, if that passes the test.
  pub lookup-filter :
      (p : V → Bool) (k : String) (m : Map V)
      → Distinct m
      → lookup k (filter (λ e. p e.1) m)
        ≡ elim (lookup k m) [ some v ↦ if p v then some v else none | none ↦ none ]
  unfolding lookup
  lookup-filter p k [] d = refl
  lookup-filter p k ((i, w) ∷ m) d =
      ground (arith, eq_iff i k, lookup-filter p k m, lookup-missing i m)

  pub All-lookup :
      (P : String × V → Type 0) (k : String) (v : V) (m : Map V)
      → All P m
      → lookup k m ≡ some v
      → P (k, v)
  unfolding lookup
  All-lookup P k v [] h e = cc
  All-lookup P k v ((j, w) ∷ m) h e = elim (Bool-cases (str_eq j k)) [
    | inl hit ↦ rw (sym ((eq_iff j k).0 hit)) (subst (λ u. P (j, u)) (ground arith) h.0)
    | inr miss ↦ All-lookup P k v m h.1 (ground arith)
  ]
