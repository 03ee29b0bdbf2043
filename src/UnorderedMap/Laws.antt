-- ===== src/UnorderedMap/Laws.antt =====
-- Lookup after each change, and distinct keys.
use chaos_in_multiplayer.Base.{
  ℕ, ◌≡◌, refl, none, some, [], ◌∷◌, ◌++◌, arith, ◌==◌, if◌then◌else◌, All, Option-cases, inl, inr,
}
use chaos_in_multiplayer.UnorderedMap.{
  UnorderedMap, lookup, contains, try_emplace, replace, erase, IsDistinct,
}

module _ {V : Type 0} where
  pub lookup-try_emplace :
      (j k : ℕ) (v : V) (m : UnorderedMap V)
      → lookup j (try_emplace k v m)
        ≡ (if j == k then (if contains k m then lookup k m else some v) else lookup j m)
  unfolding lookup try_emplace
  lookup-try_emplace j k v m = ground arith

  pub try_emplace-found :
      (k : ℕ) (v : V) (m : UnorderedMap V) → (u : V) × (lookup k (try_emplace k v m) ≡ some u)
  unfolding lookup try_emplace
  try_emplace-found k v m = elim (Option-cases (lookup k m)) [
    | inl n ↦ (v, ground arith)
    | inr (u, e) ↦ (u, ground arith)
  ]

  pub lookup-replace :
      (j k : ℕ) (v : V) (m : UnorderedMap V)
      → lookup j (replace k v m)
        ≡ (if j == k then (if contains k m then some v else none) else lookup j m)
  unfolding lookup replace
  lookup-replace j k v [] = ground arith
  lookup-replace j k v ((i, u) ∷ m) = ground (arith, lookup-replace j k v m)

  pub lookup-erase :
      (j k : ℕ) (m : UnorderedMap V)
      → IsDistinct m
      → lookup j (erase k m) ≡ (if j == k then none else lookup j m)
  unfolding lookup erase
  lookup-erase j k [] d = ground arith
  lookup-erase j k ((i, u) ∷ m) d = ground (arith, lookup-erase j k m d.1)

  pub try_emplace-IsDistinct :
      (k : ℕ) (v : V) (m : UnorderedMap V) → IsDistinct m → IsDistinct (try_emplace k v m)
  unfolding try_emplace
  try_emplace-IsDistinct k v m d = ground arith

  pub replace-IsDistinct :
      (k : ℕ) (v : V) (m : UnorderedMap V) → IsDistinct m → IsDistinct (replace k v m)
  unfolding replace
  replace-IsDistinct k v [] d = tt
  replace-IsDistinct k v ((i, u) ∷ m) d =
      ground (arith, replace-IsDistinct k v m d.1, lookup-replace i k v m)

  pub erase-IsDistinct : (k : ℕ) (m : UnorderedMap V) → IsDistinct m → IsDistinct (erase k m)
  unfolding erase
  erase-IsDistinct k [] d = tt
  erase-IsDistinct k ((i, u) ∷ m) d =
      ground (arith, erase-IsDistinct k m d.1, lookup-erase i k m d.1)

  -- A property of every entry.
  pub try_emplace-All :
      (P : ℕ × V → Type 0) (k : ℕ) (v : V) (m : UnorderedMap V)
      → P (k, v)
      → All P m
      → All P (try_emplace k v m)
  unfolding try_emplace
  try_emplace-All P k v m h a = ground arith

  pub replace-All :
      (P : ℕ × V → Type 0) (k : ℕ) (v : V) (m : UnorderedMap V)
      → P (k, v)
      → All P m
      → All P (replace k v m)
  unfolding replace
  replace-All P k v [] h a = tt
  replace-All P k v ((i, u) ∷ m) h a = ground (arith, replace-All P k v m h a.1)

  pub erase-All : (P : ℕ × V → Type 0) (k : ℕ) (m : UnorderedMap V) → All P m → All P (erase k m)
  unfolding erase
  erase-All P k [] a = tt
  erase-All P k ((i, u) ∷ m) a = ground (arith, erase-All P k m a.1)

  pub lookup-All :
      (P : ℕ × V → Type 0) (k : ℕ) (v : V) (m : UnorderedMap V)
      → lookup k m ≡ some v
      → All P m
      → P (k, v)
  unfolding lookup
  lookup-All P k v [] e a = absurd (cc)
  lookup-All P k v ((i, u) ∷ m) e a = ground (arith, lookup-All P k v m)

  pub erase-replace : (k : ℕ) (v : V) (m : UnorderedMap V) → erase k (replace k v m) ≡ erase k m
  unfolding erase replace
  erase-replace k v [] = refl
  erase-replace k v ((i, u) ∷ m) = ground (arith, erase-replace k v m)

  -- An entry that stands behind others, in a map of distinct keys.
  pub lookup-middle :
      (k : ℕ) (v : V) (xs ys : UnorderedMap V)
      → IsDistinct (xs ++ (k, v) ∷ ys)
      → lookup k (xs ++ (k, v) ∷ ys) ≡ some v
  unfolding lookup
  lookup-middle k v [] ys d = ground arith
  lookup-middle k v ((i, u) ∷ xs) ys d = ground (arith, lookup-middle k v xs ys d.1)

  pub replace-middle :
      (k : ℕ) (u v : V) (xs ys : UnorderedMap V)
      → IsDistinct (xs ++ (k, u) ∷ ys)
      → replace k v (xs ++ (k, u) ∷ ys) ≡ xs ++ (k, v) ∷ ys
  unfolding replace
  replace-middle k u v [] ys d = ground arith
  replace-middle k u v ((i, x) ∷ xs) ys d =
      ground (arith, replace-middle k u v xs ys d.1, lookup-middle k u xs ys d.1)

  -- The first entry.
  pub try_emplace-new :
      (k : ℕ) (v : V) (m : UnorderedMap V) → lookup k m ≡ none → try_emplace k v m ≡ (k, v) ∷ m
  unfolding try_emplace
  try_emplace-new k v m e = ground arith

  pub lookup-front : (k : ℕ) (v : V) (m : UnorderedMap V) → lookup k ((k, v) ∷ m) ≡ some v
  unfolding lookup
  lookup-front k v m = ground arith

  pub replace-front : (k : ℕ) (u v : V) (m : UnorderedMap V) → replace k v ((k, u) ∷ m) ≡ (k, v) ∷ m
  unfolding replace
  replace-front k u v m = ground arith

  pub erase-front : (k : ℕ) (v : V) (m : UnorderedMap V) → erase k ((k, v) ∷ m) ≡ m
  unfolding erase
  erase-front k v m = ground arith
