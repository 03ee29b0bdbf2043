-- ===== src/UnorderedMap.antt =====
-- `std::unordered_map` with integer keys, as the code uses it. The order of the list stands for
-- the order of iteration, which the standard leaves open.
pub mod Laws
use chaos_in_multiplayer.Base.{
  ℕ, ◌≡◌, Bool, true, false, Option, none, some, List, [], ◌∷◌, ◌==◌, if◌then◌else◌,
}

abbrev pub UnorderedMap : Type 0 → Type 0
UnorderedMap V = List (ℕ × V)

module _ {V : Type 0} where
  unfoldable pub lookup : ℕ → UnorderedMap V → Option V
  lookup k [] = none
  lookup k ((j, v) ∷ m) = if k == j then some v else lookup k m

  abbrev pub contains : ℕ → UnorderedMap V → Bool
  contains k m = elim (lookup k m) [ none ↦ false | some _ ↦ true ]

  -- An entry that is there stays as it is.
  unfoldable pub try_emplace : ℕ → V → UnorderedMap V → UnorderedMap V
  unfolding lookup
  try_emplace k v m = if contains k m then m else (k, v) ∷ m

  -- What a write through the reference of `at` does.
  unfoldable pub replace : ℕ → V → UnorderedMap V → UnorderedMap V
  replace k v [] = []
  replace k v ((j, u) ∷ m) = if k == j then (j, v) ∷ m else (j, u) ∷ replace k v m

  unfoldable pub erase : ℕ → UnorderedMap V → UnorderedMap V
  erase k [] = []
  erase k ((j, u) ∷ m) = if k == j then m else (j, u) ∷ erase k m

  -- No key occurs twice.
  abbrev pub IsDistinct : UnorderedMap V → Type 0
  IsDistinct [] = Unit
  IsDistinct ((j, u) ∷ m) = (lookup j m ≡ none) × IsDistinct m
