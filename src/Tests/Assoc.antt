-- ===== src/Tests/Assoc.antt =====
-- An index from ids to nodes that is a list of entries.
use order_forge_matching_eng.Common.{
  ℕ, ◌+◌, ◌≡◌, refl, arith, Option-cases, inl, inr, ◌==◌, if◌then◌else◌, Option, none, some, List,
  [], ◌∷◌,
}
use order_forge_matching_eng.PoolAllocator.{Address}

unfoldable pub find : ℕ → List (ℕ × Address) → Option Address
find k [] = none
find k ((j, a) ∷ m) = if j == k then some a else find k m

unfoldable pub emplace : ℕ → Address → List (ℕ × Address) → List (ℕ × Address)
emplace k a m = elim (find k m) [ none ↦ (k, a) ∷ m | some _ ↦ m ]

unfoldable pub erase : ℕ → List (ℕ × Address) → List (ℕ × Address)
erase k [] = []
erase k ((j, a) ∷ m) = if j == k then erase k m else (j, a) ∷ erase k m

unfoldable pub size : List (ℕ × Address) → ℕ
size [] = 0
size ((k, _) ∷ m) = elim (find k m) [ none ↦ size m + 1 | some _ ↦ size m ]

pub find-emplace :
    (k j : ℕ) (a : Address) (m : List (ℕ × Address))
    → find k m ≡ none
    → find j (emplace k a m) ≡ (if k == j then some a else find j m)
unfolding find emplace
find-emplace k j a m new = rw (new, emplace) refl

pub size-emplace :
    (k : ℕ) (a : Address) (m : List (ℕ × Address))
    → find k m ≡ none
    → size (emplace k a m) ≡ size m + 1
unfolding emplace size
size-emplace k a m new = rw (new, emplace) (rw (new, size) refl)

pub find-erase :
    (k j : ℕ) (m : List (ℕ × Address)) → find j (erase k m) ≡ (if k == j then none else find j m)
unfolding find erase
find-erase k j [] = ground arith
find-erase k j ((i, a) ∷ m) = ground (arith, find-erase k j m)

size-erase_absent : (k : ℕ) (m : List (ℕ × Address)) → find k m ≡ none → size m ≡ size (erase k m)
unfolding find erase size
size-erase_absent k [] h = refl
size-erase_absent k ((j, a) ∷ m) h = ground (arith, find-erase k j m, size-erase_absent k m, h)

pub size-erase :
    (k : ℕ) (a : Address) (m : List (ℕ × Address))
    → find k m ≡ some a
    → size m ≡ size (erase k m) + 1
unfolding find erase size
size-erase k a [] h = absurd (ground (arith, h))
size-erase k a ((j, b) ∷ m) h = elim (Option-cases (find k m)) [
  | inl new ↦ ground (arith, find-erase k j m, size-erase_absent k m new, h, new)
  | inr (c, there) ↦ ground (arith, find-erase k j m, size-erase k c m there, there)
]

pub find-empty : (k : ℕ) → find k [] ≡ none
unfolding find
find-empty k = refl

pub size-empty : size [] ≡ 0
unfolding size
size-empty = refl
