-- ===== src/Session/Maps.antt =====
-- `std::unordered_map<std::string, V>` as an association list in which a key occurs once. A string
-- is the list of its bytes.
use simple_webrtc.Base.{
  ℕ, ◌≡◌, refl, Bool, true, false, ◌&&◌, List, [], ◌∷◌, ◌==◌, if◌then◌else◌, Option, none, some,
  arith,
}

unfoldable pub same : List ℕ → List ℕ → Bool
same [] [] = true
same [] (y ∷ ys) = false
same (x ∷ xs) [] = false
same (x ∷ xs) (y ∷ ys) = (x == y) && same xs ys

pub same_refl : (xs : List ℕ) → same xs xs ≡ true
unfolding same
same_refl [] = refl
same_refl (x ∷ xs) = ground (arith, same_refl xs)

pub same_sound : (xs ys : List ℕ) → same xs ys ≡ true → xs ≡ ys
unfolding same
same_sound [] [] h = refl
same_sound [] (y ∷ ys) h = absurd (cc)
same_sound (x ∷ xs) [] h = absurd (cc)
same_sound (x ∷ xs) (y ∷ ys) h = ground (arith, same_sound xs ys)

module _ {V : Type 0} where
  unfoldable pub lookup : List ℕ → List (List ℕ × V) → Option V
  lookup k [] = none
  lookup k ((j, v) ∷ m) = if same j k then some v else lookup k m

  unfoldable pub has_value : Option V → Bool
  has_value none = false
  has_value (some v) = true

  -- `emplace` keeps a value that is there.
  unfoldable pub emplace : List ℕ → V → List (List ℕ × V) → List (List ℕ × V)
  unfolding has_value
  emplace k v m = if has_value (lookup k m) then m else (k, v) ∷ m

  unfoldable pub erase : List ℕ → List (List ℕ × V) → List (List ℕ × V)
  erase k [] = []
  erase k ((j, v) ∷ m) = if same j k then m else (j, v) ∷ erase k m

  abbrev pub HasDistinctKeys : List (List ℕ × V) → Type 0
  HasDistinctKeys [] = Unit {0}
  HasDistinctKeys ((k, v) ∷ m) = (lookup k m ≡ none) × HasDistinctKeys m

  pub lookup-emplace :
      (k j : List ℕ) (v : V) (m : List (List ℕ × V))
      → lookup k m ≡ none
      → lookup j (emplace k v m) ≡ (if same k j then some v else lookup j m)
  unfolding lookup emplace has_value
  lookup-emplace k j v m h = ground (arith, h)

  pub emplace-HasDistinctKeys :
      (k : List ℕ) (v : V) (m : List (List ℕ × V))
      → HasDistinctKeys m
      → HasDistinctKeys (emplace k v m)
  unfolding emplace has_value
  emplace-HasDistinctKeys k v m h = ground (arith, h)

  pub lookup-erase :
      (k j : List ℕ) (m : List (List ℕ × V))
      → HasDistinctKeys m
      → lookup j (erase k m) ≡ (if same k j then none else lookup j m)
  unfolding lookup erase
  lookup-erase k j [] h = ground arith
  lookup-erase k j ((i, d) ∷ m) h = ground (
    arith,
    lookup-erase k j m h.1,
    h.0,
    same_sound i k,
    same_sound k j,
    same_sound i j,
    same_refl j,
  )

  pub erase-HasDistinctKeys :
      (k : List ℕ) (m : List (List ℕ × V)) → HasDistinctKeys m → HasDistinctKeys (erase k m)
  unfolding erase
  erase-HasDistinctKeys k [] h = tt
  erase-HasDistinctKeys k ((i, d) ∷ m) h =
      ground (arith, h, erase-HasDistinctKeys k m h.1, lookup-erase k i m h.1)
