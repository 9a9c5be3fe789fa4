-- ===== src/Collections.antt =====
-- `std::collections::HashMap`, as far as the server uses it: an association list over keys with a
-- Boolean equality. The order of iteration is that of the list; where the code asks for a minimum,
-- the first one in that order is taken.
pub mod Laws
pub mod Distinct
pub mod Weights
use solid_server_rs.Prelude.{
  ℕ, ltb, ◌≡◌, ◌↔◌, Bool, true, false, not, Option, none, some, List, [], ◌∷◌, Str, str_eq,
  str_eq_iff, is_some, if◌then◌else◌, ◌==◌, ==_iff,
}

pub record Eq (A : Type 0) : Type 0 where
  pub beq : A → A → Bool
  pub beq_iff : (a b : A) → (beq a b ≡ true) ↔ (a ≡ b)

instance abbrev pub str_key : Eq Str
str_key = record { beq = str_eq; beq_iff = str_eq_iff }

instance abbrev pub nat_key : Eq ℕ
nat_key = record { beq = ◌==◌; beq_iff = ==_iff }

abbrev pub HashMap : Type 0 → Type 0 → Type 0
HashMap K V = List (K × V)

module _ {K V : Type 0} where
  -- `map.retain(…)`
  unfoldable pub retain : (V → Bool) → HashMap K V → HashMap K V
  retain p [] = []
  retain p ((k, v) ∷ m) = let rest = retain p m in if p v then (k, v) ∷ rest else rest

  unfoldable pub min_from : (V → ℕ) → K × V → HashMap K V → K × V
  min_from rank best [] = best
  min_from rank best (e ∷ m) = min_from rank (if ltb (rank e.1) (rank best.1) then e else best) m

  -- `map.iter().min_by_key(…)`
  unfoldable pub min_by_key : (V → ℕ) → HashMap K V → Option (K × V)
  unfolding min_from
  min_by_key rank [] = none
  min_by_key rank (e ∷ m) = some (min_from rank e m)

module _ {K V : Type 0} ⦃key : Eq K⦄ where
  unfoldable pub get : K → HashMap K V → Option V
  get k [] = none
  get k ((j, v) ∷ m) = if key.beq j k then some v else get k m

  unfoldable pub remove : K → HashMap K V → HashMap K V
  remove k [] = []
  remove k ((j, v) ∷ m) = let rest = remove k m in if key.beq j k then rest else (j, v) ∷ rest

  unfoldable pub insert : K → V → HashMap K V → HashMap K V
  unfolding remove
  insert k v m = (k, v) ∷ remove k m

  unfoldable pub contains_key : K → HashMap K V → Bool
  unfolding get is_some
  contains_key k m = is_some (get k m)

  -- removes an entry with the least rank, if there is one
  unfoldable pub evict_one : (V → ℕ) → HashMap K V → HashMap K V
  unfolding min_by_key remove
  evict_one rank m = elim (min_by_key rank m) [ none ↦ m | some e ↦ remove e.0 m ]
