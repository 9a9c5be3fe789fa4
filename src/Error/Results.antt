-- ===== src/Error/Results.antt =====
-- src/error.rs: `?` on a result, a loop of fallible steps, and what follows from their success.
use mathlib.Core.Path.{subst}
use solid_server_rs.Prelude.{
  ◌≡◌, refl, Bool, true, false, if◌then◌else◌, List, [], ◌∷◌, ◌⊎◌, inl, inr, All,
}
use solid_server_rs.Error.{Result, ok, err, ServerError}

-- `result?`, then the rest of the function
infixl 5 ◌>>=◌ ◌>>◌
abbrev pub ◌>>=◌ {ℓ κ} : {T : Type ℓ} {U : Type κ} → Result T → (T → Result U) → Result U
err refusal >>= rest = err refusal
ok value >>= rest = rest value

abbrev pub ◌>>◌ {ℓ} : {U : Type ℓ} → Result (Unit {0}) → Result U → Result U
result >> rest = result >>= λ _. rest

-- `if !test { return Err(refusal) }`
abbrev pub guard : Bool → ServerError → Result (Unit {0})
guard test refusal = if test then ok tt else err refusal

module _ {ℓ κ} {T : Type ℓ} {U : Type κ} where
  pub >>=-eq-ok :
      (result : Result T) (rest : T → Result U) {u : U}
      → (result >>= rest) ≡ ok u
      → (value : T) × (result ≡ ok value) × (rest value ≡ ok u)
  >>=-eq-ok (err refusal) rest h = absurd (cc h)
  >>=-eq-ok (ok value) rest h = (value, refl, h)

  pub >>=-eq-err :
      (result : Result T) (rest : T → Result U) {e : ServerError}
      → (result >>= rest) ≡ err e
      → (result ≡ err e) ⊎ ((value : T) × (result ≡ ok value) × (rest value ≡ err e))
  >>=-eq-err (err refusal) rest h = inl (cc h)
  >>=-eq-err (ok value) rest h = inr (value, refl, h)

pub guard-eq-ok : (b : Bool) (e : ServerError) → guard b e ≡ ok tt → b ≡ true
guard-eq-ok true e h = refl
guard-eq-ok false e h = absurd (cc h)

pub ok-injective {ℓ} : {A : Type ℓ} (a b : A) → ok a ≡ ok b → a ≡ b
ok-injective a b h = cc

-- `iter.map(f).collect::<Result<Vec<_>, _>>()`
unfoldable pub collect {ℓ} : {A B : Type ℓ} → (A → Result B) → List A → Result (List B)
collect f [] = ok []
collect f (x ∷ xs) = f x >>= λ y. collect f xs >>= λ ys. ok (y ∷ ys)

pub error_of_err {ℓ} :
    {A : Type ℓ} (d e : ServerError) → (let r : Result A = err d in r) ≡ err e → e ≡ d
error_of_err d e h = cc

-- Where every step that succeeds yields a value with the property, all the values have it.
pub collect-All {ℓ} :
    {A B : Type ℓ} (P : B → Type 0) (f : A → Result B)
    → ((x : A) (y : B) → f x ≡ ok y → P y)
    → (xs : List A) (ys : List B) → collect f xs ≡ ok ys
    → All P ys
unfolding collect
collect-All {B = B} P f h [] ys e = subst (λ (ys : List B). All P ys) (ok-injective [] ys e) tt
collect-All {B = B} P f h (x ∷ xs) ys e =
    let (y, first, e') = >>=-eq-ok (f x) _ e in
    let (rest, later, e'') = >>=-eq-ok (collect f xs) _ e' in
    subst (λ (ys : List B). All P ys) (ok-injective (y ∷ rest) ys e'')
      (h x y first, collect-All P f h xs rest later)
