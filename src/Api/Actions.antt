-- ===== src/Api/Actions.antt =====
-- Inversion of the actions of api.js, and the lemmas on results and caches that its parts share.
use league_table.Prelude.{
  String, ◌≡◌, ◌≢◌, refl, ap, sym, Bool-cases, ◌===◌, Bool, true, false, some, ◌⊎◌, inl, inr, arith,
  eq_iff, Dict, lookup, insert, lookup-insert,
}
use league_table.Api.Types.{Error, Result, ok, err, ApiState, Action, throw_if, ◌>>=◌, ◌>>◌}

pub Result-cases :
    {A : Type 0} (r : Result A) → ((a : A) × (r ≡ ok a)) ⊎ ((e : Error) × (r ≡ err e))
Result-cases (ok a) = inl (a, refl)
Result-cases (err e) = inr (e, refl)

pub ok-injective : {A : Type 0} {a b : A} → ok a ≡ ok b → a ≡ b
ok-injective e = cc

pub lookup-insert_self :
    {V : Type 0} (k : String) (v : V) (d : Dict V) → lookup k (insert k v d) ≡ some v
lookup-insert_self k v d = ground (arith, lookup-insert k k v d, eq_iff k k)

pub lookup-insert_ne :
    {V : Type 0} (k j : String) (v : V) (d : Dict V) → j ≢ k → lookup j (insert k v d) ≡ lookup j d
lookup-insert_ne k j v d h = ground (arith, lookup-insert k j v d, eq_iff k j)

module _ {W S A B : Type 0} where
  bound_ok :
      (r : Result A) (after : ApiState W S) (f : A → Action W S B) {b : B}
      → (◌>>=◌ (λ (_ : ApiState W S). (r, after)) f after).0 ≡ ok b
      → (a : A) × (r ≡ ok a) × ((f a after).0 ≡ ok b)
  bound_ok (ok a) after f e = (a, refl, e)
  bound_ok (err x) after f e = cc

  -- A chain that succeeds has gone through its first step.
  pub >>=-ok :
      (m : Action W S A) (f : A → Action W S B) (s : ApiState W S) {b : B}
      → ((m >>= f) s).0 ≡ ok b
      → (a : A) × ((m s).0 ≡ ok a) × ((f a (m s).1).0 ≡ ok b)
  >>=-ok m f s e = bound_ok (m s).0 (m s).1 f e

  -- A chain goes on with what its first step returns.
  pub >>=-done :
      (m : Action W S A) (f : A → Action W S B) (s s' : ApiState W S) (a : A)
      → m s ≡ (ok a, s')
      → (m >>= f) s ≡ f a s'
  >>=-done m f s s' a e = ap (λ out. (◌>>=◌ (λ (_ : ApiState W S). out) f) s) e

module _ {W S B : Type 0} where
  -- A guard that lets the action succeed did not fire.
  pub throw_if-ok :
      (test : Bool) (x : Error) (m : Action W S B) (s : ApiState W S) {b : B}
      → ((throw_if test x >> m) s).0 ≡ ok b
      → (test ≡ false) × ((m s).0 ≡ ok b)
  throw_if-ok true x m s e = cc
  throw_if-ok false x m s e = (refl, e)

  pub throw_if-true :
      (test : Bool) (x : Error) (m : Action W S B) (s : ApiState W S)
      → test ≡ true
      → (throw_if test x >> m) s ≡ (err x, s)
  throw_if-true true x m s h = refl
  throw_if-true false x m s h = cc

-- what the test of two texts says
pub ne-of_differs : (a b : String) → (a === b) ≡ false → b ≢ a
ne-of_differs a b h i = let t : (a === b) ≡ true = (eq_iff a b).1 (sym i) in cc

pub differs-of_ne : (a b : String) → b ≢ a → (a === b) ≡ false
differs-of_ne a b ne = elim (Bool-cases (a === b)) [
  | inl same ↦ absurd (ne (sym ((eq_iff a b).0 same)))
  | inr other ↦ other
]
