-- ===== src/Source/Twins.antt =====
-- The tie of week 9 in `buildEntries`.
use league_table.Prelude.{
  String, ◌≡◌, ◌≢◌, refl, ap, ◌∙◌, sym, true, false, Option, none, some, List, [], ◌∷◌, map, arith,
  inl, inr, ◌⊎◌, Bool-cases, All, All-of_map, find, ◌===◌, ◌&&◌, eq_iff,
}
use league_table.Number.{Number}
use league_table.Model.{Student, Entry}
use league_table.Source.Entries.{twin_with, copy_earned, is_ninth, tie_week}

module _ {W : Type 0} ⦃num : Number W⦄ (a b : Student) (all : List (Entry W)) where
  is_ninth-copy_earned :
      (id key : String) (e : Entry W) (twin : Option (Entry W))
      → is_ninth id key (copy_earned e twin) ≡ is_ninth id key e
  is_ninth-copy_earned id key e none = refl
  is_ninth-copy_earned id key e (some x) = refl

  is_ninth-twin_with :
      (id key : String) (e : Entry W) → is_ninth id key (twin_with a b all e) ≡ is_ninth id key e
  is_ninth-twin_with id key e = elim (Bool-cases (e.week_id === "w9" && e.student_id === b.id)) [
    | inl t ↦ rw t (is_ninth-copy_earned id key e (find (is_ninth a.id e.criterion_key) all))
    | inr f ↦ rw f refl
  ]

  -- the entries of the other student are kept
  twin_with-kept :
      (key : String) (e : Entry W)
      → a.id ≢ b.id
      → is_ninth a.id key e ≡ true
      → twin_with a b all e ≡ e
  twin_with-kept key e ne h =
      let other : (e.week_id === "w9" && e.student_id === b.id) ≡ false =
        ground (arith, eq_iff e.student_id a.id, eq_iff e.student_id b.id) in
      rw other refl

  find-twin_with :
      (key : String) (es : List (Entry W))
      → a.id ≢ b.id
      → find (is_ninth a.id key) (map (twin_with a b all) es) ≡ find (is_ninth a.id key) es
  find-twin_with key [] ne = refl
  find-twin_with key (e ∷ es) ne = elim (Bool-cases (is_ninth a.id key e)) [
    | inl t ↦ rw (is_ninth-twin_with a.id key e, t) (ap some (twin_with-kept key e ne t))
    | inr f ↦ rw (is_ninth-twin_with a.id key e, f) (find-twin_with key es ne)
  ]

  -- an entry of `b` in week 9 has what `a` earned
  Matches : String → Entry W → Entry W → Type 0
  Matches key x e = (is_ninth b.id key e ≡ false) ⊎ (e.earned ≡ x.earned)

  matched :
      (key : String) (x e : Entry W)
      → find (is_ninth a.id key) all ≡ some x
      → is_ninth b.id key e ≡ true
      → (twin_with a b all e).earned ≡ x.earned
  matched key x e found h =
      let same : e.criterion_key ≡ key = ground (arith, eq_iff e.criterion_key key) in
      let ninth : (e.week_id === "w9" && e.student_id === b.id) ≡ true = ground arith in
      rw ninth (rw same (rw found refl))

  twin_with-Matches :
      (key : String) (x e : Entry W)
      → find (is_ninth a.id key) all ≡ some x
      → Matches key x (twin_with a b all e)
  unfolding Matches
  twin_with-Matches key x e found = elim (Bool-cases (is_ninth b.id key e)) [
    | inl t ↦ inr (matched key x e found t)
    | inr f ↦ inl (is_ninth-twin_with b.id key e ∙ f)
  ]

All-intro : {A : Type 0} (P : A → Type 0) → ((x : A) → P x) → (xs : List A) → All P xs
All-intro P h [] = tt
All-intro P h (x ∷ xs) = (h x, All-intro P h xs)

module _ {W : Type 0} ⦃num : Number W⦄ where
  -- The exact tie of week 9: where the first student has an entry of the week for a criterion, every
  -- entry of the other student for it in that week has the same number earned.
  pub tie_week-same_earned :
      (a b : Student) (entries : List (Entry W)) (key : String) (x : Entry W)
      → a.id ≢ b.id
      → find (is_ninth a.id key) (tie_week (some a) (some b) entries) ≡ some x
      → All
          (λ e. (is_ninth b.id key e ≡ false) ⊎ (e.earned ≡ x.earned))
          (tie_week (some a) (some b) entries)
  unfolding Matches
  tie_week-same_earned a b entries key x ne found =
      let before = sym (find-twin_with a b entries key entries ne) ∙ found in
      All-of_map (twin_with a b entries) _ entries
        (All-intro _ (λ e. twin_with-Matches a b entries key x e before) entries)
