-- ===== src/Api/Weeks/Latest.antt =====
-- When `latestCompleteWeek` of api.js finds a week.
use league_table.Prelude.{
  ℕ, ◌+◌, String, ◌≡◌, refl, ap, ◌∙◌, sym, Bool, true, false, Option, none, some, List, [], ◌∷◌,
  inl, inr, arith, eq_iff, Bool-cases, if◌then◌else◌, or_default, or_else, filter, any, last?, Dict,
  lookup, insert, has, lookup-insert, ◌===◌,
}
use league_table.Number.{Number}
use league_table.Model.{Week, Entry}
use league_table.Api.Types.{Result, ok, Snapshot}
use league_table.Api.Weeks.{
  week_id_or_throw, is_complete, busiest, latest_by, count_weeks, latest_complete_week,
}

abbrev is_week_in : List Week → String → Bool
is_week_in weeks id = any (λ w. w.id === id) weeks

has-insert :
    (k j : String) (n : ℕ) (d : Dict ℕ) → has j (insert k n d) ≡ (if k === j then true else has j d)
has-insert k j n d = rw (lookup-insert k j n d) (ground arith)

module _ {W : Type 0} ⦃num : Number W⦄ where
  has-count_weeks :
      (id : String) (counts : Dict ℕ) (es : List (Entry W))
      → has id (count_weeks counts es)
        ≡ (if has id counts then true else any (λ e. e.week_id === id) es)
  has-count_weeks id counts [] = ground arith
  has-count_weeks id counts (e ∷ es) =
      has-count_weeks id (insert e.week_id (or_default (lookup e.week_id counts) 0 + 1) counts) es
      ∙ ground (arith, has-insert e.week_id id (or_default (lookup e.week_id counts) 0 + 1) counts)

-- what the last element of a filtered list is
data LastOf (p : Week → Bool) (weeks : List Week) : Option Week → Type 0 where
  last_of : (w : Week) → p w ≡ true → is_week_in weeks w.id ≡ true → LastOf p weeks (some w)
  none_of : any p weeks ≡ false → LastOf p weeks none

or_else-some :
    {A : Type 0} (o : Option A) (x y : A)
    → or_else (or_else o (some x)) (some y) ≡ or_else o (some x)
or_else-some none x y = refl
or_else-some (some a) x y = refl

last?-cons : {A : Type 0} (x : A) (xs : List A) → last? (x ∷ xs) ≡ or_else (last? xs) (some x)
last?-cons x [] = refl
last?-cons x (y ∷ ys) =
    last?-cons y ys
    ∙ sym (or_else-some (last? ys) y x)
    ∙ ap (λ o. or_else o (some x)) (sym (last?-cons y ys))

put_behind :
    (p : Week → Bool) (v : Week) (vs : List Week) (o : Option Week)
    → p v ≡ true
    → LastOf p vs o
    → LastOf p (v ∷ vs) (or_else o (some v))
put_behind p v vs (some w) e (last_of _ h m) = last_of w h (ground arith)
put_behind p v vs none e (none_of h) = last_of v e (ground (arith, eq_iff v.id v.id))

skip_over :
    (p : Week → Bool) (v : Week) (vs : List Week) (o : Option Week)
    → p v ≡ false
    → LastOf p vs o
    → LastOf p (v ∷ vs) o
skip_over p v vs (some w) e (last_of _ h m) = last_of w h (ground arith)
skip_over p v vs none e (none_of h) = none_of (ground arith)

filter-LastOf : (p : Week → Bool) (weeks : List Week) → LastOf p weeks (last? (filter p weeks))
filter-LastOf p [] = none_of refl
filter-LastOf p (v ∷ vs) = elim (Bool-cases (p v)) [
  | inl e ↦ rw e (
      rw (last?-cons v (filter p vs))
        (put_behind p v vs (last? (filter p vs)) e (filter-LastOf p vs)))
  | inr e ↦ rw e (skip_over p v vs (last? (filter p vs)) e (filter-LastOf p vs))
]

-- the answer is a week of the list
Finds : List Week → Result (Option String) → Type 0
Finds weeks r = (id : String) × (r ≡ ok (some id)) × (is_week_in weeks id ≡ true)

first-Finds :
    (p q : Week → Bool) (weeks : List Week) (o o' : Option Week)
    → any q weeks ≡ true
    → LastOf p weeks o
    → LastOf q weeks o'
    → Finds weeks (week_id_or_throw (or_else o o'))
unfolding Finds
first-Finds p q weeks (some w) o' h (last_of _ _ m) k = (w.id, refl, m)
first-Finds p q weeks none (some w) h k (last_of _ _ m) = (w.id, refl, m)
first-Finds p q weeks none none h k (none_of e) = cc

any_none : (weeks : List Week) → any (λ w. false) weeks ≡ false
any_none [] = refl
any_none (w ∷ ws) = any_none ws

latest_by-Finds :
    (W : Type 0) ⦃num : Number W⦄ (counts : Dict ℕ) (weeks : List Week)
    → any (λ w. has w.id counts) weeks ≡ true
    → Finds weeks (latest_by W counts weeks)
latest_by-Finds W [] weeks h = let nothing = any_none weeks in cc
latest_by-Finds W (c ∷ counts) weeks h =
    first-Finds _ (λ w. has w.id (c ∷ counts)) weeks _ _ h
      (filter-LastOf
        (λ w. is_complete W (busiest (c ∷ counts)) (or_default (lookup w.id (c ∷ counts)) 0)) weeks)
      (filter-LastOf (λ w. has w.id (c ∷ counts)) weeks)

any-congr : (p q : Week → Bool) → ((w : Week) → p w ≡ q w) → (ws : List Week) → any p ws ≡ any q ws
any-congr p q h [] = refl
any-congr p q h (w ∷ ws) = rw (h w, any-congr p q h ws) refl

module _ {W : Type 0} ⦃num : Number W⦄ where
  -- Where some week of the snapshot has an entry, `latestCompleteWeek` does not throw, whatever the
  -- counts and the arithmetic on them: it answers with the id of a week of the snapshot.
  pub latest_complete_week-found :
      (snap : Snapshot W)
      → any (λ w. any (λ e. e.week_id === w.id) snap.entries) snap.weeks ≡ true
      → (id : String) × (latest_complete_week snap ≡ ok (some id))
        × (any (λ w. w.id === id) snap.weeks ≡ true)
  unfolding latest_complete_week Finds
  latest_complete_week-found snap h =
      latest_by-Finds W (count_weeks [] snap.entries) snap.weeks
        (any-congr _ _ (λ w. has-count_weeks w.id [] snap.entries) snap.weeks ∙ h)
