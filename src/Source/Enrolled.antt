-- ===== src/Source/Enrolled.antt =====
-- Which students and weeks the entries of `buildEntries` are of.
use league_table.Prelude.{
  ℕ, suc, ◌≤◌, String, ◌≡◌, refl, Bool, true, Option, none, some, List, [], ◌∷◌, arith, inl, inr,
  Bool-cases, ltb, All, All-append, All-map, All-of_map, find, get_elem?, ◌===◌, ◌&&◌, Dict,
  is_some,
}
use mathlib.Core.Path.{subst}
use mathlib.Core.Option.{some-injective}
use mathlib.Core.List.{Memᴰ}
use league_table.Number.{Number}
use league_table.Model.{Student, Week, Entry}
use league_table.Source.Fixtures.{ToyCriterion, criteria_of}
use league_table.Source.Entries.{
  Drawn, is_scored, is_left_out, make_entry, onto, entries_of_students, entries_of_week,
  entries_of_weeks, twin_with, tie_week, copy_earned, is_ninth, build_entries,
}

-- What an entry may be of: a student of the class who has joined, in a week of the term, with both
-- numbers.
pub data Enrolled {W : Type 0} (students : List Student) (weeks : List Week) (e : Entry W)
    : Type 0 where
  enrolled :
      (s : Student) (w : Week)
      → Memᴰ s students
      → Memᴰ w weeks
      → e.student_id ≡ s.id
      → e.week_id ≡ w.id
      → s.joined_week ≤ w.week_number
      → is_some e.earned ≡ true
      → is_some e.possible ≡ true
      → Enrolled students weeks e

All-tail :
    {A : Type 0} (y : A) (xs zs : List A) → All (λ x. Memᴰ x xs) zs → All (λ x. Memᴰ x (y ∷ xs)) zs
All-tail y xs zs h = All-map _ _ (λ x m. Memᴰ.tail m) zs h

-- the members of a list
All-Mem : {A : Type 0} (xs : List A) → All (λ x. Memᴰ x xs) xs
All-Mem [] = tt
All-Mem (x ∷ xs) = (Memᴰ.head refl, All-tail x xs xs (All-Mem xs))

module _ {W : Type 0} ⦃num : Number W⦄ where
  abbrev AllEnrolled : List Student → List Week → List (Entry W) → Type 0
  AllEnrolled students weeks es = All (Enrolled students weeks) es

  onto-Enrolled :
      (students : List Student) (weeks : List Week) (class_id : String) (ability : Dict (Dict W))
      (w : Week) (c : ToyCriterion W) (i : ℕ) (s : Student) (d : Drawn) (rest : List (Entry W))
      → Memᴰ s students
      → Memᴰ w weeks
      → AllEnrolled students weeks rest
      → AllEnrolled students weeks (onto (make_entry class_id ability w c i s d).0 rest)
  unfolding make_entry
  onto-Enrolled students weeks class_id ability w c i s d rest hs hw h =
      elim (Bool-cases (ltb w.week_number s.joined_week)) [
        | inl early ↦ rw early h
        | inr late ↦ elim (Bool-cases (is_left_out i c.key w.week_number)) [
          | inl out ↦ rw (late, out) h
          | inr put ↦ rw (late, put) (enrolled s w hs hw refl refl (ground arith) refl refl, h)
        ]
      ]

  students-Enrolled :
      (students : List Student) (weeks : List Week) (class_id : String) (ability : Dict (Dict W))
      (w : Week) (c : ToyCriterion W) (i : ℕ) (ss : List Student) (d : Drawn)
      → All (λ s. Memᴰ s students) ss
      → Memᴰ w weeks
      → AllEnrolled students weeks (entries_of_students class_id ability w c i ss d).0
  unfolding entries_of_students
  students-Enrolled students weeks class_id ability w c i [] d h hw = tt
  students-Enrolled students weeks class_id ability w c i (s ∷ ss) d (hs, h) hw =
      onto-Enrolled students weeks class_id ability w c i s d _ hs hw
        (students-Enrolled students weeks class_id ability w c (suc i) ss _ h hw)

  module _ (class_id : String) (ability : Dict (Dict W)) (students : List Student)
      (weeks : List Week) where
    week-Enrolled :
        (w : Week) (criteria : List (ToyCriterion W)) (d : Drawn)
        → Memᴰ w weeks
        → AllEnrolled students weeks (entries_of_week class_id ability students w criteria d).0
    unfolding entries_of_week
    week-Enrolled w [] d hw = tt
    week-Enrolled w (c ∷ cs) d hw = elim (Bool-cases (is_scored c.weeks w.week_number)) [
      | inl e ↦ rw e (
          All-append _ _ _
            (students-Enrolled students weeks class_id ability w c 0 students d (All-Mem students)
              hw)
            (week-Enrolled w cs _ hw))
      | inr e ↦ rw e (week-Enrolled w cs d hw)
    ]

    weeks-Enrolled :
        (ws : List Week) (criteria : List (ToyCriterion W)) (d : Drawn)
        → All (λ w. Memᴰ w weeks) ws
        → AllEnrolled students weeks (entries_of_weeks class_id ability students ws criteria d)
    unfolding entries_of_weeks
    weeks-Enrolled [] criteria d h = tt
    weeks-Enrolled (w ∷ ws) criteria d (hw, h) =
        All-append _ _ _ (week-Enrolled w criteria d hw) (weeks-Enrolled ws criteria _ h)

  All-find :
      (P : Entry W → Type 0) (p : Entry W → Bool) (es : List (Entry W)) {x : Entry W}
      → All P es
      → find p es ≡ some x
      → P x
  All-find P p [] h = λ e. cc
  All-find P p (y ∷ ys) (hy, h) = elim (Bool-cases (p y)) [
    | inl t ↦ rw t (λ e. subst P (some-injective _ _ e) hy)
    | inr f ↦ rw f (λ e. All-find P p ys h e)
  ]

  copy_earned-Enrolled :
      (students : List Student) (weeks : List Week) (e : Entry W) (twin : Option (Entry W))
      → Enrolled students weeks e
      → ((x : Entry W) → twin ≡ some x → Enrolled students weeks x)
      → Enrolled students weeks (copy_earned e twin)
  copy_earned-Enrolled students weeks e none h k = h
  copy_earned-Enrolled students weeks e (some x) (enrolled s w hs hw es ew j ne np) k =
      elim (k x refl) [ enrolled _ _ _ _ _ _ _ earned _ ↦ enrolled s w hs hw es ew j earned np ]

  twin_with-Enrolled :
      (students : List Student) (weeks : List Week) (a b : Student) (all : List (Entry W))
      (e : Entry W)
      → AllEnrolled students weeks all
      → Enrolled students weeks e
      → Enrolled students weeks (twin_with a b all e)
  twin_with-Enrolled students weeks a b all e k h =
      elim (Bool-cases (e.week_id === "w9" && e.student_id === b.id)) [
        | inl t ↦ rw t (
            copy_earned-Enrolled students weeks e (find (is_ninth a.id e.criterion_key) all) h
              (λ x f. All-find _ (is_ninth a.id e.criterion_key) all k f))
        | inr f ↦ rw f h
      ]

  tie_week-Enrolled :
      (students : List Student) (weeks : List Week) (a b : Option Student) (es : List (Entry W))
      → AllEnrolled students weeks es
      → AllEnrolled students weeks (tie_week a b es)
  tie_week-Enrolled students weeks none b es h = h
  tie_week-Enrolled students weeks (some a) none es h = h
  tie_week-Enrolled students weeks (some a) (some b) es h =
      All-of_map (twin_with a b es) _ es
        (All-map _ _ (λ e k. twin_with-Enrolled students weeks a b es e h k) es h)

-- Every entry of the toy source is of a student of its class and a week of the term in which the
-- student has joined, and has both numbers, for whatever students and weeks it is built from.
pub build_entries-Enrolled :
    (W : Type 0) ⦃num : Number W⦄ (class_id : String) (students : List Student) (weeks : List Week)
    → All (λ (e : Entry W). Enrolled students weeks e) (build_entries class_id students weeks)
unfolding build_entries
build_entries-Enrolled W class_id students weeks =
    tie_week-Enrolled students weeks (get_elem? students 10) (get_elem? students 11) _
      (weeks-Enrolled class_id _ students weeks weeks (criteria_of class_id) _ (All-Mem weeks))
