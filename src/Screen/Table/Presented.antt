-- ===== src/Screen/Table/Presented.antt =====
-- What the table of League Table.dc.html shows of private fields while the page presents.
use league_table.Prelude.{
  ℕ, suc, String, ◌≡◌, refl, Bool, true, false, ◌&&◌, not, some, List, [], ◌∷◌, map, if◌then◌else◌,
  take,
}
use league_table.Api.Table.{PublicRow, PrivateRow, ScopedRow}
use league_table.Screen.Types.{Screen}
use league_table.Screen.Table.{is_capped, visible_row, build_visible_rows, place_of, build_podium}

module _ {W : Type 0} where
  -- an instructor's row, with this as whether its score was capped
  abbrev pub row_with : PublicRow W → PrivateRow W → Bool → ScopedRow W
  row_with public own capped = record {
    public = public;
    private = some (record own { capped = capped });
  }

  -- The rows agree in what everybody may see, and in whether a score was capped.
  abbrev pub Alike : List (ScopedRow W) → List (ScopedRow W) → Type 0
  Alike [] [] = Unit
  Alike [] (_ ∷ _) = ⊥
  Alike (_ ∷ _) [] = ⊥
  Alike (r ∷ rs) (r' ∷ rs') =
      (r.public ≡ r'.public) × (is_capped r.private ≡ is_capped r'.private) × Alike rs rs'

  take-Alike : (n : ℕ) (rs rs' : List (ScopedRow W)) → Alike rs rs' → Alike (take n rs) (take n rs')
  take-Alike ℕ.zero rs rs' h = tt
  take-Alike (suc n) [] [] h = tt
  take-Alike (suc n) [] (_ ∷ _) h = elim h [ ]
  take-Alike (suc n) (_ ∷ _) [] h = elim h [ ]
  take-Alike (suc n) (r ∷ rs) (r' ∷ rs') (p, c, h) = (p, c, take-Alike n rs rs' h)

  module _ (to_fixed : W → ℕ → String) where
    visible_row-same :
        (r r' : ScopedRow W)
        → r.public ≡ r'.public
        → is_capped r.private ≡ is_capped r'.private
        → visible_row to_fixed false r ≡ visible_row to_fixed false r'
    unfolding visible_row
    visible_row-same r r' p c = rw (p, c) refl

    place_of-same :
        (r r' : ScopedRow W) (i : ℕ)
        → r.public ≡ r'.public
        → is_capped r.private ≡ is_capped r'.private
        → place_of to_fixed (r, i) ≡ place_of to_fixed (r', i)
    unfolding place_of
    place_of-same r r' i p c = rw (p, c) refl

    visible_rows-same :
        (rs rs' : List (ScopedRow W))
        → Alike rs rs'
        → map (visible_row to_fixed false) rs ≡ map (visible_row to_fixed false) rs'
    visible_rows-same [] [] h = refl
    visible_rows-same [] (_ ∷ _) h = elim h [ ]
    visible_rows-same (_ ∷ _) [] h = elim h [ ]
    visible_rows-same (r ∷ rs) (r' ∷ rs') (p, c, h) =
        rw (visible_row-same r r' p c, visible_rows-same rs rs' h) refl

    build_podium-same :
        (rs rs' : List (ScopedRow W))
        → Alike rs rs'
        → build_podium to_fixed rs ≡ build_podium to_fixed rs'
    unfolding build_podium
    build_podium-same [] [] h = refl
    build_podium-same (a ∷ []) (a' ∷ []) (p, c, h) = rw (place_of-same a a' 0 p c) refl
    build_podium-same (a ∷ b ∷ []) (a' ∷ b' ∷ []) (p, c, (q, d, h)) =
        rw (place_of-same a a' 0 p c, place_of-same b b' 1 q d) refl
    build_podium-same (a ∷ b ∷ x ∷ rs) (a' ∷ b' ∷ x' ∷ rs') (p, c, (q, d, (t, e, h))) =
        rw (place_of-same a a' 0 p c, place_of-same b b' 1 q d, place_of-same x x' 2 t e) refl
    build_podium-same [] (_ ∷ _) h = elim h [ ]
    build_podium-same (_ ∷ _) [] h = elim h [ ]
    build_podium-same (_ ∷ []) (_ ∷ _ ∷ _) (p, c, h) = elim h [ ]
    build_podium-same (_ ∷ _ ∷ _) (_ ∷ []) (p, c, h) = elim h [ ]
    build_podium-same (_ ∷ _ ∷ []) (_ ∷ _ ∷ _ ∷ _) (p, c, (q, d, h)) = elim h [ ]
    build_podium-same (_ ∷ _ ∷ _ ∷ _) (_ ∷ _ ∷ []) (p, c, (q, d, h)) = elim h [ ]

    shown-same :
        (all : Bool) (n : ℕ) (rs rs' : List (ScopedRow W))
        → Alike rs rs'
        → map (visible_row to_fixed false) (if all then rs else take n rs)
          ≡ map (visible_row to_fixed false) (if all then rs' else take n rs')
    shown-same true n rs rs' h = visible_rows-same rs rs' h
    shown-same false n rs rs' h = visible_rows-same _ _ (take-Alike n rs rs' h)

    -- While the page presents, the table and the podium show nothing private but whether a score was
    -- capped: they are the same for any two lists of rows that agree in their public fields and in
    -- that, whatever raw scores, factors, hours and sources they hold or lack.
    pub presenting-same :
        {V : Type 0} (s : Screen V) (top_n : ℕ) (rs rs' : List (ScopedRow W))
        → s.present ≡ true
        → Alike rs rs'
        → (build_visible_rows to_fixed s top_n rs ≡ build_visible_rows to_fixed s top_n rs')
          × (build_podium to_fixed rs ≡ build_podium to_fixed rs')
    unfolding build_visible_rows
    presenting-same s top_n rs rs' on h = (hidden s.raw_on s.present on, build_podium-same rs rs' h)
      where
        hidden :
            (raw_on present : Bool)
            → present ≡ true
            → map
                (visible_row to_fixed (raw_on && not present))
                (if s.show_all then rs else take top_n rs)
              ≡ map
                  (visible_row to_fixed (raw_on && not present))
                  (if s.show_all then rs' else take top_n rs')
        hidden true true e = shown-same s.show_all top_n rs rs' h
        hidden false true e = shown-same s.show_all top_n rs rs' h
        hidden raw_on false e = cc
