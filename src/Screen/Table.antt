-- ===== src/Screen/Table.antt =====
-- The league table that League Table.dc.html shows: `buildVisibleRows`, `buildPodium` and the texts
-- of a row, of rows as api.js gives them. Colours, sizes and monograms are left out, and `toFixed`
-- is a parameter.
pub mod Presented
use Prim.Native.String.{◌++◌}
use league_table.Prelude.{
  ℕ, zero, suc, ◌+◌, String, Bool, true, false, ◌&&◌, not, Option, none, some, List, [], ◌∷◌, map,
  if◌then◌else◌, ltb, leb, ◌===◌, take, sort, present, join, count_text, ℤ, pos, negsuc,
}
use league_table.Api.Table.{ScopedRow, PrivateRow}
use league_table.Screen.Types.{Screen}

-- A row of the table.
pub record VisibleRow : Type 0 where
  pub student_id : String
  pub rank : ℕ
  pub name : String
  pub score : String
  pub leading : Bool
  pub raw_text : String
  pub factor_text : String
  pub delta_text : String
  pub gap_up_text : String
  pub gap_down_text : String
  pub flag : String
  pub label : String

-- A place of the podium.
pub record Place : Type 0 where
  pub student_id : String
  pub rank : ℕ
  pub name : String
  pub score : String
  pub delta_text : String
  pub flag : String
  pub first : Bool
  pub label : String

-- `rankDeltaText`
unfoldable pub rank_delta_text : Option ℤ → String
rank_delta_text none = "New"
rank_delta_text (some (pos zero)) = "— held"
rank_delta_text (some (pos (suc n))) = ("▲ " ++ count_text (suc n)) ++ " up"
rank_delta_text (some (negsuc n)) = ("▼ " ++ count_text (suc n)) ++ " down"

abbrev text_if : Bool → String → Option String
text_if true text = some text
text_if false text = none

-- `flagText` of its three conditions
abbrev pub flags : Bool → Bool → Bool → String
flags tied capped missing = join " · " (
    present
      (text_if tied "tied" ∷ text_if capped "capped at 100" ∷ text_if missing "no entry" ∷ []))

abbrev pub has_missing : List String → Bool
has_missing [] = false
has_missing (_ ∷ _) = true

-- the order of the podium, by the index of the row: the second place, the first, the third
abbrev pub podium_order : ℕ → ℕ
podium_order zero = 1
podium_order (suc zero) = 0
podium_order (suc (suc _)) = 2

abbrev numbered : {A : Type 0} → ℕ → List A → List (A × ℕ)
numbered i [] = []
numbered i (x ∷ xs) = (x, i) ∷ numbered (suc i) xs

module _ {W : Type 0} where
  -- fields that a row may not have
  abbrev shown_raw : Option (PrivateRow W) → Option W
  shown_raw none = none
  shown_raw (some own) = own.raw

  abbrev shown_factor : Option (PrivateRow W) → Option W
  shown_factor none = none
  shown_factor (some own) = own.factor

  abbrev pub is_capped : Option (PrivateRow W) → Bool
  is_capped none = false
  is_capped (some own) = own.capped

  abbrev pub flag_text : ScopedRow W → Bool → String
  flag_text r with_missing =
      flags r.public.tied (is_capped r.private) (with_missing && has_missing r.public.missing)

  module _ (to_fixed : W → ℕ → String) where
    abbrev pub fmt : Option W → ℕ → String
    fmt none d = "—"
    fmt (some n) d = to_fixed n d

    abbrev gap_text : String → String → Option W → String
    gap_text without behind none = without
    gap_text without behind (some gap) = fmt (some gap) 1 ++ behind

    -- `openLabel`
    abbrev pub open_label : ScopedRow W → String → String
    open_label r flag =
        ((((("Rank " ++ count_text r.public.rank) ++ ", ") ++ r.public.display_name)
            ++ (", score " ++ fmt r.public.score 1))
          ++ (if flag === "" then "" else ", " ++ flag))
        ++ ". Open score breakdown"

    unfoldable pub visible_row : (raw_shown : Bool) → ScopedRow W → VisibleRow
    unfolding rank_delta_text
    visible_row raw_shown r = record {
      student_id = r.public.student_id;
      rank = r.public.rank;
      name = r.public.display_name;
      score = fmt r.public.score 1;
      leading = leb r.public.rank 3;
      raw_text = if raw_shown then "raw " ++ fmt (shown_raw r.private) 1 else "";
      factor_text = if raw_shown then "×" ++ fmt (shown_factor r.private) 2 else "";
      delta_text = rank_delta_text r.public.rank_delta;
      gap_up_text = gap_text "leads the class" " to the place above" r.public.gap_to_next;
      gap_down_text = gap_text "nobody below" " clear below" r.public.gap_to_below;
      flag = flag_text r true;
      label = open_label r (flag_text r true);
    }

    unfoldable pub build_visible_rows :
        {V : Type 0} → Screen V → ℕ → List (ScopedRow W) → List VisibleRow
    unfolding visible_row
    build_visible_rows s top_n rows =
        map (visible_row (s.raw_on && not s.present)) (if s.show_all then rows else take top_n rows)

    unfoldable pub place_of : ScopedRow W × ℕ → Place
    unfolding rank_delta_text
    place_of (r, i) = record {
      student_id = r.public.student_id;
      rank = r.public.rank;
      name = r.public.display_name;
      score = fmt r.public.score 1;
      delta_text = rank_delta_text r.public.rank_delta;
      flag = flag_text r false;
      first = leb i 0;
      label = open_label r (flag_text r false);
    }

    unfoldable pub build_podium : List (ScopedRow W) → List Place
    unfolding place_of
    build_podium rows =
        map place_of
          (sort (λ a b. ltb (podium_order b.1) (podium_order a.1)) (numbered 0 (take 3 rows)))
