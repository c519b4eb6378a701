-- ===== src/Screen/Show.antt =====
-- `showView`, `handleApiError`, `query` and the loads of a tab in League Table.dc.html.
use league_table.Prelude.{String, false, Option, none, some, List, [], ◌∷◌}
use league_table.Screen.Types.{
  Tab, league_tab, me_tab, standing_tab, commitments_tab, risk_tab, approvals_tab, Identity, Boot,
  Views, Screen, Query, Request, get_ranking, get_me, get_standing, get_commitments, get_approvals,
  get_digest, week_at,
}

module _ {V : Type 0} where
  -- `showView`: the views of a tab, the others being cleared
  abbrev pub show_view : Views V → Screen V → Screen V
  show_view views s = record s { loading = false; error_msg = none; views = views }

  -- `handleApiError` without a patch
  abbrev pub show_error : String → Screen V → Screen V
  show_error message s = record s { loading = false; error_msg = some message }

  abbrev pub query_of : Screen V → Boot → Query
  query_of s boot = record {
    class_id = s.class_id;
    week_id = (week_at boot s.week_idx).id;
    window_mode = s.window_mode;
    criteria_keys = s.criteria_keys;
    name_mode = s.name_mode;
  }

  -- `loadRanking` and the other loads up to their requests: without a boot, or where a student's
  -- identity is needed and missing, they send none
  abbrev pub load_ranking : Screen V → Option Boot → List Request
  load_ranking s none = []
  load_ranking s (some boot) = get_ranking (query_of s boot) ∷ []

  abbrev pub load_me : Screen V → Option Boot → Option Identity → List Request
  load_me s none identity = []
  load_me s (some boot) none = []
  load_me s (some boot) (some identity) = get_me (query_of s boot) identity.student_id ∷ []

  abbrev pub load_standing : Screen V → Option Identity → List Request
  load_standing s none = []
  load_standing s (some identity) = get_standing s.class_id identity.student_id ∷ []

  abbrev pub load_commitments : Screen V → Option Boot → Option Identity → List Request
  load_commitments s none identity = []
  load_commitments s (some boot) none = []
  load_commitments s (some boot) (some identity) =
      get_commitments s.class_id identity.student_id ∷ []

  abbrev pub load_approvals : Screen V → Option Boot → List Request
  load_approvals s none = []
  load_approvals s (some boot) = get_approvals s.class_id ∷ []

  abbrev pub load_digest : Screen V → Option Boot → List Request
  load_digest s none = []
  load_digest s (some boot) = get_digest (week_at boot s.week_idx).week_number ∷ []

  abbrev pub load_of_tab : Screen V → Tab → List Request
  load_of_tab s league_tab = load_ranking s s.boot
  load_of_tab s me_tab = load_me s s.boot s.identity
  load_of_tab s standing_tab = load_standing s s.identity
  load_of_tab s commitments_tab = load_commitments s s.boot s.identity
  load_of_tab s approvals_tab = load_approvals s s.boot
  load_of_tab s risk_tab = load_digest s s.boot

  abbrev pub load_tab : Screen V → List Request
  load_tab s = load_of_tab s s.tab
