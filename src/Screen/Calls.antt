-- ===== src/Screen/Calls.antt =====
-- The reads of the page of League Table.dc.html as calls of the client httpApi.js.
use Prim.Native.String.{◌++◌}
use mathlib.Core.Option.{some-injective}
use mathlib.Core.Path.{subst}
use league_table.Prelude.{
  ℕ, String, ◌≡◌, ◌∙◌, sym, ap, true, false, some, List, [], ◌∷◌, arith, All, All-map, eq_iff,
  ◌===◌, Dict, Reach,
}
use league_table.Http.Types.{HttpCaller, Browser}
use league_table.Http.Send.{token_for, outgoing}
use league_table.Http.Endpoints.{
  WriteBody, HttpView, Call, bootstrap, ranking, explanation, explainer, commitments,
  pending_baselines, weekly_updates, digest, risk_record, risk_settings, my_standing, as_instructor,
  sent_by,
}
use league_table.Screen.Types.{
  LoginClass, Identity, Query, Request, get_bootstrap, get_ranking, get_me, get_standing,
  get_commitments, get_approvals, get_digest, get_drawer, get_record, get_explainer,
  get_risk_settings, save_note, save_baseline, save_week, decide_baseline, reverse_update,
  save_thresholds, save_weights, refresh,
}
use league_table.Screen.Show.{load_tab}
use league_table.Screen.Handlers.{is_student}
use league_table.Screen.Answers.{Answer}
use league_table.Screen.Steps.{Page, Step, opened_page}
use league_table.Screen.Own.{is_about, AllAbout, student_asks_own}

-- `{ role: 'student', studentId, … }`
abbrev pub as_pupil : String → HttpCaller
as_pupil id = record { role = "student"; student_id = some id }

module _ {W : Type 0} (rolling_n : ℕ) (weights : Dict W) where
  abbrev pub view_of_query : Query → HttpView W
  view_of_query q = record {
    week_id = some q.week_id;
    window_mode = q.window_mode;
    rolling_n = some rolling_n;
    criteria_keys = q.criteria_keys;
    weights = some weights;
    name_mode = q.name_mode;
  }

  -- what a request reads; the writes, which carry drafts, are left out
  abbrev pub reads_of : Request → List (Call W)
  reads_of (get_bootstrap c) = bootstrap c ∷ []
  reads_of (get_ranking q) = ranking q.class_id as_instructor (view_of_query q) ∷ []
  reads_of (get_me q id) =
      explanation q.class_id id (as_pupil id) (view_of_query q)
      ∷ commitments q.class_id id (as_pupil id)
      ∷ []
  reads_of (get_standing c id) = my_standing c id (as_pupil id) ∷ []
  reads_of (get_commitments c id) = commitments c id (as_pupil id) ∷ []
  reads_of (get_approvals c) = pending_baselines c ∷ weekly_updates c ∷ []
  reads_of (get_digest week) = digest (some week) as_instructor ∷ []
  reads_of (get_drawer q id) = explanation q.class_id id as_instructor (view_of_query q) ∷ []
  reads_of (get_record c id) = risk_record c id as_instructor ∷ []
  reads_of (get_explainer c) = explainer c ∷ []
  reads_of (get_risk_settings c) = risk_settings c ∷ []
  reads_of (save_note id c) = risk_record c id as_instructor ∷ []
  reads_of (save_baseline c id) = []
  reads_of (save_week c id) = []
  reads_of (decide_baseline id) = []
  reads_of (reverse_update id) = []
  reads_of (save_thresholds c) = []
  reads_of (save_weights c) = []
  reads_of (refresh c) = []

module _ {J W : Type 0} (browser : Browser J (WriteBody W)) (base_url : String) where
  -- the `Authorization` header of a call
  abbrev pub authorization_of : Call W → String
  unfolding sent_by outgoing
  authorization_of call =
      let sent = sent_by browser call in
      (outgoing browser base_url sent.method sent.path sent.query sent.body
        sent.caller).authorization

  -- the call carries the student's token
  abbrev pub IsSignedBy : Identity → Call W → Type 0
  IsSignedBy i call = authorization_of call ≡ "Bearer " ++ i.student_id

  token_for-pupil :
      (i : Identity) (id : String)
      → (i.student_id === "") ≡ false
      → (id === i.student_id) ≡ true
      → token_for (some (as_pupil id)) ≡ i.student_id
  unfolding token_for
  token_for-pupil i id known same =
      let e : id ≡ i.student_id = (eq_iff id i.student_id).0 same in
      let shown : (id === "") ≡ false = ap (λ t. t === "") e ∙ known in rw shown e

  reads_of-signed :
      (rolling_n : ℕ) (weights : Dict W) (i : Identity) (r : Request)
      → (i.student_id === "") ≡ false
      → is_about i r ≡ true
      → All (IsSignedBy i) (reads_of rolling_n weights r)
  unfolding sent_by outgoing
  reads_of-signed rolling_n weights i (get_me q id) known h =
      let own = ap (λ t. "Bearer " ++ t) (token_for-pupil i id known (ground arith)) in
      (own, (own, tt))
  reads_of-signed rolling_n weights i (get_standing c id) known h =
      (ap (λ t. "Bearer " ++ t) (token_for-pupil i id known (ground arith)), tt)
  reads_of-signed rolling_n weights i (get_commitments c id) known h =
      (ap (λ t. "Bearer " ++ t) (token_for-pupil i id known (ground arith)), tt)
  reads_of-signed rolling_n weights i (get_bootstrap c) known h = cc
  reads_of-signed rolling_n weights i (get_ranking q) known h = cc
  reads_of-signed rolling_n weights i (get_approvals c) known h = cc
  reads_of-signed rolling_n weights i (get_digest week) known h = cc
  reads_of-signed rolling_n weights i (get_drawer q id) known h = cc
  reads_of-signed rolling_n weights i (get_record c id) known h = cc
  reads_of-signed rolling_n weights i (get_explainer c) known h = cc
  reads_of-signed rolling_n weights i (get_risk_settings c) known h = cc
  reads_of-signed rolling_n weights i (save_note id c) known h = cc
  reads_of-signed rolling_n weights i (save_baseline c id) known h = cc
  reads_of-signed rolling_n weights i (save_week c id) known h = cc
  reads_of-signed rolling_n weights i (decide_baseline id) known h = cc
  reads_of-signed rolling_n weights i (reverse_update id) known h = cc
  reads_of-signed rolling_n weights i (save_thresholds c) known h = cc
  reads_of-signed rolling_n weights i (save_weights c) known h = cc
  reads_of-signed rolling_n weights i (refresh c) known h = cc

  -- In the session of a student, whose id is not empty, each load of the tab asks only for data of
  -- that student in that student's class, and every call that it sends carries the student's own id
  -- as its token, whatever was done before and in whatever order the server has answered.
  pub student_reads_own :
      {V : Type 0} (options : Answer (List LoginClass)) (p : Page V) (i : Identity) (rolling_n : ℕ)
      (weights : Dict W)
      → Reach Step (opened_page options) p
      → is_student p.screen.role ≡ true
      → p.screen.identity ≡ some i
      → (i.student_id === "") ≡ false
      → All
          (λ r. (is_about i r ≡ true) × All (IsSignedBy i) (reads_of rolling_n weights r))
          (load_tab p.screen)
  student_reads_own options p i rolling_n weights r pupil e known =
      let (j, f, about) = student_asks_own options p r pupil in
      let same : j ≡ i = some-injective _ _ (sym f ∙ e) in
      All-map _ _ (λ q h. (h, reads_of-signed rolling_n weights i q known h)) (load_tab p.screen)
        (subst (λ k. AllAbout k (load_tab p.screen)) same about)
