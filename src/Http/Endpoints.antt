-- ===== src/Http/Endpoints.antt =====
-- The object that `createHttpApi` returns, and `viewQuery`: a call of each of its methods, and the
-- request that it sends. A parameter with a default is given.
use Prim.Native.String.{◌++◌}
use league_table.Prelude.{ℕ, String, Option, none, some, List, [], ◌∷◌, Dict, join, count_text}
use league_table.Model.{Hours}
use league_table.Api.Types.{Result, RiskPatch, SettingsPatch}
use league_table.Http.Types.{QueryValue, HttpCaller, Browser}
use league_table.Http.Send.{send}

-- What is sent as JSON.
pub data WriteBody (W : Type 0) : Type 0 where
  hours_body : Hours W → WriteBody W
  decision_body : String → Option ℕ → WriteBody W
  note_body : Option String → WriteBody W
  risk_body : RiskPatch W → WriteBody W
  settings_body : SettingsPatch W → WriteBody W
  weights_body : Dict W → WriteBody W

-- The view of a table or an explanation.
pub record HttpView (W : Type 0) : Type 0 where
  pub week_id : Option String
  pub window_mode : String
  pub rolling_n : Option ℕ
  pub criteria_keys : List String
  pub weights : Option (Dict W)
  pub name_mode : String

-- A call, with the class first where it has one.
pub data Call (W : Type 0) : Type 0 where
  login_options : Call W
  classes : String → Call W
  bootstrap : String → Call W
  ranking : String → HttpCaller → HttpView W → Call W
  explanation : String → String → HttpCaller → HttpView W → Call W
  explainer : String → Call W
  commitments : String → String → HttpCaller → Call W
  save_baseline : String → String → Hours W → HttpCaller → Call W
  save_weekly_update : String → String → ℕ → Hours W → HttpCaller → Call W
  pending_baselines : String → Call W
  decide_baseline : String → String → String → Option ℕ → Call W
  weekly_updates : String → Call W
  reverse_weekly_update : String → String → Call W
  digest : Option ℕ → HttpCaller → Call W
  risk_record : String → String → HttpCaller → Call W
  note : String → String → Option String → HttpCaller → Call W
  risk_settings : String → Call W
  risk_settings_saved : String → RiskPatch W → Call W
  my_standing : String → String → HttpCaller → Call W
  settings_saved : String → SettingsPatch W → Call W
  refreshed : String → Call W
  status : String → Call W

-- The arguments of `send`.
pub record Sent (W : Type 0) : Type 0 where
  pub method : String
  pub path : String
  pub query : List (String × QueryValue)
  pub body : Option (WriteBody W)
  pub caller : Option HttpCaller

abbrev pub as_instructor : HttpCaller
as_instructor = record { role = "instructor"; student_id = none }

abbrev pub text_value : Option String → QueryValue
text_value none = QueryValue.absent
text_value (some text) = QueryValue.one text

abbrev pub number_value : Option ℕ → QueryValue
unfolding count_text
number_value none = QueryValue.absent
number_value (some n) = QueryValue.one (count_text n)

abbrev pub list_value : List String → QueryValue
list_value [] = QueryValue.absent
list_value (k ∷ ks) = QueryValue.one (join "," (k ∷ ks))

abbrev pub of_class : String → String → String
of_class class_id rest = ("/classes/" ++ class_id) ++ rest

abbrev pub class_and_student : String → String → List (String × QueryValue)
class_and_student class_id student_id =
    ("classId", QueryValue.one class_id) ∷ ("studentId", QueryValue.one student_id) ∷ []

module _ {W : Type 0} where
  abbrev pub get : String → List (String × QueryValue) → Option HttpCaller → Sent W
  get path query caller = record {
    method = "GET";
    path = path;
    query = query;
    body = none;
    caller = caller;
  }

  abbrev pub write :
      String → String → List (String × QueryValue) → Option (WriteBody W) → HttpCaller → Sent W
  write method path query body caller = record {
    method = method;
    path = path;
    query = query;
    body = body;
    caller = some caller;
  }

module _ {J W : Type 0} (browser : Browser J (WriteBody W)) where
  abbrev pub weights_value : Option (Dict W) → QueryValue
  weights_value none = QueryValue.absent
  weights_value (some weights) = QueryValue.one (browser.stringify (WriteBody.weights_body weights))

  unfoldable pub view_query : HttpView W → List (String × QueryValue)
  unfolding number_value
  view_query view =
      ("week", text_value view.week_id)
      ∷ ("window", QueryValue.one view.window_mode)
      ∷ ("rollingN", number_value view.rolling_n)
      ∷ ("criteria", list_value view.criteria_keys)
      ∷ ("weights", weights_value view.weights)
      ∷ ("nameMode", QueryValue.one view.name_mode)
      ∷ []

  abbrev of_student_path : String → String → String → String
  of_student_path class_id student_id rest =
      (of_class class_id "/students/" ++ browser.encode_component student_id) ++ rest

  unfoldable pub sent_by : Call W → Sent W
  unfolding view_query number_value count_text
  sent_by Call.login_options = get "/login/options" [] none
  sent_by (Call.classes instructor_id) =
      get "/classes" (("instructor_id", QueryValue.one instructor_id) ∷ []) (some as_instructor)
  sent_by (Call.bootstrap class_id) = get (of_class class_id "/bootstrap") [] (some as_instructor)
  sent_by (Call.ranking class_id caller view) =
      get (of_class class_id "/ranking") (view_query view) (some caller)
  sent_by (Call.explanation class_id student_id caller view) =
      get (of_student_path class_id student_id "/explanation") (view_query view) (some caller)
  sent_by (Call.explainer class_id) = get (of_class class_id "/explainer") [] (some as_instructor)
  sent_by (Call.commitments class_id student_id caller) =
      get "/me/commitments" (class_and_student class_id student_id) (some caller)
  sent_by (Call.save_baseline class_id student_id hours caller) =
      write "PUT" "/me/commitments/baseline" (class_and_student class_id student_id)
        (some (WriteBody.hours_body hours)) caller
  sent_by (Call.save_weekly_update class_id student_id week_number hours caller) =
      write "PUT" ("/me/commitments/weeks/" ++ count_text week_number)
        (class_and_student class_id student_id) (some (WriteBody.hours_body hours)) caller
  sent_by (Call.pending_baselines class_id) =
      get (of_class class_id "/commitments/pending") [] (some as_instructor)
  sent_by (Call.decide_baseline class_id baseline_id decision effective_from_week) =
      write "POST"
        ((of_class class_id "/commitments/baselines/" ++ browser.encode_component baseline_id)
          ++ "/decide")
        [] (some (WriteBody.decision_body decision effective_from_week)) as_instructor
  sent_by (Call.weekly_updates class_id) =
      get (of_class class_id "/commitments/weekly-updates") [] (some as_instructor)
  sent_by (Call.reverse_weekly_update class_id update_id) =
      write "POST"
        ((of_class class_id "/commitments/weekly-updates/" ++ browser.encode_component update_id)
          ++ "/reverse")
        [] none as_instructor
  sent_by (Call.digest week caller) =
      get "/instructor/digest" (("week", number_value week) ∷ []) (some caller)
  sent_by (Call.risk_record class_id student_id caller) =
      get (of_student_path class_id student_id "/risk") [] (some caller)
  sent_by (Call.note class_id student_id body caller) =
      write "POST" (of_student_path class_id student_id "/notes") []
        (some (WriteBody.note_body body)) caller
  sent_by (Call.risk_settings class_id) =
      get (of_class class_id "/risk-settings") [] (some as_instructor)
  sent_by (Call.risk_settings_saved class_id patch) =
      write "PUT" (of_class class_id "/risk-settings") [] (some (WriteBody.risk_body patch))
        as_instructor
  sent_by (Call.my_standing class_id student_id caller) =
      get "/me/standing" (class_and_student class_id student_id) (some caller)
  sent_by (Call.settings_saved class_id patch) =
      write "PUT" (of_class class_id "/settings") [] (some (WriteBody.settings_body patch))
        as_instructor
  sent_by (Call.refreshed class_id) =
      write "POST" (of_class class_id "/refresh") [] none as_instructor
  sent_by (Call.status class_id) = get (of_class class_id "/status") [] (some as_instructor)

  unfoldable pub perform : String → Call W → Result (Option J)
  unfolding sent_by send
  perform base_url call =
      let sent = sent_by call in
      send browser base_url sent.method sent.path sent.query sent.body sent.caller
