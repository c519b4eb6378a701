-- ===== src/Examples/Client.antt =====
-- Calls of the HTTP client over a browser whose server answers 404.
use Prim.Native.String.{◌++◌}
use league_table.Prelude.{String, ◌≡◌, refl, false, none, some, [], ◌∷◌, join, map}
use league_table.Number.Fixed.{Fixed}
use league_table.Api.Types.{err, api_error}
use league_table.Http.Types.{Detail, Incoming, Browser}
use league_table.Http.Endpoints.{WriteBody, Call, perform}
use league_table.Http.Answered.{Answered, perform-Answered}

abbrev refusal : Incoming String
refusal = record {
  status = 422;
  ok = false;
  json = none;
  error_body = some (record {
    detail =
        Detail.list_detail (record { loc = "query" ∷ "week" ∷ []; msg = "field required" } ∷ []);
    message = none;
  });
}

abbrev pub browser : Browser String (WriteBody Fixed)
browser = record {
  fetch = λ request. some refusal;
  encode_params = λ ps. join "&" (map (λ p. (p.0 ++ "=") ++ p.1) ps);
  encode_component = λ text. text;
  stringify = λ body. "{}";
}

abbrev table_call : Call Fixed
table_call =
    Call.ranking "c1" (record { role = "student"; student_id = some "s01" })
      (record {
        week_id = some "w7";
        window_mode = "rolling";
        rolling_n = some 4;
        criteria_keys = "homework" ∷ "project" ∷ [];
        weights = none;
        name_mode = "";
      })

refused_call : perform browser "" table_call ≡ err (api_error "week: field required" 422)
unfolding perform
refused_call = refl

perform-Answered_example : Answered browser "" table_call (perform browser "" table_call)
perform-Answered_example = perform-Answered browser "" table_call
