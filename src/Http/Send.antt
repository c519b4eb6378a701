-- ===== src/Http/Send.antt =====
-- `tokenFor`, `messageFrom` and `send` of httpApi.js.
use Prim.Native.String.{◌++◌}
use league_table.Prelude.{
  ℕ, ◌==◌, String, Bool, true, false, not, ◌||◌, Option, none, some, List, [], ◌∷◌, map, filter,
  if◌then◌else◌, ◌===◌, or_default, join, count_text,
}
use league_table.Prelude as Prelude
use league_table.Api.Types.{Result, ok, err, api_error, other_error}
use league_table.Http.Types.{
  ErrorItem, Detail, ErrorBody, QueryValue, HttpCaller, Outgoing, Incoming, Browser,
}

abbrev pub id_or : Option String → String → String
id_or none d = d
id_or (some id) d = if id === "" then d else id

-- `tokenFor`; every call names its caller but the one for the login options
unfoldable pub token_for : Option HttpCaller → String
token_for none = "i1"
token_for (some caller) = if caller.role === "student" then id_or caller.student_id "i1" else "i1"

abbrev is_place : String → Bool
is_place part = part === "query" || part === "body" || part === "path"

abbrev pub item_message : ErrorItem → String
item_message d =
    let field = join "." (filter (λ part. not (is_place part)) d.loc) in
    if field === "" then d.msg else (field ++ ": ") ++ d.msg

-- the last two cases of `messageFrom`
abbrev pub plain_message : Option String → ℕ → String
unfolding count_text
plain_message (some message) status = message
plain_message none status = ("Request failed (" ++ count_text status) ++ ")."

abbrev pub detail_message : Detail → Option String → ℕ → String
unfolding plain_message
detail_message (Detail.text_detail text) message status = text
detail_message (Detail.list_detail []) message status = plain_message message status
detail_message (Detail.list_detail (d ∷ ds)) message status = join "; " (map item_message (d ∷ ds))
detail_message Detail.other_detail message status = plain_message message status

unfoldable pub message_from : Option ErrorBody → ℕ → String
unfolding detail_message plain_message
message_from none status = plain_message none status
message_from (some body) status = detail_message body.detail body.message status

-- `params.set(key, value)`: a known key keeps its place and loses its further values
abbrev pub set_param : String → String → List (String × String) → List (String × String)
set_param key value [] = (key, value) ∷ []
set_param key value ((k, v) ∷ ps) =
    let rest = set_param key value ps in
    if k === key then (key, value) ∷ filter (λ p. not (p.0 === key)) ps else (k, v) ∷ rest

abbrev pub append_params : String → List String → List (String × String)
append_params key values = map (λ v. (key, v)) values

-- one turn of the loop over the query
abbrev pub add_param : String → QueryValue → List (String × String) → List (String × String)
add_param key QueryValue.absent ps = ps
add_param key (QueryValue.one value) ps = if value === "" then ps else set_param key value ps
add_param key (QueryValue.many values) ps = Prelude.◌++◌ ps (append_params key values)

abbrev pub add_params : List (String × QueryValue) → List (String × String) → List (String × String)
add_params [] ps = ps
add_params ((key, value) ∷ query) ps = add_params query (add_param key value ps)

unfoldable pub params_of : List (String × QueryValue) → List (String × String)
params_of query = add_params query []

module _ {J B : Type 0} (browser : Browser J B) (base_url : String) where
  abbrev with_query : String → String
  with_query qs = if qs === "" then "" else "?" ++ qs

  unfoldable pub outgoing :
      String → String → List (String × QueryValue) → Option B → Option HttpCaller → Outgoing
  unfolding params_of token_for
  outgoing method path query body caller = record {
    method = method;
    url = (base_url ++ path) ++ with_query (browser.encode_params (params_of query));
    authorization = "Bearer " ++ token_for caller;
    content_type = elim body [ none ↦ none | some b ↦ some "application/json" ];
    body = elim body [ none ↦ none | some b ↦ some (browser.stringify b) ];
  }

  abbrev parsed : Option J → Result (Option J)
  parsed none = err (other_error "SyntaxError")
  parsed (some j) = ok (some j)

  -- what `send` makes of an answer; a body that is not JSON makes `res.json()` throw
  unfoldable pub answer_of : Option (Incoming J) → Result (Option J)
  unfolding message_from
  answer_of none = err (api_error "Could not reach the server." 0)
  answer_of (some res) =
      if not res.ok
      then err (api_error (message_from res.error_body res.status) res.status)
      else if res.status == 204
      then ok none
      else parsed res.json

  unfoldable pub send :
      String
      → String
      → List (String × QueryValue)
      → Option B
      → Option HttpCaller
      → Result (Option J)
  unfolding outgoing answer_of
  send method path query body caller =
      answer_of (browser.fetch (outgoing method path query body caller))
