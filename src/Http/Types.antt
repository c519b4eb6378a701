-- ===== src/Http/Types.antt =====
-- What the client of httpApi.js sends and receives. `J` is the type of JSON values of the answers.
use league_table.Prelude.{ℕ, String, Bool, Option, List}

-- One item of a validation error; a number in `loc` stands as its text.
pub record ErrorItem : Type 0 where
  pub loc : List String
  pub msg : String

-- `detail` of an error body: a text, a list, or anything else.
pub data Detail : Type 0 where
  text_detail : String → Detail
  list_detail : List ErrorItem → Detail
  other_detail : Detail

-- An error body, absent where it is not JSON. `message` is there where it is a text.
pub record ErrorBody : Type 0 where
  pub detail : Detail
  pub message : Option String

-- A value of a query: absent, a text, or a list of texts.
pub data QueryValue : Type 0 where
  absent : QueryValue
  one : String → QueryValue
  many : List String → QueryValue

-- Who makes a call, as far as the token needs it.
pub record HttpCaller : Type 0 where
  pub role : String
  pub student_id : Option String

-- What `fetch` is given. `content_type` and `body` are absent together.
pub record Outgoing : Type 0 where
  pub method : String
  pub url : String
  pub authorization : String
  pub content_type : Option String
  pub body : Option String

-- What `fetch` answers. `json` is absent where the body is not JSON; `ok` is the browser's, for a
-- status of 200 to 299.
pub record Incoming (J : Type 0) : Type 0 where
  pub status : ℕ
  pub ok : Bool
  pub json : Option J
  pub error_body : Option ErrorBody

-- The browser. `fetch` gives nothing where the server is not reached.
pub record Browser (J B : Type 0) : Type 0 where
  pub fetch : Outgoing → Option (Incoming J)
  pub encode_params : List (String × String) → String
  pub encode_component : String → String
  pub stringify : B → String
