-- ===== src/Http/Answered.antt =====
-- What a call of httpApi.js gives for each thing that may happen to its request.
use league_table.Prelude.{
  String, ◌≡◌, ◌≢◌, true, false, Option, none, some, arith, inl, inr, Bool-cases, Option-cases,
  ◌==◌,
}
use league_table.Api.Types.{Result, ok, err, api_error, other_error}
use league_table.Http.Types.{Incoming, Browser}
use league_table.Http.Send.{message_from, outgoing, answer_of, send}
use league_table.Http.Endpoints.{WriteBody, Call, sent_by, perform}

module _ {J W : Type 0} (browser : Browser J (WriteBody W)) (base_url : String)
    (call : Call W) where
  -- The answer of the server to the request of the call.
  abbrev pub received : Option (Incoming J)
  unfolding sent_by outgoing
  received =
      let sent = sent_by browser call in
      browser.fetch
        (outgoing browser base_url sent.method sent.path sent.query sent.body sent.caller)

  -- What may happen to the request, and what the call then gives.
  pub data Answered : Result (Option J) → Type 0 where
    unreached : received ≡ none → Answered (err (api_error "Could not reach the server." 0))
    refused :
        (res : Incoming J)
        → received ≡ some res
        → res.ok ≡ false
        → Answered (err (api_error (message_from res.error_body res.status) res.status))
    empty :
        (res : Incoming J)
        → received ≡ some res
        → res.ok ≡ true
        → res.status ≡ 204
        → Answered (ok none)
    read :
        (res : Incoming J) (json : J)
        → received ≡ some res
        → res.ok ≡ true
        → res.status ≢ 204
        → res.json ≡ some json
        → Answered (ok (some json))
    unreadable :
        (res : Incoming J)
        → received ≡ some res
        → res.ok ≡ true
        → res.status ≢ 204
        → res.json ≡ none
        → Answered (err (other_error "SyntaxError"))

  res-Answered :
      (res : Incoming J) → received ≡ some res → Answered (answer_of browser base_url (some res))
  unfolding answer_of received
  res-Answered res e = elim (Bool-cases res.ok) [
    | inr bad ↦ rw bad (refused res e bad)
    | inl good ↦ elim (Bool-cases (res.status == 204)) [
      | inl s ↦ rw (good, s) (empty res e good (ground arith))
      | inr s ↦ elim (Option-cases res.json) [
        | inl j ↦ rw (good, s, j) (unreadable res e good (ground arith) j)
        | inr (json, j) ↦ rw (good, s, j) (read res json e good (ground arith) j)
      ]
    ]
  ]

  -- Every call of the client ends in one of five ways: an error with status 0 where the server is not
  -- reached; an error with the status of an answer that is not ok; nothing for status 204; the JSON
  -- of the answer; or the error of a body that is not JSON.
  pub perform-Answered : Answered (perform browser base_url call)
  unfolding perform send answer_of received
  perform-Answered = elim (Option-cases received) [
    | inl e ↦ rw e (unreached e)
    | inr (res, e) ↦ rw e (res-Answered res e)
  ]
