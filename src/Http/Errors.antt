-- ===== src/Http/Errors.antt =====
-- What class Error does to a response (src/server/http.hh).
use vyatta_rest.Prelude.{◌≡◌, refl, false, not, [], ◌∷◌, ◌++◌, Option, some, arith, if◌then◌else◌}
use vyatta_rest.Text.{Str, codes, empty}
use vyatta_rest.Text.Map.{assign, str_lt}
use vyatta_rest.Text.{str_eq}
use vyatta_rest.Json.{add_value, serialize}
use vyatta_rest.Rest.Keys.{Key, http_body, http_resp_code}
use vyatta_rest.Http.{
  Session, ErrorType, error_code, error_message, error_number, error_body, error, error_with,
  same_key, respond,
}

-- The body of an error with a message of its own, and none for the others.
abbrev pub error_text : ErrorType → Str
error_text type =
    if empty (error_message type)
    then []
    else codes "{\"error\":\""
      ++ (error_number type ++ (codes "\",\"message\":\"" ++ (error_message type ++ codes "\"}")))

error_body-error_text : (type : ErrorType) → error_body type [] ≡ error_text type
unfolding error_body add_value assign str_lt str_eq serialize
error_body-error_text type = ground arith

abbrev text_or_kept : Str → Option Str → Option Str
text_or_kept [] old = old
text_or_kept (x ∷ text) old = some (x ∷ text)

-- The session after a response with that code, and with that body if it is not empty.
abbrev pub Answered : Str → Str → Session → Session → Type 0
Answered code text s s' =
    (s'.response.params http_resp_code ≡ some code)
    × (s'.response.params http_body ≡ text_or_kept text (s.response.params http_body))
    × ((k : Key)
        → same_key http_body k ≡ false
        → same_key http_resp_code k ≡ false
        → s'.response.params k ≡ s.response.params k)
    × (s'.request ≡ s.request)
    × (s'.auth_type ≡ s.auth_type)

answer : Str → Str → Session → Session
answer code text s =
    let s' = if not (empty text) then respond http_body text s else s in
    respond http_resp_code code s'

answer-Answered : (code text : Str) (s : Session) → Answered code text s (answer code text s)
unfolding answer
answer-Answered code [] s = (refl, refl, λ k p q. rw q, refl, refl)
answer-Answered code (x ∷ text) s = (refl, refl, λ k p q. rw (q, p), refl, refl)

-- An error type sets the status code of its row, and the body to its message and number as JSON.
-- The types with no message keep the body, and no other response parameter, nor the request, nor
-- the authentication of the session changes.
pub error_lem :
    (type : ErrorType) (s : Session) → Answered (error_code type) (error_text type) s (error type s)
unfolding error_with
error_lem type s =
    rw (error_body-error_text type)
      (unfold answer in answer-Answered (error_code type) (error_text type) s)
