-- ===== src/Http/Framing.antt =====
-- The framing of a response (src/server/http.cc, HTTP::serialize).
use vyatta_rest.Prelude.{◌≡◌, [], ◌++◌, Option, length, if◌then◌else◌, ltb}
use vyatta_rest.Text.{Str, codes}
use vyatta_rest.Text.Decimal.{strtoul}
use vyatta_rest.Rest.Keys.{max_body_size}
use vyatta_rest.Http.{Http, sent_body}

-- A text that ends in a length header, a blank line and a body of that length.
pub record IsFramed (text body : Str) : Type 0 where
  pub head : Str
  pub digits : Str
  pub text_is : text ≡ head ++ (codes "Content-Length: " ++ (digits ++ (codes "\r\n\r\n" ++ body)))
  pub length_is : strtoul digits ≡ length body

-- The body that a stored body is sent as: nothing when it is over the limit.
abbrev pub outgoing : (Str → Option Str) → Http → Str → Str
outgoing reformat h v = if ltb max_body_size (length v) then [] else sent_body reformat h v
