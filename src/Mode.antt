-- ===== src/Mode.antt =====
-- Class Mode of src/server/mode.cc, and what the modes ask of the system.
pub mod App
pub mod Service
pub mod Permissions
pub mod Index
pub mod Op
pub mod Conf
pub mod Child
use vyatta_rest.Prelude.{
  ℕ, zero, suc, ◌+◌, ◌-◌, Bool, true, false, not, ◌&&◌, ◌||◌, List, [], ◌∷◌, ◌++◌, Option, none,
  some, length, take, drop, ltb, leb, ◌==◌, if◌then◌else◌,
}
use vyatta_rest.Text.{Str, codes, empty, contains, find}
use vyatta_rest.Outcome.{Outcome, done, ◌>>=◌}
use vyatta_rest.StrProc.{str_proc}
use vyatta_rest.Rest.Keys.{
  http_resp_content_type, http_resp_cookie, http_resp_cache_control, http_resp_content_disposition,
  http_body,
}
use vyatta_rest.Http.{Session, ErrorType, erase, respond, error}

-- What the modes ask of the system, over the world W: writing the request's body to JSON_INPUT
-- (false where fopen or fwrite fails), running a command line (its exit code and its output),
-- unlink of JSON_INPUT, and appending a line to it.
pub record System (W : Type 0) : Type 0 where
  pub put_input : Str → W → Bool × W
  pub system_out : Str → W → ℕ × Str × W
  pub unlink_input : W → W
  pub append_input : Str → W → W

to_lower : ℕ → ℕ
to_lower c = if leb 65 c && leb c 90 then c + 32 else c

-- `strncasecmp(name, line, strlen(name)) == 0`, for a line that contains no NUL
unfoldable pub same_header : Str → Str → Bool
unfolding to_lower
same_header [] line = true
same_header (x ∷ xs) [] = false
same_header (x ∷ xs) (y ∷ ys) = to_lower x == to_lower y && same_header xs ys

-- One line of the header that a command prints.
unfoldable pub override : Str → Session → Session
unfolding same_header
override line s =
    if same_header (codes "Content-Type:") line
    then (if ltb 14 (length line)
        then (let s' = respond http_resp_content_type (drop 14 line) s in
            record s' { response = record s'.response { verbatim_body = true } })
        else s)
    else if same_header (codes "Set-Cookie:") line
    then (if ltb 12 (length line) then respond http_resp_cookie (drop 12 line) s else s)
    else if same_header (codes "Cache-Control:") line
    then (if ltb 14 (length line)
        then (if contains (codes "vyatta-disable") (drop 14 line)
            then record s { response = erase http_resp_cache_control s.response }
            else respond http_resp_cache_control (drop 14 line) s)
        else s)
    else if same_header (codes "Content-Disposition:") line && ltb 20 (length line)
    then respond http_resp_content_disposition (drop 20 line) s
    else s

unfoldable pub overrides : List Str → Session → Session
unfolding override
overrides [] s = s
overrides (line ∷ lines) s = overrides lines (override line s)

-- The output with its header at `pos`.
with_header : Str → Session → Option ℕ → Outcome Session
unfolding overrides
with_header cmdout s none = done (respond http_body cmdout s)
with_header cmdout s (some pos) = str_proc (take pos cmdout) (codes "\n") >>= λ lines.
    done (respond http_body (drop (pos + 3) cmdout) (overrides lines s))

-- handle_cmd_output(cmdout, session)
unfoldable pub handle_cmd_output : Str → Session → Outcome Session
unfolding with_header
handle_cmd_output cmdout s = with_header cmdout s (find (codes "\r\n\n") cmdout)

-- `if ((err = system_out(cmd, out)) != 0) ERROR(session, type)`
abbrev pub failed : ErrorType → ℕ → Session → Session
failed type err s = if err == 0 then s else error type s
