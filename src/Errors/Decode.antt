-- ===== src/Errors/Decode.antt =====
-- decodeProblem of errors.go. Decoding JSON is the parameter `problem_json`: what a decoder over a
-- stream of these bytes makes of it, `none` if it fails.
use walletd_go.Base.{◌^◌, Bytes, Option, none, some, take, if◌then◌else◌, str_eq}
use walletd_go.Errors.Problem.{Problem, empty_problem}
use walletd_go.Http.Message.{Response}
use walletd_go.Http.Status.{status_text}

-- A title where the envelope has none.
unfoldable pub with_title : Response → Problem → Problem
unfolding status_text
with_title resp p =
    if str_eq p.title ""
    then (if str_eq (status_text resp.status) ""
        then record p { title = resp.status_line }
        else record p { title = status_text resp.status })
    else p

-- `io.LimitReader(resp.Body, 1<<16)`
pub limited : Bytes → Bytes
limited = take (2 ^ 16)

-- The envelope, or `&Problem{}` where decoding failed.
unfoldable pub or_empty : Option Problem → Problem
or_empty (some p) = p
or_empty none = empty_problem

unfoldable pub decode_problem : (Bytes → Option Problem) → Response → Problem
unfolding with_title or_empty
decode_problem problem_json resp =
    record (with_title resp (or_empty (problem_json (limited resp.body)))) { status = resp.status }
