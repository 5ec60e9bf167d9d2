-- ===== src/Server/Writer.antt =====
-- The parts of `http.ResponseWriter` and of `http.Error` that internal/server calls.

-- What a client gets, and the `Content-Type` of the header map, which `WriteHeader` sends.
use wb_l.Base.Text.{codes, Text}
use wb_l.Base.{Option, some, refl, ◌∷◌, List, ℕ, [], ◌++◌, none, ◌≡◌}

pub record Response : Type 0 where
  pub content_type : Text
  pub sent : Option (ℕ × Text)
  pub body : Text

pub data Call : Type 0 where
  set_content_type : Text → Call
  write_header : ℕ → Call
  write : Text → Call

abbrev pub fresh : Response
fresh = record { content_type = []; sent = none; body = [] }

-- Only the first header is sent.
unfoldable pub send_header : ℕ → Response → Response
send_header status r = elim r.sent [
  | none ↦ record r { sent = some (status, r.content_type) }
  | some _ ↦ r
]

-- The first `Write` sends a header of its own if there is none.
unfoldable pub call : Call → Response → Response
unfolding send_header
call (set_content_type t) r = record r { content_type = t }
call (write_header status) r = send_header status r
call (write t) r = let r' = send_header 200 r in record r' { body = r'.body ++ t }

unfoldable pub calls : List Call → Response → Response
unfolding call
calls [] r = r
calls (c ∷ cs) r = calls cs (call c r)

-- `http.Error`
unfoldable pub http_error : Text → ℕ → List Call
http_error message status =
    set_content_type (codes "text/plain; charset=utf-8")
    ∷ write_header status
    ∷ write (message ++ 10 ∷ [])
    ∷ []

pub calls-append : (cs ds : List Call) (r : Response) → calls (cs ++ ds) r ≡ calls ds (calls cs r)
unfolding calls
calls-append [] ds r = refl
calls-append (c ∷ cs) ds r = calls-append cs ds (call c r)
