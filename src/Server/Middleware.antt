-- ===== src/Server/Middleware.antt =====
-- The middlewares of internal/server/server.go around a handler. `timeoutMiddleware` runs the handler in a
-- goroutine; how its race with the context ends, and what the handler still does after that, is an argument.
-- `http.Error` is one step of that race.
use wb_l.Server.{Handled}
use wb_l.Base.Text.{codes, Text}
use wb_l.Base.{ap, ◌∙◌, sym, ℕ, List, [], arith, inl, ◌++◌, ◌≡◌, Option-cases, inr, some, ◌∷◌, refl}
use wb_l.Server.Writer.{
  calls-append, send_header, fresh, call, calls, http_error, Call, Response, set_content_type,
  write_header, write,
}
use wb_l.Server.{returned, panicked}
use mathlib.Core.Option.{get_or}
use wb_l.Base.{Option-cases}
use wb_l.Base.Lists.{take, drop}
use mathlib.Core.List.{append-nil, append_assoc}
use wb_l.Base.{sym, ap, ◌∙◌}

-- What a handler does that outlives its request: it makes some more calls of the writer before the response is
-- finished, or it ends the process. It does so where it panics, where it writes the header map at the moment at
-- which `http.Error` does, and where it uses the writer after net/http has finished the response.
pub data Late : Type 0 where
  writes_on : ℕ → Late
  ends_process : Late

-- Which case of the `select` runs, how many calls of the writer the handler had made before it, and what it does
-- later.
pub data Race : Type 0 where
  handler_done : Race
  deadline_exceeded context_canceled : ℕ → Late → Race

-- How a request ends: with the calls of the writer, with a panic that goes up the goroutine of the request, or
-- with the end of the process, by a panic in another goroutine.
pub data Outcome : Type 0 where
  answered : List Call → Outcome
  panicking : List Call → Outcome
  crashed : List Call → Outcome

abbrev pub calls_of : {St : Type 0} → Handled St → List Call
calls_of (returned cs st) = cs
calls_of (panicked cs) = cs

-- The status that `responseWriter` keeps: that of the last `WriteHeader`.
unfoldable pub captured : ℕ → List Call → ℕ
captured status [] = status
captured status (set_content_type t ∷ cs) = captured status cs
captured status (write_header s ∷ cs) = captured s cs
captured status (write t ∷ cs) = captured status cs

-- `loggingMiddleware`: the calls go through a wrapper that keeps a status.
unfoldable pub logged : {St : Type 0} → Handled St → ℕ × Handled St
unfolding captured
logged h = (captured 200 (calls_of h), h)

abbrev pub timeout_text : Text
timeout_text = codes "{\"error\":\"Request timeout\"}"

unfoldable pub timed_out : {St : Type 0} → Race → Handled St → Outcome
unfolding http_error
timed_out handler_done (returned cs st) = answered cs
timed_out handler_done (panicked cs) = crashed cs
timed_out (deadline_exceeded n (writes_on m)) h =
    answered (take n (calls_of h) ++ (http_error timeout_text 408 ++ take m (drop n (calls_of h))))
timed_out (context_canceled n (writes_on m)) h =
    answered (take n (calls_of h) ++ take m (drop n (calls_of h)))
timed_out (deadline_exceeded n ends_process) h = crashed (take n (calls_of h))
timed_out (context_canceled n ends_process) h = crashed (take n (calls_of h))

unfoldable pub recovered : Outcome → Outcome
unfolding http_error
recovered (answered cs) = answered cs
recovered (crashed cs) = crashed cs
recovered (panicking cs) =
    answered (cs ++ http_error (codes "{\"error\":\"Internal server error\"}") 500)

-- The handler that `setupRoutes` makes.
unfoldable pub serve : {St : Type 0} → Race → Handled St → Outcome
unfolding recovered timed_out logged
serve race h = recovered (timed_out race (logged h).1)

-- Whatever is called later, a header that was sent stays.
calls-sent :
    (cs : List Call) (r : Response) (h : ℕ × Text) → r.sent ≡ some h → (calls cs r).sent ≡ some h
unfolding calls call send_header
calls-sent [] r h e = e
calls-sent (set_content_type t ∷ cs) r h e = calls-sent cs _ h e
calls-sent (write_header s ∷ cs) r h e = calls-sent cs _ h (ground (arith, e))
calls-sent (write t ∷ cs) r h e = calls-sent cs _ h (ground (arith, e))

calls-http_error :
    (message : Text) (status : ℕ) (r : Response)
    → ((calls (http_error message status) r).sent
        ≡ some (get_or r.sent (status, codes "text/plain; charset=utf-8")))
      × ((calls (http_error message status) r).body ≡ r.body ++ (message ++ 10 ∷ []))
unfolding http_error calls call send_header
calls-http_error message status r = elim (Option-cases r.sent) [
  | inl e ↦ rw e (refl, refl)
  | inr (h, e) ↦ rw e (refl, refl)
]

-- The texts that are written.
abbrev pub written : List Call → Text
written [] = []
written (set_content_type t ∷ cs) = written cs
written (write_header s ∷ cs) = written cs
written (write t ∷ cs) = t ++ written cs

-- Behind a header, only the texts count.
calls-body :
    (cs : List Call) (r : Response) (h : ℕ × Text)
    → r.sent ≡ some h
    → (calls cs r).body ≡ r.body ++ written cs
unfolding calls call send_header
calls-body [] r h e = sym (append-nil r.body)
calls-body (set_content_type t ∷ cs) r h e = calls-body cs _ h e
calls-body (write_header s ∷ cs) r h e = rw e (calls-body cs (record r { sent = some h }) h refl)
calls-body (write t ∷ cs) r h e = rw e (
    calls-body cs (record r { sent = some h; body = r.body ++ t }) h refl
    ∙ append_assoc r.body t (written cs))

-- At the deadline, unless the handler ends the process later, the client gets what the handler
-- wrote so far, followed by the text of the timeout and by what the handler still writes before
-- the response is finished. The status is 408 if no header was sent before the deadline, and
-- otherwise the one that was sent, whatever the handler calls later.
pub serve-deadline_exceeded :
    {St : Type 0} (n m : ℕ) (h : Handled St)
    → let r = calls (take n (calls_of h)) fresh in
      (ds : List Call) × (serve (deadline_exceeded n (writes_on m)) h ≡ answered ds)
      × ((calls ds fresh).sent ≡ some (get_or r.sent (408, codes "text/plain; charset=utf-8")))
      × ((calls ds fresh).body
          ≡ r.body ++ ((timeout_text ++ 10 ∷ []) ++ written (take m (drop n (calls_of h)))))
unfolding serve recovered timed_out logged
serve-deadline_exceeded n m h =
    let cs = take n (calls_of h) in
    let late = take m (drop n (calls_of h)) in
    let r = calls cs fresh in
    let (header, body) = calls-http_error timeout_text 408 r in
    let split =
      calls-append cs (http_error timeout_text 408 ++ late) fresh
      ∙ calls-append (http_error timeout_text 408) late r in
    (
      _,
      refl,
      rw split (calls-sent late _ _ header),
      rw split (
          calls-body late _ _ header
          ∙ ap (λ (x : Text). x ++ written late) body
          ∙ append_assoc r.body (timeout_text ++ 10 ∷ []) (written late)),
    )
