-- ===== src/System/Provenance.antt =====
-- Where an order comes from that the server of the running program sends, and what else is sent.
use wb_l.Consumer.Rounds.{letters_all, turn_bound, turn_letters}
use wb_l.Service.{dated}
use wb_l.Server.Answers.{json_for, status_for, Replies}
use wb_l.Server.Writer.{http_error, Call}
use wb_l.Base.Time.{Time}
use wb_l.DeadLetters.{Bytes}
use wb_l.Models.{Order}
use wb_l.Models.Orders.{IsValidOrder}
use wb_l.Consumer.{ProcessError, decoded, Message, Decoded}
use wb_l.Server.{health_json, error_json, Failure, Encoded, Json}
use wb_l.Base.Text.{codes, trim_space, Text}
use wb_l.Manager.Kept.{Retrieved}
use wb_l.Base.{◌≤◌, ◌+◌, ℕ, refl, arith, ◌≡◌, ◌⊎◌, inr, Option, none, ◌++◌, [], ◌∷◌, List, some}
use wb_l.Base.Lists.{drop, take}
use wb_l.System.{Event, Output, turn, asks, turned, sent, idle}
use wb_l.Consumer.Loop.{stopped, again}
use wb_l.Server.Routes.{
  routes, Mux, HttpRequest, Picked, picked, not_picked, order_handler, health_handler,
  files_handler,
}
use wb_l.Server.Middleware.{
  timeout_text, Race, handler_done, deadline_exceeded, context_canceled, writes_on, ends_process,
}

module _ (decode : Bytes → Decoded) where
  -- The message decodes to a valid order, and this is its UID and the order, with the date of the clock if
  -- it had none.
  pub record Brought (m : Message) (x : Text × Order) : Type 0 where
    pub order : Order
    pub now : Time
    pub later : Time
    pub stamp : Time
    pub read : decode m.value ≡ decoded order
    pub valid : IsValidOrder now later order
    pub kept : x ≡ (order.order_uid, dated stamp order)

  -- A message that was handled without an error brought the order.
  abbrev pub Came : List Output → Text × Order → Type 0
  Came [] x = ⊥
  Came (turned (again (some (m, none))) ∷ done) x = Brought m x ⊎ Came done x
  Came (turned (again (some (m, some e))) ∷ done) x = Came done x
  Came (turned (again none) ∷ done) x = Came done x
  Came (turned stopped ∷ done) x = Came done x
  Came (sent r cs ∷ done) x = Came done x
  Came (idle ∷ done) x = Came done x

  pub Came-cons :
      (o : Output) (done : List Output) (x : Text × Order) → Came done x → Came (o ∷ done) x
  Came-cons (turned (again (some (m, none)))) done x h = inr h
  Came-cons (turned (again (some (m, some e)))) done x h = h
  Came-cons (turned (again none)) done x h = h
  Came-cons (turned stopped) done x h = h
  Came-cons (sent r cs) done x h = h
  Came-cons idle done x h = h

  -- The order came with a message before, or is one that the database has.
  abbrev pub FromBefore : (Text × Order → Type 0) → List Output → Text × Order → Type 0
  FromBefore Stored done x = Came done x ⊎ Stored x

-- The messages that were handled, each with its error.
abbrev pub handled_of : List Output → List (Message × Option ProcessError)
handled_of [] = []
handled_of (turned (again (some h)) ∷ os) = h ∷ handled_of os
handled_of (turned (again none) ∷ os) = handled_of os
handled_of (turned stopped ∷ os) = handled_of os
handled_of (sent r cs ∷ os) = handled_of os
handled_of (idle ∷ os) = handled_of os

abbrev pub output_letters : Output → ℕ
output_letters (turned tn) = turn_letters tn
output_letters (sent r cs) = 0
output_letters idle = 0

pub output_bound : (o : Output) → output_letters o ≤ 2
output_bound (turned tn) = turn_bound tn
output_bound (sent r cs) = omega arith
output_bound idle = omega arith

pub handled_of-cons :
    (o : Output) (os : List Output)
    → letters_all (handled_of (o ∷ os)) ≡ output_letters o + letters_all (handled_of os)
handled_of-cons (turned (again (some (m, err)))) os = refl
handled_of-cons (turned (again none)) os = omega arith
handled_of-cons (turned stopped) os = omega arith
handled_of-cons (sent r cs) os = omega arith
handled_of-cons idle os = omega arith

-- What the client gets of the calls of a handler that does not end the process.
abbrev pub cut : Race → List Call → List Call
cut handler_done cs = cs
cut (deadline_exceeded n (writes_on m)) cs =
    take n cs ++ (http_error timeout_text 408 ++ take m (drop n cs))
cut (context_canceled n (writes_on m)) cs = take n cs ++ take m (drop n cs)
cut (deadline_exceeded n ends_process) cs = []
cut (context_canceled n ends_process) cs = []

-- The handler does not end the process after its request.
abbrev pub IsCalm : Race → Type 0
IsCalm handler_done = Unit
IsCalm (deadline_exceeded n (writes_on m)) = Unit
IsCalm (context_canceled n (writes_on m)) = Unit
IsCalm (deadline_exceeded n ends_process) = ⊥
IsCalm (context_canceled n ends_process) = ⊥

abbrev pub IsCalmEvent : {Ctx : Type 0} → Event Ctx → Type 0
IsCalmEvent (turn t) = Unit
IsCalmEvent (asks c now r race) = IsCalm race

module _ (decode : Bytes → Decoded) (encode : Json → Encoded) (Stored : Text × Order → Type 0)
    (mux : Mux) (files other : HttpRequest → List Call) where
  -- The calls of `handleGetOrder`: 400 for a blank UID, and otherwise the JSON for what the service returned, where
  -- an order is one from before, under the UID.
  abbrev pub OrderReply : List Output → Text → List Call → Type 0
  OrderReply done path_value cs =
      ((message : Text) × Replies encode 400 (error_json (record { error = message; message = [] }))
          cs)
      ⊎ ((found : Option Order) × (err : Option Failure) × Retrieved (FromBefore decode Stored done)
            (trim_space path_value) found err
          × Replies encode (status_for found err) (json_for (trim_space path_value) found err) cs)

  abbrev pub ReplyTo : List Output → (now : Text) → HttpRequest → Picked → List Call → Type 0
  ReplyTo done now r (picked order_handler path_value) cs = OrderReply done path_value cs
  ReplyTo done now r (picked health_handler path_value) cs =
      Replies encode 200 (health_json (record { status = codes "ok"; time = now })) cs
  ReplyTo done now r (picked files_handler path_value) cs = cs ≡ files r
  ReplyTo done now r not_picked cs = cs ≡ other r

  -- What an output says of its event, after the outputs before it.
  abbrev pub Answers : {Ctx : Type 0} → List Output → Event Ctx → Output → Type 0
  Answers done (turn t) (turned tn) = Unit
  Answers done (turn t) idle = Unit
  Answers done (asks c now r race) (sent r' ds) =
      (r' ≡ r) × ((cs : List Call) × (ds ≡ cut race cs) × ReplyTo done now r (mux routes r) cs)
  Answers done e o = ⊥

  abbrev pub AllAnswer : {Ctx : Type 0} → List Output → List (Event Ctx) → List Output → Type 0
  AllAnswer done [] [] = Unit
  AllAnswer done (e ∷ es) (o ∷ os) = Answers done e o × AllAnswer (o ∷ done) es os
  AllAnswer done es os = ⊥
