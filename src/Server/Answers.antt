-- ===== src/Server/Answers.antt =====
-- What a client of the handlers of internal/server/handlers.go gets.

use wb_l.Server.Writer.{http_error, send_header, call, fresh, calls, Call}
use wb_l.Models.{Order}
use wb_l.Base.Text.{trim_left, trim_space, is_blank, codes, Text}
use wb_l.Server.{
  returned, handle_get_order, write_error_response, not_encoded, error_json, answer,
  write_json_response, encoded, order_json, is_not_found_error, Json, Failure, Encoded, GetOrder,
}
use wb_l.Base.{
  Bool-cases, false, true, refl, ◌⊎◌, ℕ, ◌++◌, some, [], none, inr, ◌≡◌, ◌∷◌, List, Option, inl,
  if◌then◌else◌,
}

abbrev pub json_type : Text
json_type = codes "application/json"

-- The body of a response: the encoded value, or a text that is sent in its place.
abbrev pub body_text : Encoded → Text
body_text (encoded t) = t
body_text not_encoded = codes "{\"error\":\"Internal server error\"}" ++ 10 ∷ []

-- The calls send this status as JSON, with the value as the body.
abbrev pub Replies : (Json → Encoded) → ℕ → Json → List Call → Type 0
Replies encode status json cs =
    ((calls cs fresh).sent ≡ some (status, json_type))
    × ((calls cs fresh).body ≡ body_text (encode json))

-- The status and the value for what the service returned.
abbrev pub status_for : Option Order → Option Failure → ℕ
status_for (some order) none = 200
status_for none none = 404
status_for found (some e) = if is_not_found_error (some e) then 404 else 500

abbrev pub json_for : Text → Option Order → Option Failure → Json
json_for uid (some order) none = order_json order
json_for uid none none = error_json (record { error = codes "Order not found"; message = uid })
json_for uid found (some e) = error_json (
    if is_not_found_error (some e)
    then record { error = codes "Order not found"; message = uid }
    else record { error = codes "Internal server error"; message = [] })

Encoded-cases : (e : Encoded) → ((t : Text) × (e ≡ encoded t)) ⊎ (e ≡ not_encoded)
Encoded-cases (encoded t) = inl (t, refl)
Encoded-cases not_encoded = inr refl

module _ {Ctx St : Type 0} (encode : Json → Encoded) (service : GetOrder Ctx St) where
  pub write_json_response-Replies :
      (status : ℕ) (json : Json)
      → Replies encode status json (write_json_response encode service status json)
  unfolding write_json_response calls call send_header http_error
  write_json_response-Replies status json = elim (Encoded-cases (encode json)) [
    | inl (t, e) ↦ rw e (refl, refl)
    | inr e ↦ rw e (refl, refl)
  ]

  failure-Replies :
      (uid : Text) (found : Option Order) (e : Failure)
      → Replies encode
          (status_for found (some e))
          (json_for uid found (some e))
          (answer encode service uid found (some e))
  unfolding answer write_error_response is_not_found_error
  failure-Replies uid found e = elim (Bool-cases (is_not_found_error (some e))) [
    | inl h ↦ rw h (write_json_response-Replies 404 _)
    | inr h ↦ rw h (write_json_response-Replies 500 _)
  ]

  pub answer-Replies :
      (uid : Text) (found : Option Order) (err : Option Failure)
      → Replies encode
          (status_for found err)
          (json_for uid found err)
          (answer encode service uid found err)
  unfolding answer write_error_response
  answer-Replies uid none none = write_json_response-Replies 404 _
  answer-Replies uid (some o) none = write_json_response-Replies 200 _
  answer-Replies uid none (some e) = failure-Replies uid none e
  answer-Replies uid (some o) (some e) = failure-Replies uid (some o) e

  -- A blank UID: the service is not asked.
  pub handle_get_order-is_blank :
      (ctx : Ctx) (path_value : Text) (st : St)
      → is_blank path_value ≡ true
      → (cs : List Call) × (message : Text) × (handle_get_order encode service ctx path_value st
          ≡ returned cs st)
        × Replies encode 400 (error_json (record { error = message; message = [] })) cs
  unfolding handle_get_order is_blank write_error_response
  handle_get_order-is_blank ctx [] st blank = (_, _, refl, write_json_response-Replies 400 _)
  handle_get_order-is_blank ctx (c ∷ s) st blank = (
    write_error_response encode service 400 (codes "Order UID cannot be empty") [],
    codes "Order UID cannot be empty",
    rw (handle_get_order, blank) refl,
    write_json_response-Replies 400 _,
  )

  -- A request for a UID that is not blank asks the service once, with the trimmed UID, and is
  -- answered as JSON: status 200 with the order, 404 if there is none or the error says so, and
  -- 500 for any other error. Where the encoding fails, the status stays and the body is the text
  -- of an internal error.
  pub handle_get_order-Replies :
      (ctx : Ctx) (path_value : Text) (st st' : St) (found : Option Order) (err : Option Failure)
      → is_blank path_value ≡ false
      → service ctx (trim_space path_value) st ≡ some ((found, err), st')
      → (cs : List Call) × (handle_get_order encode service ctx path_value st ≡ returned cs st')
        × Replies encode (status_for found err) (json_for (trim_space path_value) found err) cs
  unfolding handle_get_order is_blank trim_space trim_left
  handle_get_order-Replies ctx [] st st' found err shown ran = absurd (cc)
  handle_get_order-Replies ctx (c ∷ s) st st' found err shown ran = (
    answer encode service (trim_space (c ∷ s)) found err,
    rw (handle_get_order, shown, ran) refl,
    answer-Replies (trim_space (c ∷ s)) found err,
  )
