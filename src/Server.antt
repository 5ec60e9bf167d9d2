-- ===== src/Server.antt =====
-- internal/server/handlers.go: the handlers, over the parts of net/http that they call. A handler is a list
-- of calls of its `ResponseWriter`; encoding/json and the order service are parameters, and `St` is the
-- state of the service.
pub mod Writer
pub mod Middleware
pub mod Routes
pub mod Answers
pub mod Orders
pub mod Uncached
pub mod Pipeline
pub mod Paths
pub mod Listener
-- `ErrorResponse` and `HealthResponse`
use wb_l.Models.{Order}
use wb_l.Base.Text.{trim_space, is_nil, codes, in_range, Text}
use wb_l.Server.Writer.{write, write_header, set_content_type, http_error, Call}
use wb_l.Base.{
  ◌&&◌, false, [], not, ◌==◌, ◌||◌, ◌+◌, true, Option, ℕ, Bool, some, ◌∷◌, List, none,
  if◌then◌else◌,
}

pub record ErrorResponse : Type 0 where
  pub error : Text
  pub message : Text

pub record HealthResponse : Type 0 where
  pub status : Text
  pub time : Text

-- What is encoded.
pub data Json : Type 0 where
  order_json : Order → Json
  error_json : ErrorResponse → Json
  health_json : HealthResponse → Json

-- The text that `Encode` writes, or the error on which it writes nothing.
pub data Encoded : Type 0 where
  encoded : Text → Encoded
  not_encoded : Encoded

-- An `error`: its text, and whether it is `ErrOrderNotFound`.
pub record Failure : Type 0 where
  pub message : Text
  pub is_sentinel : Bool

-- `GetOrder` of the service; `none` is a panic.
abbrev pub GetOrder : (Ctx St : Type 0) → Type 0
GetOrder Ctx St = Ctx → Text → St → Option ((Option Order × Option Failure) × St)

-- How a handler ends: with the calls that it made of the writer.
pub data Handled (St : Type 0) : Type 0 where
  returned : List Call → St → Handled St
  panicked : List Call → Handled St

-- The letters of `strings.ToLower` that `isNotFoundError` sees: no other letter becomes one of those that it
-- looks for.
unfoldable pub to_lower : Text → Text
to_lower [] = []
to_lower (c ∷ s) = (if in_range b'A' b'Z' c then c + 32 else c) ∷ to_lower s

abbrev pub has_prefix : Text → Text → Bool
has_prefix s [] = true
has_prefix [] (d ∷ t) = false
has_prefix (c ∷ s) (d ∷ t) = c == d && has_prefix s t

-- `strings.Contains`
unfoldable pub contains_text : Text → Text → Bool
contains_text [] t = has_prefix [] t
contains_text (c ∷ s) t = has_prefix (c ∷ s) t || contains_text s t

unfoldable pub is_not_found_error : Option Failure → Bool
unfolding to_lower contains_text
is_not_found_error none = false
is_not_found_error (some e) =
    contains_text (to_lower e.message) (codes "not found")
    || contains_text (to_lower e.message) (codes "no rows")
    || e.is_sentinel

module _ {Ctx St : Type 0} (encode : Json → Encoded) (service : GetOrder Ctx St) where
  unfoldable pub write_json_response : (status : ℕ) → Json → List Call
  unfolding http_error
  write_json_response status json =
      set_content_type (codes "application/json") ∷ write_header status ∷ elim (encode json) [
        | encoded t ↦ write t ∷ []
        | not_encoded ↦ http_error (codes "{\"error\":\"Internal server error\"}") 500
      ]

  unfoldable pub write_error_response : (status : ℕ) → (message details : Text) → List Call
  unfolding write_json_response
  write_error_response status message details =
      write_json_response status (error_json (record { error = message; message = details }))

  -- The answer to what the service returned.
  unfoldable pub answer : Text → Option Order → Option Failure → List Call
  unfolding write_error_response write_json_response is_not_found_error
  answer uid found (some e) =
      if is_not_found_error (some e)
      then write_error_response 404 (codes "Order not found") uid
      else write_error_response 500 (codes "Internal server error") []
  answer uid none none = write_error_response 404 (codes "Order not found") uid
  answer uid (some order) none = write_json_response 200 (order_json order)

  -- `path_value` is what stands for `order_uid` in the path.
  unfoldable pub handle_get_order : Ctx → (path_value : Text) → St → Handled St
  unfolding answer write_error_response
  handle_get_order ctx path_value st =
      if is_nil path_value
      then returned (write_error_response 400 (codes "Order UID is required") []) st
      else let uid = trim_space path_value in
        if is_nil uid
        then returned (write_error_response 400 (codes "Order UID cannot be empty") []) st
        else elim (service ctx uid st) [
          | none ↦ panicked []
          | some ((found, err), st') ↦ returned (answer uid found err) st'
        ]

  -- `now` is the clock, as RFC 3339 writes it.
  unfoldable pub handle_health : (now : Text) → St → Handled St
  unfolding write_json_response
  handle_health now st =
      returned (write_json_response 200 (health_json (record { status = codes "ok"; time = now })))
        st
