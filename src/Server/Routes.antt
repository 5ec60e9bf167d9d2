-- ===== src/Server/Routes.antt =====
-- `setupRoutes` of internal/server/server.go. `mux` is `http.ServeMux`: which of the patterns it picks for a request,
-- and what it takes out of the path for `order_uid`. What the file server sends, and what the mux itself
-- answers, are parameters.
use wb_l.Server.{returned, handle_health, handle_get_order, Json, GetOrder, Encoded, Handled}
use wb_l.Base.{◌∷◌, List, []}
use wb_l.Server.Writer.{Call}
use wb_l.Base.Text.{codes, Text}

pub record HttpRequest : Type 0 where
  pub method : Text
  pub path : Text

pub data Handler : Type 0 where
  order_handler health_handler files_handler : Handler

unfoldable pub routes : List (Text × Handler)
routes =
    (codes "GET /order/{order_uid}", order_handler)
    ∷ (codes "GET /health", health_handler)
    ∷ (codes "GET /", files_handler)
    ∷ []

-- A handler with `r.PathValue("order_uid")`, or an answer of the mux.
pub data Picked : Type 0 where
  picked : Handler → Text → Picked
  not_picked : Picked

abbrev pub Mux : Type 0
Mux = List (Text × Handler) → HttpRequest → Picked

module _ {Ctx St : Type 0} (encode : Json → Encoded) (service : GetOrder Ctx St) (mux : Mux)
    (files other : HttpRequest → List Call) where
  -- `now` is the clock, as RFC 3339 writes it.
  unfoldable pub dispatch : (now : Text) → Ctx → HttpRequest → Picked → St → Handled St
  unfolding handle_get_order handle_health
  dispatch now ctx r (picked order_handler path_value) st =
      handle_get_order encode service ctx path_value st
  dispatch now ctx r (picked health_handler path_value) st = handle_health encode service now st
  dispatch now ctx r (picked files_handler path_value) st = returned (files r) st
  dispatch now ctx r not_picked st = returned (other r) st

  -- The mux inside the middlewares.
  unfoldable pub route : (now : Text) → Ctx → HttpRequest → St → Handled St
  unfolding dispatch routes
  route now ctx r st = dispatch now ctx r (mux routes r) st
