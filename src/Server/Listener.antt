-- ===== src/Server/Listener.antt =====
-- `New`, `Start` and `Stop` of internal/server/server.go. The listener is one of net/http: what
-- `ListenAndServe` and `Shutdown` return is an argument.
use wb_l.Config.Load.{get_server_address}
use wb_l.Base.Text.{codes, Text}
use wb_l.Base.Int.{ℤ}
use wb_l.Base.{Option, ◌++◌, none, some}
use wb_l.Config.{Config}

-- What is set of `http.Server`; the times are in nanoseconds.
pub record HttpServer : Type 0 where
  pub addr : Text
  pub read_timeout : ℤ
  pub write_timeout : ℤ
  pub idle_timeout : ℤ

unfoldable pub new_server : Config → HttpServer
unfolding get_server_address
new_server cfg = record {
  addr = get_server_address cfg;
  read_timeout = cfg.server.read_timeout;
  write_timeout = cfg.server.write_timeout;
  idle_timeout = cfg.server.idle_timeout;
}

-- The error of `ListenAndServe`: `ErrServerClosed`, or another with its text.
pub data ListenError : Type 0 where
  server_closed : ListenError
  not_listening : Text → ListenError

unfoldable pub start_server : Option ListenError → Option Text
start_server none = none
start_server (some server_closed) = none
start_server (some (not_listening e)) = some (codes "failed to start HTTP server: " ++ e)

unfoldable pub stop_server : Option Text → Option Text
stop_server none = none
stop_server (some e) = some (codes "failed to stop HTTP server: " ++ e)
