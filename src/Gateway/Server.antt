-- ===== src/Gateway/Server.antt =====
-- internal/gateway/server.go: the server, its two paths, and what `Start` comes to.
use x402_k8s_operator.Base.{ℕ, Option, none, some, List, ◌++◌, Str, str, ◌==◌, if◌then◌else◌}
use x402_k8s_operator.Routestore.{CompiledRoute}
use x402_k8s_operator.Gateway.Request.{Request}
use x402_k8s_operator.Gateway.Handler.{Env, Served, serve_http}

-- The settings of the `http.Server`; the times are in seconds.
pub record Server : Type 0 where
  pub addr : Str
  pub read_timeout : ℕ
  pub write_timeout : ℕ
  pub idle_timeout : ℕ

-- `NewServer`, as far as it sets the server up.
abbrev pub new_server : Str → Server
new_server addr = record { addr = addr; read_timeout = 15; write_timeout = 30; idle_timeout = 60 }

-- What the server answers: a redirect of the mux, the health check, or what the handler makes.
pub data Answer : Type 0 where
  moved : (location : Str) → Answer
  healthy : (body : Str) → Answer
  handled : Served → Answer

-- The redirect of `http.ServeMux` from a path that is not clean, if it makes one.
abbrev pub Redirect : Type 0
Redirect = Request → Option Str

-- The mux of `NewServer`: `/healthz`, and the handler for every other path.
unfoldable pub serve_mux : Redirect → Env → Request → List CompiledRoute → Answer
unfolding serve_http ◌==◌
serve_mux redirect env r routes = elim (redirect r) [
  | some location ↦ moved location
  | none ↦
      if r.url_path == str "/healthz" then healthy (str "ok") else handled (serve_http env r routes)
]

-- How `ListenAndServe` returns: without an error, with `http.ErrServerClosed`, or with another.
pub data Listened : Type 0 where
  stopped server_closed : Listened
  listen_failed : Str → Listened

-- `Start`, by the end of `ListenAndServe`: the error that it returns, if any. The shutdown behind the
-- end of the context is only logged.
unfoldable pub start : Listened → Option Str
start stopped = none
start server_closed = none
start (listen_failed e) = some (str "gateway server failed: " ++ e)
