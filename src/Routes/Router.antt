-- ===== src/Routes/Router.antt =====
-- `router` of src/routes.rs: which handler answers at which path. axum's router is a parameter.
pub mod Table
mod Tests
use Prim.Native.String.{String}
use text.Mathlib.Text.{◌==◌}
use hazshield_ingest.Prelude.{◌≡◌, Bool, true, false, Option, none, some, if◌then◌else◌}

pub data Handler : Type 0 where
  healthz ingest_batch metrics readyz version uptime : Handler

pub data Method : Type 0 where
  get head post : Method
  other : String → Method

-- axum: routers by method, a router by path, and the handler that answers a request, if any does.
pub record Axum : Type 1 where
  pub Router : Type 0
  pub MethodRouter : Type 0
  pub get : Handler → MethodRouter
  pub post : Handler → MethodRouter
  pub new : Router
  pub route : String → MethodRouter → Router → Router
  pub chosen : MethodRouter → Method → Option Handler
  pub answering : Router → Method → String → Option Handler

abbrev pub reads : Method → Bool
reads get = true
reads head = true
reads _ = false

abbrev pub posts : Method → Bool
posts post = true
posts _ = false

-- What axum documents: `get` also answers HEAD, and a path that is not yet routed can be routed, which
-- changes nothing about the other paths.
pub record Documented (x : Axum) : Type 0 where
  pub chosen-get :
      (h : Handler) (m : Method) → x.chosen (x.get h) m ≡ (if reads m then some h else none)
  pub chosen-post :
      (h : Handler) (m : Method) → x.chosen (x.post h) m ≡ (if posts m then some h else none)
  pub answering-new : (m : Method) (path : String) → x.answering x.new m path ≡ none
  pub answering-route :
      (path : String) (by : x.MethodRouter) (r : x.Router)
      → ((m : Method) → x.answering r m path ≡ none)
      → (m : Method) (asked : String)
      → x.answering (x.route path by r) m asked
        ≡ (if asked == path then x.chosen by m else x.answering r m asked)

pub router : (x : Axum) → x.Router
router x = x.route "/uptime" (x.get uptime) (
    x.route "/version" (x.get version) (
      x.route "/readyz" (x.get readyz) (
        x.route "/metrics" (x.get metrics)
          (x.route "/ingest" (x.post ingest_batch) (x.route "/healthz" (x.get healthz) x.new)))))
