-- ===== src/Routes/Router/Tests.antt =====
-- The routes of a router that is a list of paths, newest first.
use Prim.Native.String.{String}
use text.Mathlib.Text.{◌==◌}
use hazshield_ingest.Prelude.{
  ◌≡◌, ◌↔◌, refl, true, Option, none, some, List, [], ◌∷◌, if◌then◌else◌,
}
use hazshield_ingest.Routes.Router.{
  Handler, readyz, Method, head, Axum, Documented, reads, posts, router,
}
use hazshield_ingest.Routes.Router.Table.{path_of, answers, router-answering}

abbrev first : List (String × (Method → Option Handler)) → Method → String → Option Handler
first [] m asked = none
first ((path, by) ∷ rest) m asked = if asked == path then by m else first rest m asked

abbrev paths : Axum
paths = record {
  Router = List (String × (Method → Option Handler));
  MethodRouter = Method → Option Handler;
  get = λ h m. if reads m then some h else none;
  post = λ h m. if posts m then some h else none;
  new = [];
  route = λ path by r. (path, by) ∷ r;
  chosen = λ by m. by m;
  answering = first;
}

paths-Documented : Documented paths
paths-Documented = record {
  chosen-get = λ h m. refl;
  chosen-post = λ h m. refl;
  answering-new = λ m path. refl;
  answering-route = λ path by r fresh m asked. refl;
}

router-answering_example :
    (first (router paths) head "/readyz" ≡ some readyz)
    ↔ (("/readyz" ≡ path_of readyz) × (answers readyz head ≡ true))
router-answering_example = router-answering paths-Documented head "/readyz" readyz
