-- ===== src/Routes/Router/Table.antt =====
-- The paths and methods of `router` in src/routes.rs, as a table.
use Prim.Native.String.{String}
use text.Mathlib.Text.{◌==◌}
use text.Mathlib.TextEquality.{eq_iff}
use hazshield_ingest.Prelude.{
  ◌≡◌, ◌↔◌, refl, sym, ap, ◌∙◌, Bool, true, false, ◌&&◌, not, Option, none, some, List, [], ◌∷◌,
  inl, inr, Bool-cases, if◌then◌else◌, arith, subst,
}
use hazshield_ingest.Routes.Router.{
  Handler, healthz, ingest_batch, metrics, readyz, version, uptime, Method, Axum, Documented, reads,
  posts, router,
}

abbrev pub path_of : Handler → String
path_of healthz = "/healthz"
path_of ingest_batch = "/ingest"
path_of metrics = "/metrics"
path_of readyz = "/readyz"
path_of version = "/version"
path_of uptime = "/uptime"

abbrev pub answers : Handler → Method → Bool
answers ingest_batch m = posts m
answers _ m = reads m

-- The handler in a table for a path.
abbrev find : List Handler → Method → String → Option Handler
find [] m asked = none
find (h ∷ hs) m asked =
    if asked == path_of h then (if answers h m then some h else none) else find hs m asked

abbrev is_free : String → List Handler → Bool
is_free path [] = true
is_free path (h ∷ hs) = not (path == path_of h) && is_free path hs

find-is_free :
    (path : String) (hs : List Handler)
    → is_free path hs ≡ true
    → (m : Method) → find hs m path ≡ none
find-is_free path [] free m = refl
find-is_free path (h ∷ hs) free m = elim (Bool-cases (path == path_of h)) [
  | inl same ↦ ground arith
  | inr differs ↦ rw differs (find-is_free path hs (ground arith) m)
]

if_sound : (b : Bool) (k h : Handler) → (if b then some k else none) ≡ some h → (k ≡ h) × (b ≡ true)
if_sound true k h same = (cc, refl)
if_sound false k h same = absurd cc

module _ {x : Axum} (doc : Documented x) where
  abbrev Shows : x.Router → List Handler → Type 0
  Shows r hs = (m : Method) (asked : String) → x.answering r m asked ≡ find hs m asked

  Shows-route :
      (h : Handler) (by : x.MethodRouter) (r : x.Router) (hs : List Handler)
      → ((m : Method) → x.chosen by m ≡ (if answers h m then some h else none))
      → is_free (path_of h) hs ≡ true
      → Shows r hs
      → Shows (x.route (path_of h) by r) (h ∷ hs)
  Shows-route h by r hs chosen free shows m asked =
      doc.answering-route (path_of h) by r
        (λ n. shows n (path_of h) ∙ find-is_free (path_of h) hs free n) m asked
      ∙ rw (chosen m, shows m asked) refl

  -- The router's table, newest first.
  abbrev table : List Handler
  table = uptime ∷ version ∷ readyz ∷ metrics ∷ ingest_batch ∷ healthz ∷ []

  router-Shows : Shows (router x) table
  unfolding router
  router-Shows =
      Shows-route uptime _ _ (version ∷ readyz ∷ metrics ∷ ingest_batch ∷ healthz ∷ [])
        (doc.chosen-get uptime) refl
        (Shows-route version _ _ (readyz ∷ metrics ∷ ingest_batch ∷ healthz ∷ [])
          (doc.chosen-get version) refl
          (Shows-route readyz _ _ (metrics ∷ ingest_batch ∷ healthz ∷ []) (doc.chosen-get readyz)
            refl
            (Shows-route metrics _ _ (ingest_batch ∷ healthz ∷ []) (doc.chosen-get metrics) refl (
              Shows-route ingest_batch _ _ (healthz ∷ []) (doc.chosen-post ingest_batch) refl
                (Shows-route healthz _ _ [] (doc.chosen-get healthz) refl doc.answering-new)))))

  find_sound :
      (hs : List Handler) (m : Method) (asked : String) (h : Handler)
      → find hs m asked ≡ some h
      → (asked ≡ path_of h) × (answers h m ≡ true)
  find_sound [] m asked h found = absurd cc
  find_sound (k ∷ hs) m asked h found = elim (Bool-cases (asked == path_of k)) [
    | inl same ↦
        let taken : (if answers k m then some k else none) ≡ some h = sym (rw same refl) ∙ found in
        let (is_h, taken_by) = if_sound (answers k m) k h taken in
        (
          (eq_iff asked (path_of k)).0 same ∙ ap path_of is_h,
          subst (λ t. answers t m ≡ true) is_h taken_by,
        )
    | inr differs ↦ find_sound hs m asked h (sym (rw differs refl) ∙ found)
  ]

  find-table :
      (h : Handler) (m : Method) → find table m (path_of h) ≡ (if answers h m then some h else none)
  find-table healthz m = refl
  find-table ingest_batch m = refl
  find-table metrics m = refl
  find-table readyz m = refl
  find-table version m = refl
  find-table uptime m = refl

  -- Exactly six pairs of a path and a kind of request are answered: /ingest by POST alone, and /healthz,
  -- /metrics, /readyz, /version and /uptime by GET and HEAD alone, each by its own handler, with a
  -- router that takes new paths and answers HEAD where it answers GET.
  pub router-answering :
      (m : Method) (asked : String) (h : Handler)
      → (x.answering (router x) m asked ≡ some h) ↔ ((asked ≡ path_of h) × (answers h m ≡ true))
  router-answering m asked h = (
    λ found. find_sound table m asked h (sym (router-Shows m asked) ∙ found),
    λ (path, by). router-Shows m asked ∙ rw (path, find-table h m, by) refl,
  )
