-- ===== src/Routes/Readiness.antt =====
-- Readiness by src/routes.rs after any history of reloads by src/registry.rs.
use hazshield_ingest.Prelude.{
  ℕ, ◌+◌, ◌<◌, ◌^◌, ◌≡◌, ◌↔◌, refl, ◌∙◌, ap, Bool, true, false, ◌&&◌, not, none, some, List, [],
  ◌∷◌, is_empty, arith, if◌then◌else◌,
}
use hazshield_ingest.Platform.{Platform}
use hazshield_ingest.Types.{Uuid}
use hazshield_ingest.Registry.{SensorMeta, Registry, Fetch, Session, collect, run_listener}
use hazshield_ingest.Registry.Snapshot.{is_empty-collect}
use hazshield_ingest.Registry.Reload.{all_fetches, newest, succeeded, run_listener_lem}
use hazshield_ingest.Routes.{readyz}

abbrev code : Bool → ℕ
code ready = if ready then 200 else 503

answered : (db_ok found : Bool) → (code (db_ok && found) ≡ 200) ↔ ((db_ok ≡ true) × (found ≡ true))
answered true true = ((λ _. (refl, refl)), λ _. refl)
answered true false = ((λ h. absurd (omega arith)), λ h. cc)
answered false found = ((λ h. absurd (omega arith)), λ h. cc)

module _ {p : Platform} where
  -- Whether the last load that succeeded found a sensor; `old` if none did.
  abbrev pub found_any : Bool → List (Fetch p) → Bool
  found_any old [] = old
  found_any old (none ∷ rest) = found_any old rest
  found_any old (some rows ∷ rest) = found_any (not (is_empty rows)) rest

  not_empty-newest :
      (old : List (Uuid × SensorMeta p)) (fetches : List (Fetch p))
      → not (is_empty (newest old fetches)) ≡ found_any (not (is_empty old)) fetches
  not_empty-newest old [] = refl
  not_empty-newest old (none ∷ rest) = not_empty-newest old rest
  not_empty-newest old (some rows ∷ rest) =
      not_empty-newest (collect rows []) rest
      ∙ ap (λ b. found_any b rest) (rw (is_empty-collect rows []) (ground arith))

  -- The gateway says that it is ready exactly when the database answers and the last load of the
  -- registry that succeeded, the first one included, found at least one sensor; it then counts the
  -- loads that succeeded.
  pub readyz-run_listener :
      (reg : Registry p) (history : List (Session p × Fetch p)) (db_ok : Bool)
      → reg.generation + succeeded (all_fetches history) < 2 ^ 64
      → let answer = readyz (run_listener reg history) db_ok in
        ((answer.0 ≡ 200) ↔ (
          (db_ok ≡ true) × (found_any (not (is_empty reg.sensors)) (all_fetches history) ≡ true)))
        × (answer.1.registry_generation ≡ reg.generation + succeeded (all_fetches history))
  unfolding readyz
  readyz-run_listener reg history db_ok h =
      let sensors =
        ap (λ r. not (is_empty r.sensors)) (run_listener_lem reg history h)
        ∙ not_empty-newest reg.sensors (all_fetches history) in
      (rw sensors (answered db_ok _), ap (λ r. r.generation) (run_listener_lem reg history h))
