-- ===== src/Registry/Reload.antt =====
-- The listener of src/registry.rs: any history of messages, failed connections and failed loads
-- leaves the snapshot of the last load that succeeded.
use hazshield_ingest.Prelude.{
  ℕ, suc, ◌+◌, ◌^◌, ◌<◌, ◌≡◌, refl, none, some, List, [], ◌∷◌, ◌++◌, arith, ◌∙◌, ap, sym,
}
use hazshield_ingest.Platform.{Platform}
use hazshield_ingest.Types.{Uuid}
use hazshield_ingest.Registry.{
  Row, Registry, SensorMeta, Fetch, Session, not_subscribed, messages, collect, load, reload,
  reload_each, listen, run_listener,
}

module _ {p : Platform} where
  abbrev pub fetches_of : Session p → List (Fetch p)
  fetches_of not_subscribed = []
  fetches_of (messages fetches) = fetches

  -- All the loads that a history asks for, in order.
  abbrev pub all_fetches : List (Session p × Fetch p) → List (Fetch p)
  all_fetches [] = []
  all_fetches ((session, fetch) ∷ rest) = fetches_of session ++ (fetch ∷ all_fetches rest)

  abbrev pub succeeded : List (Fetch p) → ℕ
  succeeded [] = 0
  succeeded (none ∷ rest) = succeeded rest
  succeeded (some rows ∷ rest) = suc (succeeded rest)

  -- The sensors of the last load that succeeded, or those before.
  abbrev pub newest : List (Uuid × SensorMeta p) → List (Fetch p) → List (Uuid × SensorMeta p)
  newest old [] = old
  newest old (none ∷ rest) = newest old rest
  newest old (some rows ∷ rest) = newest (collect rows []) rest

  reload_each-append :
      (reg : Registry p) (xs ys : List (Fetch p))
      → reload_each reg (xs ++ ys) ≡ reload_each (reload_each reg xs) ys
  unfolding reload_each
  reload_each-append reg [] ys = refl
  reload_each-append reg (x ∷ xs) ys = reload_each-append (reload reg x) xs ys

  listen_lem : (reg : Registry p) (s : Session p) → listen reg s ≡ reload_each reg (fetches_of s)
  unfolding listen reload_each
  listen_lem reg not_subscribed = refl
  listen_lem reg (messages fetches) = refl

  run_listener-reload_each :
      (reg : Registry p) (history : List (Session p × Fetch p))
      → run_listener reg history ≡ reload_each reg (all_fetches history)
  unfolding run_listener reload_each
  run_listener-reload_each reg [] = refl
  run_listener-reload_each reg ((session, fetch) ∷ rest) =
      run_listener-reload_each (reload (listen reg session) fetch) rest
      ∙ ap (λ r. reload_each (reload r fetch) (all_fetches rest)) (listen_lem reg session)
      ∙ sym (reload_each-append reg (fetches_of session) (fetch ∷ all_fetches rest))

  -- A reload that fails leaves the sensors alone.
  pub sensors-reload :
      (reg : Registry p) (fetch : Fetch p) (rest : List (Fetch p))
      → newest (reload reg fetch).sensors rest ≡ newest reg.sensors (fetch ∷ rest)
  unfolding reload load
  sensors-reload reg none rest = refl
  sensors-reload reg (some rows) rest = refl

  reload_each_lem :
      (reg : Registry p) (fetches : List (Fetch p))
      → reg.generation + succeeded fetches < 2 ^ 64
      → reload_each reg fetches ≡ record {
        sensors = newest reg.sensors fetches;
        generation = reg.generation + succeeded fetches;
      }
  unfolding reload_each reload load
  reload_each_lem reg [] h = ground arith
  reload_each_lem reg (none ∷ rest) h = reload_each_lem reg rest h
  reload_each_lem reg (some rows ∷ rest) h =
      reload_each_lem (reload reg (some rows)) rest (omega arith) ∙ ground arith

  -- After any history the registry holds the sensors of the last load that succeeded (the initial
  -- ones if none did), and its generation counts the loads that succeeded, below the wrap of u64.
  pub run_listener_lem :
      (reg : Registry p) (history : List (Session p × Fetch p))
      → reg.generation + succeeded (all_fetches history) < 2 ^ 64
      → run_listener reg history ≡ record {
        sensors = newest reg.sensors (all_fetches history);
        generation = reg.generation + succeeded (all_fetches history);
      }
  run_listener_lem reg history h =
      run_listener-reload_each reg history ∙ reload_each_lem reg (all_fetches history) h

  run_listener-append :
      (reg : Registry p) (xs ys : List (Session p × Fetch p))
      → run_listener reg (xs ++ ys) ≡ run_listener (run_listener reg xs) ys
  unfolding run_listener
  run_listener-append reg [] ys = refl
  run_listener-append reg ((s, f) ∷ xs) ys = run_listener-append (reload (listen reg s) f) xs ys

  -- A message lost while there was no subscription does no lasting harm: once a session has ended,
  -- a load that succeeds brings the database's rows, whatever was heard before.
  reconnect_refreshes :
      (reg : Registry p) (history : List (Session p × Fetch p)) (session : Session p)
      (rows : List (Row p))
      → (run_listener reg (history ++ ((session, some rows) ∷ []))).sensors ≡ collect rows []
  unfolding run_listener reload load
  reconnect_refreshes reg history session rows =
      ap (λ r. r.sensors) (run_listener-append reg history ((session, some rows) ∷ []))
