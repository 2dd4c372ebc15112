-- ===== src/System/Snapshots/Isolation.antt =====
-- Each handler of src/ingest.rs judges its batch by one snapshot of src/registry.rs: the newest when it
-- started, whatever reloads and other handlers come between.
use hazshield_ingest.Prelude.{
  ℕ, ◌≡◌, ◌≢◌, refl, sym, ap, ap₂, subst, ◌∙◌, inl, inr, List, [], ◌∷◌, ◌++◌, map, length,
  length-map, collect_some, to_list, Option, lookup, ◌==◌, ==_iff, Bool-cases, if◌then◌else◌,
}
use hazshield_ingest.Platform.{Platform}
use hazshield_ingest.Types.{Uuid, Violation, Reading}
use hazshield_ingest.Lane.Receiver.{Receiver}
use hazshield_ingest.Registry.{SensorMeta, Fetch}
use hazshield_ingest.Registry.Reload.{newest, sensors-reload}
use hazshield_ingest.Ingest.Gateway.{Services, IngestSummary, AppState}
use hazshield_ingest.Ingest.Delivery.{judged, violation_in}
use hazshield_ingest.Ingest.Counts.{Counted}
use hazshield_ingest.Warm.Database.{Postgres}
use hazshield_ingest.Hot.External.{Redis, Disk}
use hazshield_ingest.System
use hazshield_ingest.System.{System, Action, put, run}
use hazshield_ingest.System.Summaries.{own, violation_by, IsUnderway, put_ne, Counted-run}
use hazshield_ingest.System.Handlers.{put_self, run-append}
use hazshield_ingest.System.Snapshots
use hazshield_ingest.System.Snapshots.{Input, Live, act, live}

module _ {p : Platform} where
  abbrev pub fetches_in : List (Input p) → List (Fetch p)
  fetches_in [] = []
  fetches_in (Snapshots.reloaded fetch ∷ us) = fetch ∷ fetches_in us
  fetches_in (_ ∷ us) = fetches_in us

  -- The readings that handler `i` judges.
  abbrev pub readings_of : ℕ → List (Input p) → List (Reading p)
  readings_of i [] = []
  readings_of i (Snapshots.read j now r ∷ us) = (if j == i then r ∷ [] else []) ++ readings_of i us
  readings_of i (_ ∷ us) = readings_of i us

  -- Handler `i` does not start again.
  abbrev pub StaysIn : ℕ → List (Input p) → Type 0
  StaysIn i [] = Unit {0}
  StaysIn i (Snapshots.arrived j ∷ us) = (j ≢ i) × StaysIn i us
  StaysIn i (_ ∷ us) = StaysIn i us

  -- The violation that a reading is by these sensors.
  abbrev pub violation_among : List (Uuid × SensorMeta p) → Reading p → Option (Violation p)
  violation_among sensors r = judged r (lookup r.sensor_id sensors)

  Counted-same :
      {m n : ℕ} {ws vs : List (Violation p)} {a b c : IngestSummary}
      → m ≡ n
      → ws ≡ vs
      → c ≡ b
      → Counted m ws a b
      → Counted n vs a c
  Counted-same {n = n} {ws = ws} {a = a} {b = b} {c = c} same_count same_list same_end h =
      subst (λ t. Counted n t a c) same_list
        (subst (λ t. Counted n ws a t) (sym same_end) (subst (λ t. Counted t ws a b) same_count h))

  with_state : AppState p → List (Reading p) → List (AppState p × Reading p)
  with_state a rs = map (λ r. (a, r)) rs

  violations-with_state :
      (a : AppState p) (rs : List (Reading p))
      → collect_some violation_by (with_state a rs) ≡ collect_some (violation_in a.registry) rs
  unfolding with_state
  violations-with_state a [] = refl
  violations-with_state a (r ∷ rs) =
      ap (λ t. to_list (violation_in a.registry r) ++ t) (violations-with_state a rs)

module _ {p : Platform} {e : Services p} {g : Postgres} {x : Redis} {k : Disk}
    (hot_rx : Receiver e.hot) (warm_rx : Receiver e.warm) (to_json : Violation p → List ℕ) where
  -- The system's action, with the state that the handler has loaded; a reload is none of them.
  abbrev action : Live e g x k → Input p → List (Action p)
  action l (Snapshots.arrived i) = System.started i l.state ∷ []
  action l (Snapshots.read i now r) = System.judged i (l.loaded i) now r ∷ []
  action l (Snapshots.answered i) = System.published i ∷ []
  action l Snapshots.refused = System.refused ∷ []
  action l (Snapshots.reloaded fetch) = []
  action l Snapshots.dispatched = System.dispatched ∷ []
  action l Snapshots.probed = System.probed ∷ []
  action l Snapshots.written = System.written ∷ []
  action l Snapshots.ticked = System.ticked ∷ []

  abbrev actions : Live e g x k → List (Input p) → List (Action p)
  actions l [] = []
  actions l (u ∷ us) = action l u ++ actions (act hot_rx warm_rx to_json l u) us

  system-act :
      (l : Live e g x k) (u : Input p)
      → (act hot_rx warm_rx to_json l u).system ≡ run hot_rx warm_rx to_json l.system (action l u)
  unfolding act run
  system-act l (Snapshots.arrived i) = refl
  system-act l (Snapshots.read i now r) = refl
  system-act l (Snapshots.answered i) = refl
  system-act l Snapshots.refused = refl
  system-act l (Snapshots.reloaded fetch) = refl
  system-act l Snapshots.dispatched = refl
  system-act l Snapshots.probed = refl
  system-act l Snapshots.written = refl
  system-act l Snapshots.ticked = refl

  system-live :
      (us : List (Input p)) (l : Live e g x k)
      → (live hot_rx warm_rx to_json l us).system
        ≡ run hot_rx warm_rx to_json l.system (actions l us)
  unfolding live run
  system-live [] l = refl
  system-live (u ∷ us) l =
      let l1 = act hot_rx warm_rx to_json l u in
      system-live us l1
      ∙ ap (λ s. run hot_rx warm_rx to_json s (actions l1 us)) (system-act l u)
      ∙ sym (run-append hot_rx warm_rx to_json (action l u) (actions l1 us) l.system)

  StaysIn-actions :
      (i : ℕ) (us : List (Input p)) (l : Live e g x k) → StaysIn i us → IsUnderway i (actions l us)
  StaysIn-actions i [] l h = tt
  StaysIn-actions i (Snapshots.arrived j ∷ us) l h = (h.0, StaysIn-actions i us _ h.1)
  StaysIn-actions i (Snapshots.read j now r ∷ us) l h = StaysIn-actions i us _ h
  StaysIn-actions i (Snapshots.answered j ∷ us) l h = StaysIn-actions i us _ h
  StaysIn-actions i (Snapshots.refused ∷ us) l h = StaysIn-actions i us _ h
  StaysIn-actions i (Snapshots.reloaded fetch ∷ us) l h = StaysIn-actions i us _ h
  StaysIn-actions i (Snapshots.dispatched ∷ us) l h = StaysIn-actions i us _ h
  StaysIn-actions i (Snapshots.probed ∷ us) l h = StaysIn-actions i us _ h
  StaysIn-actions i (Snapshots.written ∷ us) l h = StaysIn-actions i us _ h
  StaysIn-actions i (Snapshots.ticked ∷ us) l h = StaysIn-actions i us _ h

  -- A handler keeps the state that it has loaded.
  own-actions :
      (i : ℕ) (a : AppState p) (us : List (Input p)) (l : Live e g x k)
      → StaysIn i us
      → l.loaded i ≡ a
      → own i (actions l us) ≡ with_state a (readings_of i us)
  unfolding act with_state
  own-actions i a [] l h same = refl
  own-actions i a (Snapshots.arrived j ∷ us) l h same =
      own-actions i a us _ h.1 (put_ne i j l.state l.loaded h.0 ∙ same)
  own-actions i a (Snapshots.read j now r ∷ us) l h same = elim (Bool-cases (j == i)) [
    | inl mine ↦
        let loads : l.loaded j ≡ a = ap l.loaded ((==_iff j i).0 mine) ∙ same in
        rw mine (ap₂ (λ b t. (b, r) ∷ t) loads (own-actions i a us _ h same))
    | inr other ↦ rw other (own-actions i a us _ h same)
  ]
  own-actions i a (Snapshots.answered j ∷ us) l h same = own-actions i a us _ h same
  own-actions i a (Snapshots.refused ∷ us) l h same = own-actions i a us _ h same
  own-actions i a (Snapshots.reloaded fetch ∷ us) l h same = own-actions i a us _ h same
  own-actions i a (Snapshots.dispatched ∷ us) l h same = own-actions i a us _ h same
  own-actions i a (Snapshots.probed ∷ us) l h same = own-actions i a us _ h same
  own-actions i a (Snapshots.written ∷ us) l h same = own-actions i a us _ h same
  own-actions i a (Snapshots.ticked ∷ us) l h same = own-actions i a us _ h same

  sensors-live :
      (us : List (Input p)) (l : Live e g x k)
      → (live hot_rx warm_rx to_json l us).state.registry.sensors
        ≡ newest l.state.registry.sensors (fetches_in us)
  unfolding live act
  sensors-live [] l = refl
  sensors-live (Snapshots.reloaded fetch ∷ us) l =
      sensors-live us _ ∙ sensors-reload l.state.registry fetch (fetches_in us)
  sensors-live (Snapshots.arrived j ∷ us) l = sensors-live us _
  sensors-live (Snapshots.read j now r ∷ us) l = sensors-live us _
  sensors-live (Snapshots.answered j ∷ us) l = sensors-live us _
  sensors-live (Snapshots.refused ∷ us) l = sensors-live us _
  sensors-live (Snapshots.dispatched ∷ us) l = sensors-live us _
  sensors-live (Snapshots.probed ∷ us) l = sensors-live us _
  sensors-live (Snapshots.written ∷ us) l = sensors-live us _
  sensors-live (Snapshots.ticked ∷ us) l = sensors-live us _

  -- After any inputs `us` a handler starts, and any inputs `vs` follow in which it does not start
  -- again. Then its summary counts exactly the readings that it judges itself, each once, with the
  -- violations by the sensors of the last load that succeeded among `us`: reloads, other handlers and
  -- tasks in `vs` make no difference.
  pub live_isolated :
      (us vs : List (Input p)) (l : Live e g x k) (i : ℕ)
      → StaysIn i vs
      → let started =
          act hot_rx warm_rx to_json (live hot_rx warm_rx to_json l us) (Snapshots.arrived i) in
        let sensors = newest l.state.registry.sensors (fetches_in us) in
        Counted
          (length (readings_of i vs))
          (collect_some (violation_among sensors) (readings_of i vs))
          (started.system.sums i)
          ((live hot_rx warm_rx to_json started vs).system.sums i)
  unfolding act with_state
  live_isolated us vs l i h =
      let l0 = live hot_rx warm_rx to_json l us in
      let l1 = act hot_rx warm_rx to_json l0 (Snapshots.arrived i) in
      let rs = readings_of i vs in
      let mine : own i (actions l1 vs) ≡ with_state l0.state rs =
        own-actions i l0.state vs l1 h (put_self i l0.state l0.loaded) in
      let judged_by : collect_some violation_by (own i (actions l1 vs))
          ≡ collect_some (violation_among (newest l.state.registry.sensors (fetches_in us))) rs =
        ap (collect_some violation_by) mine
        ∙ violations-with_state l0.state rs
        ∙ ap (λ sensors. collect_some (violation_among sensors) rs) (sensors-live us l) in
      Counted-same (ap length mine ∙ length-map (λ (r : Reading p). (l0.state, r)) rs) judged_by
        (ap (λ s. s.sums i) (system-live vs l1))
        (Counted-run hot_rx warm_rx to_json i (actions l1 vs) l1.system (StaysIn-actions i vs l1 h))
