-- ===== src/Startup/Stages.antt =====
-- When src/main.rs serves requests, and what it has started when it does not.
use mathlib.Core.Option.{some-injective, none-ne-some}
use hazshield_ingest.Prelude.{
  ◌≤◌, ◌≡◌, ◌↔◌, refl, ◌∙◌, sym, ap, ◌⊎◌, inl, inr, true, Option, none, some, List, [], arith,
  Bool-cases,
}
use hazshield_ingest.Platform.{Platform}
use hazshield_ingest.Config.{Config}
use hazshield_ingest.Registry.{Registry, Row, Fetch, collect, load}
use hazshield_ingest.Registry.Snapshot.{load-cases}
use hazshield_ingest.Ingest.Gateway.{AppState}
use hazshield_ingest.Startup.{Outside, run, start_tasks, bind_address, serve_requests, app_state_of}

module _ {p : Platform} where
  abbrev pub first_registry : List (Row p) → Registry p
  first_registry rows = record { sensors = collect rows []; generation = 1 }

  -- Every stage before the serving of requests succeeded, and the handlers' state is what they gave.
  pub record IsReady (o : Outside p) (loaded : Option Config) (state : AppState p) : Type 0 where
    pub cfg : Config
    pub rows : List (Row p)
    pub configured : loaded ≡ some cfg
    pub connected : o.connect cfg.database_url ≡ true
    pub fetched : o.fetch ≡ some rows
    pub roomy : 1 ≤ cfg.warm_channel_capacity
    pub allowed : cfg.warm_channel_capacity ≤ o.max_permits
    pub hot_allowed : 10000 ≤ o.max_permits
    pub bound : o.bind cfg.bind_addr ≡ true
    pub state_is : state ≡ app_state_of cfg (first_registry rows)

  start_tasks-served :
      (o : Outside p) (cfg : Config) (reg : Registry p) (state : AppState p)
      → ((start_tasks o cfg reg).served ≡ some state) ↔ (
          (1 ≤ cfg.warm_channel_capacity)
          × (cfg.warm_channel_capacity ≤ o.max_permits)
          × (10000 ≤ o.max_permits)
          × (o.bind cfg.bind_addr ≡ true)
          × (state ≡ app_state_of cfg reg))
  unfolding start_tasks bind_address serve_requests
  start_tasks-served o cfg reg state = (λ h. ground (arith, h), λ h. ground (arith, h))

  pub load-first :
      (fetch : Fetch p) (rows : List (Row p))
      → fetch ≡ some rows
      → load fetch 1 ≡ some (first_registry rows)
  load-first fetch rows h = elim (load-cases fetch 1) [
    | inl (failed, e) ↦ absurd (none-ne-some rows (sym failed ∙ h))
    | inr (rows', found, e) ↦
        e ∙ ap (λ r. some (first_registry r)) (some-injective rows' rows (sym found ∙ h))
  ]

  served-IsReady :
      (o : Outside p) (loaded : Option Config) (state : AppState p)
      → (run o loaded).served ≡ some state
      → IsReady o loaded state
  unfolding run
  served-IsReady o none state h = absurd (none-ne-some state h)
  served-IsReady o (some cfg) state h = elim (Bool-cases (o.connect cfg.database_url)) [
    | inr down ↦ absurd (none-ne-some state (sym (rw down refl) ∙ h))
    | inl up ↦ elim (load-cases o.fetch 1) [
      | inl (failed, e) ↦
          let gone : (run o (some cfg)).served ≡ none = rw (up, e) refl in
          absurd (none-ne-some state (sym gone ∙ h))
      | inr (rows, found, e) ↦
          let same : (run o (some cfg)).served ≡ (start_tasks o cfg (first_registry rows)).served =
            rw (up, e) refl in
          let facts = (start_tasks-served o cfg (first_registry rows) state).0 (sym same ∙ h) in
          record {
            cfg = cfg;
            rows = rows;
            configured = refl;
            connected = up;
            fetched = found;
            roomy = facts.0;
            allowed = facts.1;
            hot_allowed = facts.2;
            bound = facts.3;
            state_is = facts.4;
          }
    ]
  ]

  IsReady-served :
      (o : Outside p) (loaded : Option Config) (state : AppState p)
      → IsReady o loaded state
      → (run o loaded).served ≡ some state
  unfolding run
  IsReady-served o loaded state r =
      rw (r.configured, r.connected, load-first o.fetch r.rows r.fetched)
        ((start_tasks-served o r.cfg (first_registry r.rows) state).1
          (r.roomy, r.allowed, r.hot_allowed, r.bound, r.state_is))

  tasks-fetched :
      (o : Outside p) (loaded : Option Config)
      → ((run o loaded).tasks ≡ []) ⊎ ((rows : List (Row p)) × (o.fetch ≡ some rows))
  unfolding run
  tasks-fetched o none = inl refl
  tasks-fetched o (some cfg) = elim (load-cases o.fetch 1) [
    | inr (rows, found, e) ↦ inr (rows, found)
    | inl (failed, e) ↦ elim (Bool-cases (o.connect cfg.database_url)) [
      | inl up ↦ inl (rw (up, e) refl)
      | inr down ↦ inl (rw down refl)
    ]
  ]

  -- Requests are served exactly when the configuration was loaded, the database connected, the first
  -- load of the registry succeeded, the warm channel has a place, it and the hot channel have no more
  -- than tokio allows, and the address could be bound; then the handlers' state has the rows of that load, as generation 1, and the limits of the
  -- configuration. And no task at all was started unless that load succeeded.
  pub run-IsReady :
      (o : Outside p) (loaded : Option Config)
      → ((state : AppState p) → ((run o loaded).served ≡ some state) ↔ IsReady o loaded state)
        × (((run o loaded).tasks ≡ []) ⊎ ((rows : List (Row p)) × (o.fetch ≡ some rows)))
  run-IsReady o loaded = (
    (λ state. (served-IsReady o loaded state, IsReady-served o loaded state)),
    tasks-fetched o loaded,
  )
