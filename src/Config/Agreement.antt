-- ===== src/Config/Agreement.antt =====
-- What `Config::load` of src/config.rs reads, said of the environment itself.
use Prim.Native.String.{String}
use hazshield_ingest.Prelude.{ℕ, ◌≡◌, ◌↔◌, refl, sym, ap, Option, none, some, arith, ◌⊎◌, inl, inr}
use hazshield_ingest.Config.{Config, text_or, number_or, deserialize, load}

-- A text that is set, or the default `d` of one that is not.
abbrev pub IsText : Option String → String → String → Type 0
IsText set d c = (set ≡ some c) ⊎ (set ≡ none) × (c ≡ d)

-- A number that is set to a text that parses, or the default `d` of one that is not set.
abbrev pub IsNumeral : (String → Option ℕ) → Option String → ℕ → ℕ → Type 0
IsNumeral parse set d n =
    ((text : String) × (set ≡ some text) × (parse text ≡ some n)) ⊎ (set ≡ none) × (n ≡ d)

-- A configuration that says what the environment says, by the variables' names.
pub record Agrees (parse : String → Option ℕ) (var : String → Option String) (c : Config)
    : Type 0 where
  pub bind : IsText (var "bind_addr") "127.0.0.1:8020" c.bind_addr
  pub database : var "database_url" ≡ some c.database_url
  pub redis : var "redis_url" ≡ some c.redis_url
  pub capacity : IsNumeral parse (var "warm_channel_capacity") 50000 c.warm_channel_capacity
  pub batch : IsNumeral parse (var "max_batch_size") 2000 c.max_batch_size
  pub spool : IsText (var "spool_dir") "/opt/hazshield-ingest/spool" c.spool_dir

text_or-IsText : (set : Option String) (d c : String) → (text_or d set ≡ c) ↔ IsText set d c
text_or-IsText none d c =
    (λ h. inr (refl, sym h), λ h. elim h [ inl e ↦ absurd cc | inr (_, e) ↦ sym e ])
text_or-IsText (some t) d c =
    (λ h. inl (ap some h), λ h. elim h [ inl e ↦ cc | inr (e, _) ↦ absurd cc ])

number_or-IsNumeral :
    (parse : String → Option ℕ) (set : Option String) (d n : ℕ)
    → (number_or parse d set ≡ some n) ↔ IsNumeral parse set d n
number_or-IsNumeral parse none d n =
    (λ h. inr (refl, cc), λ h. elim h [ inl (_, e, _) ↦ absurd cc | inr (_, e) ↦ ap some (sym e) ])
number_or-IsNumeral parse (some t) d n =
    (λ h. inl (t, refl, h), λ h. elim h [ inl (t', e, k) ↦ cc | inr (e, _) ↦ absurd cc ])

-- What the fields of the struct are given.
record Fields (bind : String) (d r : Option String) (w b : Option ℕ) (spool : String) (c : Config)
    : Type 0 where
  pub bind_is : bind ≡ c.bind_addr
  pub database_is : d ≡ some c.database_url
  pub redis_is : r ≡ some c.redis_url
  pub capacity_is : w ≡ some c.warm_channel_capacity
  pub batch_is : b ≡ some c.max_batch_size
  pub spool_is : spool ≡ c.spool_dir

deserialize-Fields :
    (bind : String) (d r : Option String) (w b : Option ℕ) (spool : String) (c : Config)
    → (deserialize bind d r w b spool ≡ some c) ↔ Fields bind d r w b spool c
unfolding deserialize
deserialize-Fields bind none r w b spool c = (λ h. cc, λ a. let q = a.database_is in cc)
deserialize-Fields bind (some d) none w b spool c = (λ h. cc, λ a. let q = a.redis_is in cc)
deserialize-Fields bind (some d) (some r) none b spool c =
    (λ h. cc, λ a. let q = a.capacity_is in cc)
deserialize-Fields bind (some d) (some r) (some w) none spool c =
    (λ h. cc, λ a. let q = a.batch_is in cc)
deserialize-Fields bind (some d) (some r) (some w) (some b) spool c =
    (λ h. ground (arith, h), λ a. ground arith)

module _ (parse_usize : String → Option ℕ) (var : String → Option String) where
  -- A configuration is loaded exactly when it says what the environment says: the two URLs are set,
  -- the numbers parse where they are set, and a field that is not set is 127.0.0.1:8020, 50000, 2000
  -- or /opt/hazshield-ingest/spool.
  pub load-Agrees : (c : Config) → (load parse_usize var ≡ some c) ↔ Agrees parse_usize var c
  unfolding load
  load-Agrees c =
      let fields = deserialize-Fields _ _ _ _ _ _ c in
      (
        λ h.
            let f = fields.0 h in
            record {
              bind = (text_or-IsText (var "bind_addr") _ _).0 f.bind_is;
              database = f.database_is;
              redis = f.redis_is;
              capacity =
                  (number_or-IsNumeral parse_usize (var "warm_channel_capacity") _ _).0
                    f.capacity_is;
              batch = (number_or-IsNumeral parse_usize (var "max_batch_size") _ _).0 f.batch_is;
              spool = (text_or-IsText (var "spool_dir") _ _).0 f.spool_is;
            },
        λ a. fields.1 (record {
          bind_is = (text_or-IsText (var "bind_addr") _ _).1 a.bind;
          database_is = a.database;
          redis_is = a.redis;
          capacity_is =
              (number_or-IsNumeral parse_usize (var "warm_channel_capacity") _ _).1 a.capacity;
          batch_is = (number_or-IsNumeral parse_usize (var "max_batch_size") _ _).1 a.batch;
          spool_is = (text_or-IsText (var "spool_dir") _ _).1 a.spool;
        }),
      )
