-- ===== src/Warm/Copy.antt =====
-- `copy_rows` and `flush` of src/warm.rs: what a COPY that succeeds or fails means for the database.
use hazshield_ingest.Prelude.{
  ℕ, ◌≤◌, arith, ◌≡◌, refl, ◌⊎◌, inl, inr, true, Option, none, some, List, [], ◌∷◌, ◌++◌, length,
  ap, ap₂, Bool-cases, is_empty, ◌∙◌,
}
use hazshield_ingest.Platform.{Platform}
use hazshield_ingest.Types.{StoredReading}
use hazshield_ingest.Warm.Encode.{encode_binary}
use hazshield_ingest.Warm.RoundTrip.{decode-encode_binary}
use hazshield_ingest.Warm.Database.{Postgres}
use hazshield_ingest.Warm.{Writer, copy_rows, settle_flush, flush}

module _ {p : Platform} (g : Postgres) where
  -- A COPY of `rows` out of the state `d`: on success exactly their encoding is committed, and their
  -- number reported; on failure nothing is, or exactly that.
  abbrev pub Copied : g.Db → List (StoredReading p) → Option ℕ × g.Db → Type 0
  Copied d rows (some n, d') =
      (g.committed d' ≡ g.committed d ++ (encode_binary rows ∷ [])) × (n ≡ length rows)
  Copied d rows (none, d') =
      (g.committed d' ≡ g.committed d)
      ⊎ (g.committed d' ≡ g.committed d ++ (encode_binary rows ∷ []))

  Copied-finish :
      (d d3 : g.Db) (rows : List (StoredReading p))
      → g.committed d3 ≡ g.committed d
      → g.pending d3 ≡ encode_binary rows
      → Copied d rows (g.finish d3)
  Copied-finish d d3 rows c s = go (g.finish d3).0 refl
    where
      go : (o : Option ℕ) → (g.finish d3).0 ≡ o → Copied d rows (o, (g.finish d3).1)
      go none e = elim (g.finish_none d3 e) [
        | inl kept ↦ inl (kept ∙ c)
        | inr added ↦ inr (added ∙ ap₂ (λ a b. a ++ (b ∷ [])) c s)
      ]
      go (some n) e =
          let (added, counts) = g.finish_some d3 n e in
          let read = decode-encode_binary rows in
          (added ∙ ap₂ (λ a b. a ++ (b ∷ [])) c s, counts read.0 (rw s read.1) ∙ read.2)

  -- What the four calls of `copy_rows` do together.
  pub copy_rows-Copied :
      (d : g.Db) (rows : List (StoredReading p)) → Copied d rows (copy_rows g d rows)
  unfolding copy_rows
  copy_rows-Copied d rows =
      let d1 = (g.acquire d).1 in
      let d2 = (g.copy_in_raw d1).1 in
      let d3 = (g.send d2 (encode_binary rows)).1 in
      let c1 : g.committed d1 ≡ g.committed d = g.committed-acquire d in
      let c2 : g.committed d2 ≡ g.committed d = g.committed-copy_in_raw d1 ∙ c1 in
      let c3 : g.committed d3 ≡ g.committed d = g.committed-send d2 (encode_binary rows) ∙ c2 in
      elim (Bool-cases (g.acquire d).0) [
        | inr no_conn ↦ rw no_conn (inl c1)
        | inl conn ↦ elim (Bool-cases (g.copy_in_raw d1).0) [
          | inr not_begun ↦ rw (conn, not_begun) (inl c2)
          | inl begun ↦ elim (Bool-cases (g.send d2 (encode_binary rows)).0) [
            | inr not_sent ↦ rw (conn, begun, not_sent) (inl c3)
            | inl sent ↦
                rw (conn, begun, sent)
                  (Copied-finish d d3 rows c3 (
                    g.pending-send d2 (encode_binary rows) sent
                    ∙ ap (λ t. t ++ encode_binary rows) (g.pending-copy_in_raw d1)))
          ]
        ]
      ]

  is_empty-nil : (xs : List (StoredReading p)) → is_empty xs ≡ true → xs ≡ []
  is_empty-nil [] h = refl
  is_empty-nil (x ∷ xs) h = cc

  -- A flush leaves the writer as it is, with nothing buffered, or settles the outcome of a COPY.
  pub flush-cases {ℓ} :
      (P : Writer p g → Type ℓ) (w : Writer p g)
      → (w.buf ≡ [] → P w)
      → ((out : Option ℕ × g.Db) → Copied w.db w.buf out → P (settle_flush g w out))
      → P (flush g w)
  unfolding flush
  flush-cases P w nothing some_rows = elim (Bool-cases (is_empty w.buf)) [
    | inl e ↦ rw e (nothing (is_empty-nil w.buf e))
    | inr e ↦ rw e (some_rows (copy_rows g w.db w.buf) (copy_rows-Copied w.db w.buf))
  ]

module _ {p : Platform} (g : Postgres) where
  -- A flush leaves nothing in the buffer, or fails and sets a backoff.
  abbrev pub NothingLeft : Writer p g → Type 0
  NothingLeft w = (w.buf ≡ []) ⊎ (250 ≤ w.backoff_ms)

  settle_flush-NothingLeft :
      (w : Writer p g) (out : Option ℕ × g.Db) → NothingLeft (settle_flush g w out)
  unfolding settle_flush
  settle_flush-NothingLeft w (some n, db) = inl refl
  settle_flush-NothingLeft w (none, db) = inr (ground arith)

  pub flush-NothingLeft : (w : Writer p g) → NothingLeft (flush g w)
  flush-NothingLeft w =
      flush-cases g NothingLeft w (λ nothing. inl nothing) (λ out c. settle_flush-NothingLeft w out)
