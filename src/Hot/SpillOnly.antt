-- ===== src/Hot/SpillOnly.antt =====
-- `run_spill_only` of src/hot.rs, the dispatcher for a Redis URL that cannot be parsed.
use hazshield_ingest.Prelude.{
  ℕ, ◌+◌, ◌≡◌, refl, ◌∙◌, Bool, true, false, List, [], ◌∷◌, map, length, arith, if◌then◌else◌,
}
use hazshield_ingest.Platform.{Platform}
use hazshield_ingest.Types.{Violation}
use hazshield_ingest.Hot.Spool.{IsLine}
use hazshield_ingest.Hot.External.{Redis, Disk, WritesWhole}
use hazshield_ingest.Hot.Kept.{Holds, Kept, Kept-trans, Kept-still}
use hazshield_ingest.Hot.Delivery.{spill-Kept}
use hazshield_ingest.Hot.{Dispatcher, spill, run_spill_only}

module _ {x : Redis} {k : Disk} where
  -- What spilling leaves alone, and what it counts.
  abbrev pub Spilled : ℕ → Dispatcher x k → Dispatcher x k → Type 0
  Spilled n t t' =
      (t'.server ≡ t.server)
      × (t'.metrics.hot_spilled_total + t'.metrics.hot_lost_total
          ≡ t.metrics.hot_spilled_total + t.metrics.hot_lost_total + n)

  Spilled-if :
      (n : ℕ) (b : Bool) (t u w : Dispatcher x k)
      → Spilled n t u
      → Spilled n t w
      → Spilled n t (if b then u else w)
  Spilled-if n true t u w h g = h
  Spilled-if n false t u w h g = g

  Spilled-spill : (t : Dispatcher x k) (l : List ℕ) → Spilled 1 t (spill t l)
  unfolding spill
  Spilled-spill t l =
      Spilled-if 1 (k.open_append t.disk).0 t _ _ (refl, ground arith) (refl, omega arith)

module _ {x : Redis} {k : Disk} (whole : WritesWhole k) {p : Platform}
    (to_json : Violation p → List ℕ) (printed : (v : Violation p) → IsLine (to_json v)) where
  -- From any state in which the spill file is the text of payload lines, on a disk whose failed
  -- writes leave the file as it was: after spilling any violations Redis is untouched, each
  -- violation is counted once as spilled or lost, the file is the text of payload lines, and if no
  -- loss was counted every violation and every line from before is in the file or was in the stream.
  pub run_spill_only-Kept :
      (vs : List (Violation p)) (ls : List (List ℕ)) (t : Dispatcher x k)
      → Holds ls t
      → Kept ls (map to_json vs) t (run_spill_only to_json t vs)
        × Spilled (length vs) t (run_spill_only to_json t vs)
  unfolding run_spill_only
  run_spill_only-Kept [] ls t h = (Kept-still ls t t h refl refl (λ q w. w), (refl, omega arith))
  run_spill_only-Kept (v ∷ vs) ls t h =
      let t1 = spill t (to_json v) in
      let one = Spilled-spill t (to_json v) in
      let first = spill-Kept whole ls t (to_json v) h (printed v) in
      let more = run_spill_only-Kept vs first.file t1 first.holds in
      (
        Kept-trans t t1 (run_spill_only to_json t1 vs) ls (to_json v ∷ []) (map to_json vs) first
            (λ file held. (run_spill_only-Kept vs file t1 held).0),
        (more.1.0 ∙ one.0, omega (arith, more.1.1, one.1)),
      )
