-- ===== src/Hot/Drain.antt =====
-- The end of the task of src/hot.rs: `spawn_dispatcher` on a channel that is closed, as at shutdown.
-- Its `select!` is not biased, so probes may fall between the messages that are left. The directory
-- of the spill file is made before; when that fails, opening the file fails.
use hazshield_ingest.Prelude.{
  ℕ, suc, ◌<◌, ◌≡◌, refl, sym, ap, subst, ◌∙◌, inl, inr, Bool, true, false, Option, none, some,
  List, [], ◌∷◌, map, length, arith, Option-cases,
}
use hazshield_ingest.Platform.{Platform}
use hazshield_ingest.Types.{Violation}
use hazshield_ingest.Metrics.{Metrics}
use hazshield_ingest.Lane.{Lane}
use hazshield_ingest.Lane.Receiver.{Receiver}
use hazshield_ingest.Hot.Spool.{IsLine}
use hazshield_ingest.Hot.External.{Redis, Disk, WritesWhole}
use hazshield_ingest.Hot.Kept.{Holds, Kept}
use hazshield_ingest.Hot.Delivery.{payloads_in, run-Kept}
use hazshield_ingest.Hot.SpillOnly.{run_spill_only-Kept}
use hazshield_ingest.Hot.{Dispatcher, Event, received, probed, spill, step, run, run_spill_only}

-- What a round of the loop is about.
pub data Round : Type 0 where
  recv tick : Round

-- The rounds in which the loop turns to the channel.
abbrev pub recvs : List Round → ℕ
recvs [] = 0
recvs (recv ∷ rs) = suc (recvs rs)
recvs (tick ∷ rs) = recvs rs

abbrev pub unconnected : (x : Redis) (k : Disk) → x.Server → k.State → Metrics → Dispatcher x k
unconnected x k s d m = record { conn = false; server = s; disk = d; metrics = m }

module _ {x : Redis} {k : Disk} {p : Platform} (to_json : Violation p → List ℕ)
    {l : Lane (Violation p)} (rx : Receiver l) where
  -- The loop over these rounds, `none` when it has not ended by then.
  pub dispatch_all : List Round → l.Chan → Dispatcher x k → Option (Dispatcher x k)
  dispatch_all [] c t = none
  dispatch_all (tick ∷ rs) c t = dispatch_all rs c (step to_json t probed)
  dispatch_all (recv ∷ rs) c t = elim (rx.recv c) [
    | none ↦ some t
    | some (v, c') ↦ dispatch_all rs c' (step to_json t (received v))
  ]

  pub spill_all : List Round → l.Chan → Dispatcher x k → Option (Dispatcher x k)
  spill_all [] c t = none
  spill_all (tick ∷ rs) c t = spill_all rs c t
  spill_all (recv ∷ rs) c t = elim (rx.recv c) [
    | none ↦ some t
    | some (v, c') ↦ spill_all rs c' (spill t (to_json v))
  ]

  -- The task, by whether the Redis URL can be parsed.
  pub spawn_dispatcher :
      Bool → List Round → l.Chan → x.Server → k.State → Metrics → Option (Dispatcher x k)
  spawn_dispatcher true rs c s d m = dispatch_all rs c (unconnected x k s d m)
  spawn_dispatcher false rs c s d m = spill_all rs c (unconnected x k s d m)

  -- The loop ends after the messages that are left, as `run` does on them and the probes between.
  dispatch_all-run :
      (rs : List Round) (c : l.Chan) (t : Dispatcher x k)
      → length (rx.pending c) < recvs rs
      → (evs : List (Event p)) × (dispatch_all rs c t ≡ some (run to_json t evs))
        × (payloads_in to_json evs ≡ map to_json (rx.pending c))
  unfolding dispatch_all run
  dispatch_all-run [] c t h = absurd (omega (arith, h))
  dispatch_all-run (tick ∷ rs) c t h =
      let (evs, ends, same) = dispatch_all-run rs c (step to_json t probed) h in
      (probed ∷ evs, ends, same)
  dispatch_all-run (recv ∷ rs) c t h = elim (Option-cases (rx.recv c)) [
    | inl closed ↦
        ([], rw (closed, dispatch_all) refl, ap (map to_json) (sym (rx.recv_none c closed)))
    | inr ((v, c'), takes) ↦
        let left : rx.pending c ≡ v ∷ rx.pending c' = (rx.recv_some c v c' takes).1 in
        let (evs, ends, same) =
          dispatch_all-run rs c' (step to_json t (received v)) (omega (arith, h, ap length left)) in
        (
          received v ∷ evs,
          rw (takes, dispatch_all) ends,
          ap (λ ps. to_json v ∷ ps) same ∙ ap (map to_json) (sym left),
        )
  ]

  spill_all-run :
      (rs : List Round) (c : l.Chan) (t : Dispatcher x k)
      → length (rx.pending c) < recvs rs
      → spill_all rs c t ≡ some (run_spill_only to_json t (rx.pending c))
  unfolding spill_all run_spill_only
  spill_all-run [] c t h = absurd (omega (arith, h))
  spill_all-run (tick ∷ rs) c t h = spill_all-run rs c t h
  spill_all-run (recv ∷ rs) c t h = elim (Option-cases (rx.recv c)) [
    | inl closed ↦ rw (closed, spill_all) (rw (rx.recv_none c closed) refl)
    | inr ((v, c'), takes) ↦
        let left : rx.pending c ≡ v ∷ rx.pending c' = (rx.recv_some c v c' takes).1 in
        rw (takes, spill_all)
          (rw left (spill_all-run rs c' (spill t (to_json v)) (omega (arith, h, ap length left))))
  ]

module _ {x : Redis} {k : Disk} (whole : WritesWhole k) {p : Platform}
    (to_json : Violation p → List ℕ) (printed : (v : Violation p) → IsLine (to_json v))
    {l : Lane (Violation p)} (rx : Receiver l) where
  -- Once the hot channel is closed the task ends when it has turned to the channel once for each
  -- violation left and once more, whatever probes fall between and whatever Redis and the disk
  -- answer. It ends with every violation that was left, every line of the spill file and every entry
  -- of the stream in the stream or in the spill file, unless a loss was counted. This holds with and
  -- without a usable Redis URL, on a disk whose failed writes leave the file as it was.
  pub spawn_dispatcher-Kept :
      (client_ok : Bool) (rs : List Round) (c : l.Chan) (ls : List (List ℕ)) (s : x.Server)
      (d : k.State) (m : Metrics)
      → Holds ls (unconnected x k s d m)
      → length (rx.pending c) < recvs rs
      → (t' : Dispatcher x k) × (spawn_dispatcher to_json rx client_ok rs c s d m ≡ some t')
        × Kept ls (map to_json (rx.pending c)) (unconnected x k s d m) t'
  unfolding spawn_dispatcher
  spawn_dispatcher-Kept true rs c ls s d m h enough =
      let (evs, ends, same) = dispatch_all-run to_json rx rs c (unconnected x k s d m) enough in
      (
        run to_json (unconnected x k s d m) evs,
        ends,
        subst (λ ps. Kept ls ps (unconnected x k s d m) (run to_json (unconnected x k s d m) evs))
            same (run-Kept whole to_json printed evs ls (unconnected x k s d m) h),
      )
  spawn_dispatcher-Kept false rs c ls s d m h enough = (
    run_spill_only to_json (unconnected x k s d m) (rx.pending c),
    spill_all-run to_json rx rs c (unconnected x k s d m) enough,
    (run_spill_only-Kept whole to_json printed (rx.pending c) ls (unconnected x k s d m) h).0,
  )
