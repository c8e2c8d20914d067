-- ===== src/Flowruntime/Cycle.antt =====
-- source_executor.go: the loop over the messages of one source. A Go loop without a bound is a loop
-- on fuel, which answers `none` when the fuel runs out; the timeout of a cycle shows only as an
-- error of a call.
pub mod Rounds
use mime_crypt.Base.{
  ℕ, zero, suc, ◌+◌, ◌≤◌, ◌<◌, Option, none, some, ◌≡◌, refl, arith, if◌then◌else◌,
}
use mathlib.Core.Path.{subst}
use mime_crypt.Base.Effect.{ok, err}
use mime_crypt.Mailflow.Types.{RunResult}
use mime_crypt.Mailflow.Errors.{Result, Error}
use mime_crypt.Mailflow.Runner.{Runner, run_once}

pub record Counts : Type 0 where
  pub processed : ℕ
  pub skipped : ℕ
  pub deleted : ℕ

-- One message more
unfoldable pub counted : RunResult → Counts → Counts
counted r c = record {
  processed = if r.skipped then c.processed else suc c.processed;
  skipped = if r.skipped then suc c.skipped else c.skipped;
  deleted = if r.source_deleted then suc c.deleted else c.deleted;
}

abbrev pub no_counts : Counts
no_counts = record { processed = 0; skipped = 0; deleted = 0 }

-- What a cycle returns: the counts, and the error that ended it, if one did
abbrev pub Cycle : Type 0 → Type 0
Cycle W = (Counts × Option Error) × W

module _ {W : Type 0} where
  abbrev pub next_round :
      (Counts → W → Option (Cycle W)) → Counts → Result (Option RunResult) × W → Option (Cycle W)
  next_round more c (err e, w) = some ((c, some e), w)
  next_round more c (ok none, w) = some ((c, none), w)
  next_round more c (ok (some r), w) = more (counted r c) w

  -- The loop of runSourceCycle
  unfoldable pub cycle : Runner W → ℕ → Counts → W → Option (Cycle W)
  unfolding run_once counted
  cycle runner zero c w = none
  cycle runner (suc n) c w = next_round (cycle runner n) c (run_once runner w)

  unfoldable pub run_source_cycle : Runner W → ℕ → W → Option (Cycle W)
  unfolding cycle
  run_source_cycle runner fuel w = cycle runner fuel no_counts w
