-- ===== src/Flowruntime/Cycle/Rounds.antt =====
-- source_executor.go: a cycle, compared with the list of what each round of it reports.
use mime_crypt.Base.{
  ℕ, zero, suc, ◌+◌, ◌<◌, Bool, Option, none, some, List, [], ◌∷◌, ◌≡◌, refl, sym, ap, ◌∙◌, ◌↔◌,
  arith, some_inj, not, if◌then◌else◌,
}
use mathlib.Core.Path.{subst}
use mime_crypt.Base.Lists.{length}
use mime_crypt.Base.Effect.{ok, err}
use mime_crypt.Mailflow.Types.{RunResult}
use mime_crypt.Mailflow.Errors.{Result, Error}
use mime_crypt.Mailflow.Runner.{Runner, run_once}
use mime_crypt.Flowruntime.Cycle.{
  Counts, counted, no_counts, Cycle, next_round, cycle, run_source_cycle,
}

-- How many results the test accepts
unfoldable pub tally : (RunResult → Bool) → List RunResult → ℕ
tally f [] = 0
tally f (r ∷ rs) = (if f r then 1 else 0) + tally f rs

-- The counts of the messages that were not skipped, that were skipped, and that were deleted
abbrev pub tallied : List RunResult → Counts
tallied rs = record {
  processed = tally (λ r. not r.skipped) rs;
  skipped = tally (λ r. r.skipped) rs;
  deleted = tally (λ r. r.source_deleted) rs;
}

-- What a round reports after the last message: no message, or an error
abbrev pub last_report : Option Error → Result (Option RunResult)
last_report none = ok none
last_report (some e) = err e

module _ {W : Type 0} (runner : Runner W) where
  -- From `w`, the rounds of RunOnce report these results, one after the other, and then end in `v`.
  abbrev pub Rounds : List RunResult → Option Error → W → W → Type 0
  Rounds [] o w v = run_once runner w ≡ (last_report o, v)
  Rounds (r ∷ rs) o w v = (u : W) × ((run_once runner w ≡ (ok (some r), u)) × Rounds rs o u v)

-- The counts after these results
abbrev added : Counts → List RunResult → Counts
added c rs = record {
  processed = c.processed + tally (λ r. not r.skipped) rs;
  skipped = c.skipped + tally (λ r. r.skipped) rs;
  deleted = c.deleted + tally (λ r. r.source_deleted) rs;
}

same_counts :
    (p q s t d e : ℕ)
    → p ≡ q
    → s ≡ t
    → d ≡ e
    → ◌≡◌ {A = Counts}
        (record { processed = p; skipped = s; deleted = d })
        (record { processed = q; skipped = t; deleted = e })
same_counts p q s t d e h k l = cc

added-counted :
    (r : RunResult) (c : Counts) (rs : List RunResult) → added (counted r c) rs ≡ added c (r ∷ rs)
unfolding counted tally
added-counted r c rs = same_counts _ _ _ _ _ _ (ground arith) (ground arith) (ground arith)

added-no_counts : (rs : List RunResult) → added no_counts rs ≡ tallied rs
added-no_counts rs = same_counts _ _ _ _ _ _ (omega arith) (omega arith) (omega arith)

added-nil : (c : Counts) → added c [] ≡ c
unfolding tally
added-nil c = same_counts _ _ _ _ _ _ (omega arith) (omega arith) (omega arith)

module _ {W : Type 0} (runner : Runner W) where
  -- Some rounds, fewer than the fuel, end like this cycle and have its counts.
  abbrev Explains : ℕ → Counts → W → Cycle W → Type 0
  Explains n c w x =
      (rs : List RunResult) × (Rounds runner rs x.0.1 w x.1
        × ((length rs < n) × (x.0.0 ≡ added c rs)))

  round-Explains :
      (n : ℕ) (c : Counts) (w : W) (x : Cycle W) (a : Result (Option RunResult) × W)
      → run_once runner w ≡ a
      → ((c : Counts) (u : W) → cycle runner n c u ≡ some x → Explains n c u x)
      → next_round (cycle runner n) c a ≡ some x
      → Explains (suc n) c w x
  round-Explains n c w x (err e, u) h later k =
      subst (Explains (suc n) c w) (some_inj k) ([], (h, (omega arith, sym (added-nil c))))
  round-Explains n c w x (ok none, u) h later k =
      subst (Explains (suc n) c w) (some_inj k) ([], (h, (omega arith, sym (added-nil c))))
  round-Explains n c w x (ok (some r), u) h later k =
      let (rs, (rounds, (small, e))) = later (counted r c) u k in
      (r ∷ rs, ((u, (h, rounds)), (omega arith, e ∙ added-counted r c rs)))

  cycle-Explains :
      (n : ℕ) (c : Counts) (w : W) (x : Cycle W) → cycle runner n c w ≡ some x → Explains n c w x
  unfolding cycle
  cycle-Explains zero c w x h = cc
  cycle-Explains (suc n) c w x h =
      round-Explains n c w x (run_once runner w) refl (λ d u k. cycle-Explains n d u x k) h

  last-cycle :
      (n : ℕ) (c : Counts) (o : Option Error) (v : W)
      → next_round (cycle runner n) c (last_report o, v) ≡ some ((c, o), v)
  last-cycle n c none v = refl
  last-cycle n c (some e) v = refl

  Rounds-cycle :
      (n : ℕ) (c : Counts) (rs : List RunResult) (o : Option Error) (w v : W)
      → Rounds runner rs o w v
      → length rs < n
      → cycle runner n c w ≡ some ((added c rs, o), v)
  unfolding cycle
  Rounds-cycle zero c rs o w v h small = absurd (omega arith)
  Rounds-cycle (suc n) c [] o w v h small =
      ap (next_round (cycle runner n) c) h
      ∙ (last-cycle n c o v ∙ ap (λ d. some ((d, o), v)) (sym (added-nil c)))
  Rounds-cycle (suc n) c (r ∷ rs) o w v (u, (h, rest)) small =
      ap (next_round (cycle runner n) c) h
      ∙ (Rounds-cycle n (counted r c) rs o u v rest (omega arith)
          ∙ ap (λ d. some ((d, o), v)) (added-counted r c rs))

  -- A cycle returns, with these counts, this error or none and this world, exactly when the rounds
  -- of RunOnce come to that end and the fuel is more than the number of messages they report: the
  -- counts are those of the messages that were not skipped, that were skipped, and whose source was
  -- deleted.
  pub run_source_cycle_iff :
      (fuel : ℕ) (w v : W) (c : Counts) (o : Option Error)
      → (run_source_cycle runner fuel w ≡ some ((c, o), v)) ↔ (
          (rs : List RunResult) × (Rounds runner rs o w v
            × ((length rs < fuel) × (c ≡ tallied rs))))
  unfolding run_source_cycle
  run_source_cycle_iff fuel w v c o = (
    λ h.
        let (rs, (rounds, (small, e))) = cycle-Explains fuel no_counts w ((c, o), v) h in
        (rs, (rounds, (small, e ∙ added-no_counts rs))),
    λ (rs, (rounds, (small, e))).
        Rounds-cycle fuel no_counts rs o w v rounds small
        ∙ ap (λ d. some ((d, o), v)) (added-no_counts rs ∙ sym e),
  )
