-- ===== src/Mailflow/Coordinator/Tests.antt =====
-- A world with a memory store and a journal, runs in it, and the theorems at its inputs.
use mime_crypt.Base.{
  String, true, false, Option, none, some, List, [], ◌∷◌, ◌≡◌, refl, ◌↔◌, ap, ◌∙◌, inl, inr,
  Bool-cases, some_inj, if◌then◌else◌,
}
use mathlib.Core.Path.{subst}
use mime_crypt.Base.Text.{◌==◌}
use mime_crypt.Base.Effect.{ok, err}
use mime_crypt.Mailflow.Types.{
  MailTrace, no_trace, no_store, no_policy, DeliveryTarget, ExecutionPlan, DeliveryReceipt, TxState,
  RunResult, hard,
}
use mime_crypt.Mailflow.Errors.{Result, Act, failed}
use mime_crypt.Mailflow.Plan.{validate_plan, target_key}
use mime_crypt.Mailflow.Plan.Valid.{IsValidPlan, validate_plan_iff}
use mime_crypt.Mailflow.Ports.{
  Processor, Consumer, StateStore, MailEnvelope, SourceHandle, ProcessedMail, Reader, release,
}
use mime_crypt.Base.Assoc.{Assoc, lookup, insert}
use mime_crypt.Mailflow.Coordinator.Policy.{result}
use mime_crypt.Mailflow.Coordinator.Run.{run}
use mime_crypt.Mailflow.Coordinator.Journal.{
  Journal, Event, loaded, saved, processed, skip_reported, consumed, acknowledged, deleted,
  finalized, persisted, Safe, Observes,
}
use mime_crypt.Mailflow.Coordinator.Correct.{coordinator, run-Safe, run_completes}

record World : Type 0 where
  states : Assoc TxState
  journal : Journal

abbrev note : Event → World → World
note e w = record w { journal = e ∷ w.journal }

abbrev store : StateStore World
store = record {
  load = λ k w. let found = lookup k w.states in (ok found, note (loaded found) w);
  save = λ s w. (ok tt, note (saved s) (record w { states = insert s.key s w.states }));
}

abbrev trace : MailTrace
trace = record no_trace { transaction_key = "imap:1"; source_message_id = "1" }

abbrev target : DeliveryTarget
target = record { name = ""; consumer = "out"; artifact = ""; required = true }

abbrev plan : ExecutionPlan
plan = record { targets = target ∷ []; delete_source = record no_policy { enabled = true } }

abbrev receipt : DeliveryReceipt
receipt = record { target = ""; consumer = ""; id = "1"; store = no_store; verified = true }

abbrev mime : Act World Reader
mime w = (ok (record { bytes = []; failure = none }), w)

abbrev processed_mail : ProcessedMail World
processed_mail = record {
  trace = trace;
  plan = plan;
  mail = record { name = "mail"; mime = some mime; attributes = none };
  cleanup = none;
}

abbrev processor : Processor World
processor = record { process = λ e w. (ok processed_mail, note processed w) }

abbrev consumer : Consumer World
consumer = record { consume = λ r w. (ok receipt, note (consumed r.target) w) }

abbrev consumers : Assoc (Option (Consumer World))
consumers = ("out", some consumer) ∷ []

abbrev source : SourceHandle World
source = record {
  acknowledge = λ w. (ok tt, note acknowledged w);
  finalize = some (λ w. (ok tt, note finalized w));
  delete = some (λ w. (ok tt, note deleted w));
}

abbrev envelope : MailEnvelope World
envelope = record { mime = some mime; trace = trace; source = some source; delete_semantics = hard }

abbrev start : World
start = record { states = []; journal = [] }

abbrev journal_of : World → Journal
journal_of w = w.journal

abbrev value : Result (ProcessedMail World) → ProcessedMail World
value (ok m) = m
value (err e) = processed_mail

consumer_only :
    (name : String) (c : Consumer World) → lookup name consumers ≡ some (some c) → consumer ≡ c
unfolding lookup
consumer_only name c h = elim (Bool-cases ("out" == name)) [
  | inl same ↦ some_inj (some_inj (rw (same, if◌then◌else◌) at h))
  | inr other ↦ cc (rw (other, if◌then◌else◌) at h)
]

observes : Observes journal_of processor store consumers envelope
observes = record {
  load = λ k w. refl;
  save = λ s w. refl;
  process = λ w. refl;
  cleanup = λ m w v h.
      subst (λ (m : ProcessedMail World). journal_of (release m v).1 ≡ journal_of v) (ap value h)
        (unfold release in refl);
  consume = λ name c r w h.
      subst
        (λ (c : Consumer World). journal_of (c.consume r w).1 ≡ consumed r.target ∷ journal_of w)
        (consumer_only name c h) refl;
  acknowledge = λ h w q.
      subst
        (λ (h : SourceHandle World). journal_of (h.acknowledge w).1 ≡ acknowledged ∷ journal_of w)
        (some_inj q) refl;
  delete = λ h act w q d.
      subst (λ (act : Act World (Unit {0})). journal_of (act w).1 ≡ deleted ∷ journal_of w)
        (some_inj (ap (λ (h : SourceHandle World). h.delete) (some_inj q) ∙ d)) refl;
  finalize = λ h act w q d.
      subst (λ (act : Act World (Unit {0})). journal_of (act w).1 ≡ finalized ∷ journal_of w)
        (some_inj (ap (λ (h : SourceHandle World). h.finalize) (some_inj q) ∙ d)) refl;
}

-- The source is deleted for good, acknowledged and finalized after the one delivery is persisted.
run-Safe_example :
    Safe hard (journal_of (run (coordinator processor store consumers) envelope start).1)
unfolding lookup insert
run-Safe_example =
    run-Safe journal_of processor store consumers envelope observes start tt (λ s h. cc)

abbrev calls : Journal → List String
calls [] = []
calls (loaded s ∷ l) = "load" ∷ calls l
calls (saved s ∷ l) = "save" ∷ calls l
calls (processed ∷ l) = "process" ∷ calls l
calls (skip_reported ∷ l) = "skip" ∷ calls l
calls (consumed t ∷ l) = "consume" ∷ calls l
calls (acknowledged ∷ l) = "acknowledge" ∷ calls l
calls (deleted ∷ l) = "delete" ∷ calls l
calls (finalized ∷ l) = "finalize" ∷ calls l

-- The calls of that run, newest first.
run_calls :
    calls (journal_of (run (coordinator processor store consumers) envelope start).1)
    ≡ "finalize" ∷ "save" ∷ "save" ∷ "acknowledge" ∷ "save" ∷ "delete" ∷ "save" ∷ "consume" ∷ "save"
      ∷ "process" ∷ "load" ∷ []
unfolding run lookup insert
run_calls = refl

abbrev final : RunResult
final = record {
  key = "imap:1";
  trace = trace;
  plan = plan;
  deliveries = ("out:primary", record receipt { target = "out:primary"; consumer = "out" }) ∷ [];
  skipped = false;
  source_deleted = true;
  source_acked = true;
  completed = true;
}

final_result : (run (coordinator processor store consumers) envelope start).0 ≡ ok final
unfolding run lookup insert
final_result = refl

run_completes_example :
    (s : TxState) × (final ≡ result s)
    × (s.completed ≡ true)
    × (s.source_acked ≡ true)
    × (persisted (journal_of (run (coordinator processor store consumers) envelope start).1)
        ≡ some s)
unfolding lookup insert
run_completes_example =
    run_completes journal_of processor store consumers envelope observes start tt (λ s h. cc) final
      final_result

-- A second run, of the same message in the world that the first has left, only finalizes.
rerun_calls :
    calls (
      journal_of
        (run
          (coordinator processor store consumers)
          envelope
          (record (run (coordinator processor store consumers) envelope start).1 {
            journal = [];
          })).1)
    ≡ "finalize" ∷ "load" ∷ []
unfolding run lookup insert
rerun_calls = refl

abbrev twice : ExecutionPlan
twice = record plan { targets = target ∷ target ∷ [] }

-- Two targets without a name collide if they use the same consumer.
twice_refused : validate_plan twice ≡ err (failed "重复的消费目标: out:primary")
unfolding validate_plan target_key
twice_refused = refl

validate_plan_iff_example : (validate_plan plan ≡ ok tt) ↔ IsValidPlan plan
validate_plan_iff_example = validate_plan_iff plan
