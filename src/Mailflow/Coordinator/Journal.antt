-- ===== src/Mailflow/Coordinator/Journal.antt =====
-- What a run of the coordinator does, seen from outside: the journal of the calls that it makes,
-- newest first, and when each call is in order.
use mime_crypt.Base.{String, Bool, true, false, Option, none, some, List, [], ◌∷◌, ◌≡◌, ◌⊎◌}
use mime_crypt.Base.Assoc.{Assoc, has, lookup}
use mime_crypt.Base.Effect.{ok, err}
use mime_crypt.Base.Lists.{is_nil}
use mime_crypt.Mailflow.Types.{DeleteSemantics, hard, DeliveryTarget, TxState}
use mime_crypt.Mailflow.Errors.{Result, is_skip}
use mime_crypt.Mailflow.Plan.{target_key}
use mime_crypt.Mailflow.Ports.{
  SourceHandle, Processor, Consumer, StateStore, MailEnvelope, ProcessedMail, ConsumeRequest,
  release,
}
use mime_crypt.Mailflow.Coordinator.Policy.{has_required_deliveries, should_delete_source}

-- A load and a save stand here if they succeed, the other calls in any case.
pub data Event : Type 0 where
  loaded : Option TxState → Event
  saved : TxState → Event
  processed skip_reported : Event
  consumed : DeliveryTarget → Event
  acknowledged deleted finalized : Event

abbrev pub Journal : Type 0
Journal = List Event

-- The state that the store holds, as far as the journal tells.
abbrev pub persisted : Journal → Option TxState
persisted [] = none
persisted (loaded found ∷ l) = found
persisted (saved s ∷ l) = some s
persisted (e ∷ l) = persisted l

abbrev pub skip_seen : Journal → Bool
skip_seen [] = false
skip_seen (skip_reported ∷ l) = true
skip_seen (e ∷ l) = skip_seen l

-- There are targets, and each required one has a receipt.
abbrev pub Delivered : TxState → Type 0
Delivered s = (is_nil s.plan.targets ≡ false) × (has_required_deliveries s s.plan ≡ true)

-- The invariant of persisted states.
pub record IsSound (s : TxState) : Type 0 where
  pub acked : s.completed ≡ true → s.source_acked ≡ true
  pub delivered : s.completed ≡ true → (s.skipped ≡ true) ⊎ Delivered s
  pub deleted : s.source_deleted ≡ true → (s.plan.delete_source.enabled ≡ true) × Delivered s

abbrev pub Elem : {A : Type 0} → A → List A → Type 0
Elem a [] = ⊥
Elem a (x ∷ xs) = (x ≡ a) ⊎ Elem a xs

-- When a call is in order, after the calls of the journal.
abbrev pub Justified : DeleteSemantics → Event → Journal → Type 0
Justified sem (saved s) l = IsSound s
Justified sem (consumed t) l =
    (s : TxState) × (persisted l ≡ some s)
    × Elem t s.plan.targets
    × (has (target_key t) s.deliveries ≡ false)
Justified sem acknowledged l =
    (skip_seen l ≡ true) ⊎ ((s : TxState) × (persisted l ≡ some s) × Delivered s)
Justified sem deleted l =
    (s : TxState) × (persisted l ≡ some s)
    × Delivered s
    × (should_delete_source s s.plan.delete_source ≡ true)
    × (s.source_deleted ≡ false)
    × (sem ≡ hard)
Justified sem finalized l = (s : TxState) × (persisted l ≡ some s) × (s.completed ≡ true)
Justified sem e l = Unit

-- Every call of the journal was in order when it was made.
abbrev pub Safe : DeleteSemantics → Journal → Type 0
Safe sem [] = Unit
Safe sem (e ∷ l) = Justified sem e l × Safe sem l

abbrev pub note_load : Result (Option TxState) → Journal → Journal
note_load (ok found) l = loaded found ∷ l
note_load (err e) l = l

abbrev pub note_save : TxState → Result (Unit {0}) → Journal → Journal
note_save s (ok _) l = saved s ∷ l
note_save s (err e) l = l

abbrev pub note_process : {W : Type 0} → Result (ProcessedMail W) → Journal → Journal
note_process (ok m) l = processed ∷ l
note_process (err e) l = elim (is_skip e) [ true ↦ skip_reported ∷ l | false ↦ processed ∷ l ]

-- A world in which `log` sees the calls of a run.
pub record Observes {W : Type 0} (log : W → Journal) (processor : Processor W)
    (store : StateStore W) (consumers : Assoc (Option (Consumer W))) (e : MailEnvelope W)
    : Type 0 where
  pub load : (k : String) (w : W) → log (store.load k w).1 ≡ note_load (store.load k w).0 (log w)
  pub save : (s : TxState) (w : W) → log (store.save s w).1 ≡ note_save s (store.save s w).0 (log w)
  pub process :
      (w : W) → log (processor.process e w).1 ≡ note_process (processor.process e w).0 (log w)
  pub cleanup :
      (m : ProcessedMail W) (w v : W)
      → (processor.process e w).0 ≡ ok m
      → log (release m v).1 ≡ log v
  pub consume :
      (name : String) (c : Consumer W) (r : ConsumeRequest W) (w : W)
      → lookup name consumers ≡ some (some c)
      → log (c.consume r w).1 ≡ consumed r.target ∷ log w
  pub acknowledge :
      (h : SourceHandle W) (w : W)
      → e.source ≡ some h
      → log (h.acknowledge w).1 ≡ acknowledged ∷ log w
  pub delete :
      (h : SourceHandle W) (act : W → Result (Unit {0}) × W) (w : W)
      → e.source ≡ some h
      → h.delete ≡ some act
      → log (act w).1 ≡ deleted ∷ log w
  pub finalize :
      (h : SourceHandle W) (act : W → Result (Unit {0}) × W) (w : W)
      → e.source ≡ some h
      → h.finalize ≡ some act
      → log (act w).1 ≡ finalized ∷ log w
