-- ===== src/Mailflow/Coordinator/Safety/Loop.antt =====
-- The loop over the targets: each consumer is called for a target that is committed in the store's
-- state only if it has no receipt there, and after the loop no required target is without one.
use mime_crypt.Base.{
  String, Bool, true, false, Option, some, List, [], ◌∷◌, ◌≡◌, refl, sym, ap, ◌∙◌, inl, inr, arith,
  Bool-cases,
}
use mathlib.Core.Path.{subst}
use mime_crypt.Base.Text.{trim_space}
use mime_crypt.Base.Assoc.{Assoc, has, lookup, has-insert_mono, has-insert_self}
use mime_crypt.Base.Effect.{ok, err}
use mime_crypt.Mailflow.Types.{MailTrace, DeliveryTarget, DeliveryReceipt, ExecutionPlan, TxState}
use mime_crypt.Mailflow.Errors.{Result}
use mime_crypt.Mailflow.Plan.{target_key}
use mime_crypt.Mailflow.Ports.{Processor, Consumer, StateStore, MailEnvelope, MailObject}
use mime_crypt.Mailflow.Coordinator.Policy.{all_required}
use mime_crypt.Mailflow.Coordinator.Deliver.{
  Progress, complete_receipt, record_delivery, find_consumer, commit, settle, submit, deliver,
  deliver_all,
}
use mime_crypt.Mailflow.Coordinator.Journal.{
  consumed, Journal, persisted, IsSound, Justified, Safe, Elem, Observes,
}
use mime_crypt.Mailflow.Coordinator.Safety.Calls.{
  Post, bind-Post, lift-Post, weaken-Post, At, save-Post,
}

-- No receipt is lost.
abbrev pub Grows : TxState → TxState → Type 0
Grows s t = (k : String) → has k s.deliveries ≡ true → has k t.deliveries ≡ true

all_required-Grows :
    (s u : TxState) (ts : List DeliveryTarget)
    → Grows s u
    → all_required s.deliveries ts ≡ true
    → all_required u.deliveries ts ≡ true
unfolding all_required
all_required-Grows s u [] g h = refl
all_required-Grows s u (t ∷ ts) g h = ground (arith, g (target_key t), all_required-Grows s u ts g)

all_required-cons :
    (s : TxState) (t : DeliveryTarget) (ts : List DeliveryTarget)
    → (t.required ≡ true → has (target_key t) s.deliveries ≡ true)
    → all_required s.deliveries ts ≡ true
    → all_required s.deliveries (t ∷ ts) ≡ true
unfolding all_required
all_required-cons s t ts h k = ground arith

find_consumer-lookup :
    {W : Type 0} (consumers : Assoc (Option (Consumer W))) (name : String) (c : Consumer W)
    → find_consumer consumers name ≡ ok c
    → lookup (trim_space name) consumers ≡ some (some c)
unfolding find_consumer
find_consumer-lookup consumers name c h = ground arith

record_delivery-Grows :
    (s : TxState) (t : DeliveryTarget) (r : DeliveryReceipt) → Grows s (record_delivery t r s)
unfolding record_delivery
record_delivery-Grows s t r k h = has-insert_mono (target_key t) k r s.deliveries h

record_delivery-has :
    (s : TxState) (t : DeliveryTarget) (r : DeliveryReceipt)
    → has (target_key t) (record_delivery t r s).deliveries ≡ true
unfolding record_delivery
record_delivery-has s t r = has-insert_self (target_key t) r s.deliveries

record_delivery-IsSound :
    (s : TxState) (t : DeliveryTarget) (r : DeliveryReceipt)
    → s.completed ≡ false
    → s.source_deleted ≡ false
    → IsSound (record_delivery t r s)
unfolding record_delivery
record_delivery-IsSound s t r c d = record {
  acked = λ h. cc;
  delivered = λ h. cc;
  deleted = λ h. cc;
}

record_delivery_keeps :
    (s : TxState) (t : DeliveryTarget) (r : DeliveryReceipt)
    → ((record_delivery t r s).plan ≡ s.plan)
      × ((record_delivery t r s).completed ≡ s.completed)
      × ((record_delivery t r s).source_deleted ≡ s.source_deleted)
unfolding record_delivery
record_delivery_keeps s t r = (refl, refl, refl)

-- A state that is still under way: the journal is safe, the plan is the persisted one.
module _ {W : Type 0} (log : W → Journal) (processor : Processor W) (store : StateStore W)
    (consumers : Assoc (Option (Consumer W))) (e : MailEnvelope W)
    (o : Observes log processor store consumers e) (plan : ExecutionPlan) where
  abbrev pub Underway : TxState → W → Type 0
  Underway s w =
      At log e.delete_semantics s w
      × (s.plan ≡ plan)
      × (s.completed ≡ false)
      × (s.source_deleted ≡ false)

  abbrev Post' : {A : Type 0} → (A → W → Type 0) → Result A × W → Type 0
  Post' = Post log e.delete_semantics

  abbrev Step : TxState → DeliveryTarget → Progress → W → Type 0
  Step s t q v =
      Underway q.0 v × Grows s q.0 × (t.required ≡ true → has (target_key t) q.0.deliveries ≡ true)

  commit_post :
      (shared : Bool) (t : DeliveryTarget) (r : DeliveryReceipt) (s : TxState) (trace : MailTrace)
      (w : W)
      → Underway s w
      → Post' (Step s t) (commit store shared t r (s, trace) w)
  unfolding commit
  commit_post shared t r s trace w h =
      let q = complete_receipt t r in
      let k = record_delivery_keeps s t q in
      bind-Post log e.delete_semantics (λ _ v. At log e.delete_semantics (record_delivery t q s) v)
        _ (store.save (record_delivery t q s) w) _
        (save-Post log e.delete_semantics processor store consumers e o _ w (store.save _ w)
          (o.save _ w) (record_delivery-IsSound s t q h.2 h.3) h.0.1)
        λ _ v at. (
          (at, k.0 ∙ h.1, k.1 ∙ h.2, k.2 ∙ h.3),
          record_delivery-Grows s t q,
          λ _. record_delivery-has s t q,
        )

  consumed_Underway :
      (t : DeliveryTarget) (s : TxState) (w v : W)
      → Underway s w
      → Justified e.delete_semantics (consumed t) (log w)
      → log v ≡ consumed t ∷ log w
      → Underway s v
  consumed_Underway t s w v h j q =
      ((ap persisted q ∙ h.0.0, subst (Safe e.delete_semantics) (sym q) (j, h.0.1)), h.1, h.2, h.3)

  settle_post :
      (shared : Bool) (t : DeliveryTarget) (s : TxState) (trace : MailTrace) (w : W)
      (r : Result DeliveryReceipt × W)
      → Underway s w
      → Justified e.delete_semantics (consumed t) (log w)
      → log r.1 ≡ consumed t ∷ log w
      → Post' (Step s t) (settle store shared t (s, trace) r)
  unfolding settle
  settle_post shared t s trace w (ok r, v) h j q =
      commit_post shared t r s trace v (consumed_Underway t s w v h j q)
  settle_post shared t s trace w (err x, v) h j q = elim (Bool-cases t.required) [
    | inl must ↦ rw (must, settle) (consumed_Underway t s w v h j q).0.1
    | inr may ↦ rw (may, settle) (consumed_Underway t s w v h j q, (λ k g. g), λ g. cc)
  ]

  submit_post :
      (c : Consumer W) (name : String) (mail : MailObject W) (shared : Bool) (t : DeliveryTarget)
      (s : TxState) (trace : MailTrace) (w : W)
      → lookup name consumers ≡ some (some c)
      → Underway s w
      → Justified e.delete_semantics (consumed t) (log w)
      → Post' (Step s t) (submit store c mail shared t (s, trace) w)
  unfolding submit
  submit_post c name mail shared t s trace w found h j =
      settle_post shared t s trace w (c.consume _ w) h j (o.consume name c _ w found)

  deliver_post :
      (mail : MailObject W) (shared : Bool) (t : DeliveryTarget) (s : TxState) (trace : MailTrace)
      (w : W)
      → Elem t plan.targets
      → Underway s w
      → Post' (Step s t) (deliver store consumers mail shared t (s, trace) w)
  unfolding deliver
  deliver_post mail shared t s trace w inside h =
      elim (Bool-cases (has (target_key t) s.deliveries)) [
        | inl old ↦ rw (old, deliver) (h, (λ k g. g), λ _. old)
        | inr new ↦
            rw (new, deliver)
              (lift-Post log e.delete_semantics (Step s t) (find_consumer consumers t.consumer) _ w
                h.0.1
                λ c found.
                  submit_post c _ mail shared t s trace w
                    (find_consumer-lookup consumers t.consumer c found) h
                    (s, h.0.0, rw (h.1) inside, new))
      ]

  -- After the loop: every required target of the list has a receipt in the persisted state.
  abbrev pub Looped : TxState → List DeliveryTarget → Progress → W → Type 0
  Looped s ts q v = Underway q.0 v × Grows s q.0 × (all_required q.0.deliveries ts ≡ true)

  pub deliver_all_post :
      (mail : MailObject W) (shared : Bool) (ts : List DeliveryTarget) (p : Progress) (w : W)
      → ((t : DeliveryTarget) → Elem t ts → Elem t plan.targets)
      → Underway p.0 w
      → Post' (Looped p.0 ts) (deliver_all store consumers mail shared ts p w)
  unfolding deliver_all all_required
  deliver_all_post mail shared [] p w inside h = (h, (λ k g. g), refl)
  deliver_all_post mail shared (t ∷ ts) (s, trace) w inside h =
      bind-Post log e.delete_semantics (Step s t) (Looped s (t ∷ ts))
        (deliver store consumers mail shared t (s, trace) w) _
        (deliver_post mail shared t s trace w (inside t (inl refl)) h)
        λ q v d.
          weaken-Post log e.delete_semantics (Looped q.0 ts) (Looped s (t ∷ ts))
            (deliver_all store consumers mail shared ts q v)
            (deliver_all_post mail shared ts q v (λ u i. inside u (inr i)) d.0)
            λ x u l. (
              l.0,
              (λ k g. l.1 k (d.1 k g)),
              all_required-cons x.0 t ts (λ g. l.1 (target_key t) (d.2 g)) l.2,
            )
