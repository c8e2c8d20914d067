-- ===== src/Mailflow/Coordinator/Safety/Ending.antt =====
-- The end of a run: deletion, acknowledgement, completion and finalization come in this order, and
-- only for a message that was skipped or delivered.
use mime_crypt.Base.{
  true, Option, some, ◌≡◌, refl, ap, ◌⊎◌, inl, inr, arith, Bool-cases, and_true, ◌&&◌, not,
}
use mime_crypt.Base.Assoc.{Assoc}
use mime_crypt.Base.Effect.{ok, ◌>>=◌, ◌>>◌}
use mime_crypt.Mailflow.Types.{hard, TxState, RunResult, DeleteSourcePolicy}
use mime_crypt.Mailflow.Errors.{Result}
use mime_crypt.Mailflow.Ports.{Processor, Consumer, StateStore, MailEnvelope}
use mime_crypt.Mailflow.Coordinator.Policy.{
  has_required_deliveries, should_delete_source, validate_delete_source, result,
}
use mime_crypt.Mailflow.Coordinator.Finish.{
  persist, acknowledge_source, finalize_source, delete_now, acknowledge, ack_and_complete,
  delete_source, settle_source, finish,
}
use mime_crypt.Mailflow.Coordinator.Journal.{
  acknowledged, deleted, Journal, persisted, Delivered, IsSound, Justified, Safe, Observes,
}
use mime_crypt.Mailflow.Coordinator.Safety.Calls.{
  Post, bind-Post, lift-Post, weaken-Post, At, persist-Post, acknowledge_source-Post,
  finalize_source-Post, delete_now-Post,
}

acked-IsSound : (s : TxState) → IsSound s → IsSound (record s { source_acked = true })
unfolding has_required_deliveries
acked-IsSound s h = record { acked = λ _. refl; delivered = h.delivered; deleted = h.deleted }

done-IsSound :
    (s : TxState)
    → IsSound s
    → (s.skipped ≡ true) ⊎ Delivered s
    → IsSound (record s { source_acked = true; completed = true })
unfolding has_required_deliveries
done-IsSound s h r = record { acked = λ _. refl; delivered = λ _. r; deleted = h.deleted }

deleted-Delivered : (s : TxState) → Delivered s → Delivered (record s { source_deleted = true })
unfolding has_required_deliveries
deleted-Delivered s h = h

deleted-IsSound :
    (s : TxState)
    → IsSound s
    → s.plan.delete_source.enabled ≡ true
    → Delivered s
    → IsSound (record s { source_deleted = true })
unfolding has_required_deliveries
deleted-IsSound s h on full = record {
  acked = h.acked;
  delivered = h.delivered;
  deleted = λ _. (on, full);
}

-- validateDeleteSource lets a policy that is switched on through for a hard deletion only.
pub validate-hard :
    {W : Type 0} (p : DeleteSourcePolicy) (e : MailEnvelope W)
    → validate_delete_source p e ≡ ok tt
    → p.enabled ≡ true
    → e.delete_semantics ≡ hard
unfolding validate_delete_source
validate-hard p e h on = ground arith

pub should_delete-enabled :
    (s : TxState) (p : DeleteSourcePolicy) → should_delete_source s p ≡ true → p.enabled ≡ true
unfolding should_delete_source
should_delete-enabled s p h = ground arith

module _ {W : Type 0} (log : W → Journal) (processor : Processor W) (store : StateStore W)
    (consumers : Assoc (Option (Consumer W))) (e : MailEnvelope W)
    (o : Observes log processor store consumers e) where
  abbrev Post' : {A : Type 0} → (A → W → Type 0) → Result A × W → Type 0
  Post' = Post log e.delete_semantics

  abbrev At' : TxState → W → Type 0
  At' = At log e.delete_semantics

  abbrev Safe' : W → Type 0
  Safe' w = Safe e.delete_semantics (log w)

  -- The run has ended well: the store holds a completed and acknowledged state, and it is reported.
  abbrev pub Finished : RunResult → W → Type 0
  Finished r w =
      (s : TxState) × (r ≡ result s)
      × (s.completed ≡ true)
      × (s.source_acked ≡ true)
      × (persisted (log w) ≡ some s)
      × Safe' w

  persisted_only :
      (s : TxState) (w : W)
      → IsSound s
      → Safe' w
      → Post' (λ t v. (t ≡ s) × Safe' v) (persist store s w)
  persisted_only s w sound safe =
      weaken-Post log e.delete_semantics _ _ (persist store s w)
        (persist-Post log e.delete_semantics processor store consumers e o s w sound safe)
        (λ t v h. (h.0, h.1.1))

  acknowledge_post :
      (s : TxState) (w : W)
      → IsSound s
      → Safe' w
      → Justified e.delete_semantics acknowledged (log w)
      → Post'
          (λ t v. (t ≡ record s { source_acked = true }) × Safe' v)
          (acknowledge store s e.source w)
  unfolding acknowledge
  acknowledge_post s w sound safe j = elim (Bool-cases s.source_acked) [
    | inl old ↦ rw (old, acknowledge) (refl, safe)
    | inr new ↦
        rw (new, acknowledge)
          (bind-Post log e.delete_semantics _ _ (acknowledge_source e.source w) _
            (acknowledge_source-Post log e.delete_semantics processor store consumers e o e.source w
              refl safe j)
            (λ _ v at.
              persisted_only (record s { source_acked = true }) v (acked-IsSound s sound) at.1))
  ]

  complete_post :
      (s : TxState) (w : W)
      → IsSound (record s { completed = true })
      → s.source_acked ≡ true
      → Safe' w
      → Post'
          (λ t v. Finished (result t) v)
          ((persist store (record s { completed = true }) >>= λ done.
              finalize_source e.source >> λ v. (ok done, v))
            w)
  complete_post s w sound acked safe =
      bind-Post log e.delete_semantics _ _ (persist store (record s { completed = true }) w) _
        (persist-Post log e.delete_semantics processor store consumers e o _ w sound safe)
        λ t v at.
          bind-Post log e.delete_semantics (λ _ u. At' (record s { completed = true }) u) _
            (finalize_source e.source v) (λ _ u. (ok t, u))
            (finalize_source-Post log e.delete_semantics processor store consumers e o e.source
              (record s { completed = true }) v refl at.1 refl)
            λ _ u at'. (record s { completed = true }, ap result at.0, refl, acked, at'.0, at'.1)

  pub ack_and_complete_post :
      (s : TxState) (w : W)
      → IsSound s
      → (s.skipped ≡ true) ⊎ Delivered s
      → Safe' w
      → Justified e.delete_semantics acknowledged (log w)
      → Post' (λ t v. Finished (result t) v) (ack_and_complete store s e.source w)
  unfolding ack_and_complete
  ack_and_complete_post s w sound ready safe j =
      bind-Post log e.delete_semantics _ _ (acknowledge store s e.source w) _
        (acknowledge_post s w sound safe j)
        λ t v h. complete_post t v (rw (h.0) (done-IsSound s sound ready)) (rw (h.0)) h.1

  delete-Justified :
      (s : TxState) (w : W)
      → Delivered s
      → At' s w
      → validate_delete_source s.plan.delete_source e ≡ ok tt
      → (not s.source_deleted ≡ true) × (should_delete_source s s.plan.delete_source ≡ true)
      → Justified e.delete_semantics deleted (log w)
  delete-Justified s w full at valid go = (
    s,
    at.0,
    full,
    go.1,
    ground (arith, go.0),
    validate-hard s.plan.delete_source e valid (should_delete-enabled s s.plan.delete_source go.1),
  )

  delete_source_post :
      (s : TxState) (w : W)
      → IsSound s
      → Delivered s
      → At' s w
      → validate_delete_source s.plan.delete_source e ≡ ok tt
      → Post'
          (λ t v. (t.skipped ≡ s.skipped) × IsSound t × Delivered t × At' t v)
          (delete_source store e s w)
  unfolding delete_source
  delete_source_post s w sound full at valid =
      elim (Bool-cases (not s.source_deleted && should_delete_source s s.plan.delete_source)) [
        | inl go ↦
            rw (go, delete_source)
              (bind-Post log e.delete_semantics _ _ (delete_now e.source w) _
                (delete_now-Post log e.delete_semantics processor store consumers e o e.source s w
                  refl at (delete-Justified s w full at valid (and_true _ _ go)))
                λ _ v at'.
                  weaken-Post log e.delete_semantics _ _
                    (persist store (record s { source_deleted = true }) v)
                    (persist-Post log e.delete_semantics processor store consumers e o _ v
                      (deleted-IsSound s sound
                        (should_delete-enabled s s.plan.delete_source (and_true _ _ go).1) full)
                      at'.1)
                    λ t u h. rw (h.0) (
                      refl,
                      deleted-IsSound s sound
                          (should_delete-enabled s s.plan.delete_source (and_true _ _ go).1) full,
                      deleted-Delivered s full,
                      h.1,
                    ))
        | inr stay ↦ rw (stay, delete_source) (refl, sound, full, at)
      ]

  settle_source_post :
      (s : TxState) (w : W)
      → IsSound s
      → Delivered s
      → At' s w
      → Post' Finished (settle_source store e s w)
  unfolding settle_source
  settle_source_post s w sound full at =
      lift-Post log e.delete_semantics Finished (validate_delete_source s.plan.delete_source e) _ w
        at.1
        λ _ valid.
          bind-Post log e.delete_semantics _ Finished (delete_source store e s w) _
            (delete_source_post s w sound full at valid)
            λ t v h.
              bind-Post log e.delete_semantics _ Finished (ack_and_complete store t e.source v) _
                (ack_and_complete_post t v h.1 (inr h.2) h.3.1 (inr (t, h.3.0, h.2))) λ u x fin. fin

  -- A run that gets as far as the end with all required receipts ends well, or by an error.
  pub finish_post :
      (s : TxState) (w : W)
      → IsSound s
      → Delivered s
      → At' s w
      → Post' Finished (finish store e s w)
  unfolding finish
  finish_post s w sound full at = rw (full.1, finish) (settle_source_post s w sound full at)
