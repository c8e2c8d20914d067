-- ===== src/Mailflow/Coordinator/Safety/Whole.antt =====
-- The whole run: taking over the plan, the branches of Run, and what a run guarantees.
use mime_crypt.Base.{
  String, true, false, Option, none, some, ◌∷◌, ◌≡◌, refl, sym, ap, ◌∙◌, inl, inr, Bool-cases,
  if_rule,
}
use mathlib.Core.Path.{subst}
use mime_crypt.Base.Text.{trim_space}
use mime_crypt.Base.Assoc.{Assoc}
use mime_crypt.Base.Effect.{ok, err, ◌>>◌}
use mime_crypt.Mailflow.Types.{TxState, RunResult}
use mime_crypt.Mailflow.Errors.{Result, Error, is_skip}
use mime_crypt.Mailflow.Ports.{
  Processor, Consumer, StateStore, MailEnvelope, ProcessedMail, release, validate_processed,
  validate_envelope,
}
use mime_crypt.Mailflow.Coordinator.Policy.{result}
use mime_crypt.Mailflow.Coordinator.Finish.{ack_and_complete, finalize_source}
use mime_crypt.Mailflow.Coordinator.Run.{
  Coordinator, loaded_state, needs_processing, skip, transact, take_processed, advance, run,
}
use mime_crypt.Mailflow.Coordinator.Journal.{
  skip_reported, processed, Journal, persisted, skip_seen, IsSound, Safe, note_process, note_load,
  Observes,
}
use mime_crypt.Mailflow.Coordinator.Safety.Calls.{Post, bind-Post, lift-Post, finalize_source-Post}
use mime_crypt.Mailflow.Coordinator.Safety.Ending.{Finished, ack_and_complete_post, finish_post}
use mime_crypt.Mailflow.Coordinator.Safety.Planning.{
  Known, transact_post, Known-persisted, new_state-IsSound, open-IsSound, undeleted,
  new_state-completed, ready-Delivered,
}

module _ {W : Type 0} (log : W → Journal) (processor : Processor W) (store : StateStore W)
    (consumers : Assoc (Option (Consumer W))) (e : MailEnvelope W)
    (o : Observes log processor store consumers e) where
  abbrev Post' : {A : Type 0} → (A → W → Type 0) → Result A × W → Type 0
  Post' = Post log e.delete_semantics

  abbrev Safe' : W → Type 0
  Safe' w = Safe e.delete_semantics (log w)

  abbrev Finished' : RunResult → W → Type 0
  Finished' = Finished log processor store consumers e o

  abbrev Known' : String → TxState → W → Type 0
  Known' = Known log processor store consumers e o

  skip_post :
      (s : TxState) (reason : Error) (w : W)
      → skip_seen (log w) ≡ true
      → Safe' w
      → s.completed ≡ false
      → s.source_deleted ≡ false
      → Post' Finished' (skip store e s reason w)
  unfolding skip
  skip_post s reason w seen safe c d =
      bind-Post log e.delete_semantics _ Finished' (ack_and_complete store _ e.source w) _
        (ack_and_complete_post log processor store consumers e o _ w (open-IsSound _ c d) (inl refl)
          safe (inl seen))
        λ t v h. h

  -- A change of the world that the journal does not see.
  relog_post :
      (r : Result RunResult) (v u : W)
      → log u ≡ log v
      → Post' Finished' (r, v)
      → Post' Finished' (r, u)
  relog_post (ok a) v u h (s, q, c, k, at, safe) =
      (s, q, c, k, rw h at, subst (Safe e.delete_semantics) (sym h) safe)
  relog_post (err x) v u h safe = subst (Safe e.delete_semantics) (sym h) safe

  Known_processed :
      (key : String) (s : TxState) (w v : W)
      → Known' key s w
      → log v ≡ processed ∷ log w
      → Known' key s v
  Known_processed key s w v (inl at) h = inl (ap persisted h ∙ at)
  Known_processed key s w v (inr new) h = inr new

  completed_post :
      (key : String) (s : TxState) (w : W)
      → Known' key s w
      → Safe' w
      → IsSound s
      → s.completed ≡ true
      → Post' Finished' ((finalize_source e.source >> λ v. (ok (result s), v)) w)
  completed_post key s w (inr new) safe sound done =
      absurd (new_state-completed key (ap (λ (t : TxState). t.completed) (sym new) ∙ done))
  completed_post key s w (inl at) safe sound done =
      bind-Post log e.delete_semantics _ Finished' (finalize_source e.source w) _
        (finalize_source-Post log e.delete_semantics processor store consumers e o e.source s w refl
          (at, safe) done)
        λ _ v h. (s, refl, done, sound.acked done, h.0, h.1)

  take_processed_post :
      (key : String) (s : TxState) (w : W) (r : Result (ProcessedMail W) × W)
      → Known' key s w
      → Safe' w
      → s.completed ≡ false
      → s.source_deleted ≡ false
      → log r.1 ≡ note_process r.0 (log w)
      → ((m : ProcessedMail W) (v : W) → r.0 ≡ ok m → log (release m v).1 ≡ log v)
      → Post' Finished' (take_processed store consumers e s r)
  unfolding take_processed
  take_processed_post key s w (err x, v) known safe c d noted clean =
      elim (Bool-cases (is_skip x)) [
        | inl is ↦
            let noted' : log v ≡ skip_reported ∷ log w = rw (is, note_process) at noted in
            rw (is, take_processed)
              (skip_post s x v (ap skip_seen noted')
                (subst (Safe e.delete_semantics) (sym noted') (tt, safe)) c d)
        | inr not_skip ↦
            let noted' : log v ≡ processed ∷ log w = rw (not_skip, note_process) at noted in
            rw (not_skip, take_processed) (subst (Safe e.delete_semantics) (sym noted') (tt, safe))
      ]
  take_processed_post key s w (ok m, v) known safe c d noted clean =
      let safe' : Safe' v = subst (Safe e.delete_semantics) (sym noted) (tt, safe) in
      lift-Post log e.delete_semantics Finished' (validate_processed m) _ v safe' λ _ valid.
        let (r, u) = transact store consumers e s m v in
        relog_post r u (release m u).1 (clean m u refl) (
          transact_post log processor store consumers e o key m s v
            (Known_processed key s w v known noted) safe' c d valid)

  advance_post :
      (key : String) (s : TxState) (w : W)
      → Known' key s w
      → Safe' w
      → IsSound s
      → Post' Finished' (advance processor store consumers e s w)
  unfolding advance
  advance_post key s w known safe sound =
      if_rule (Post' Finished') s.completed (λ done. completed_post key s w known safe sound done)
        λ under.
          if_rule (Post' Finished') (needs_processing s)
            (λ needs.
              take_processed_post key s w (processor.process e w) known safe under
                (undeleted s sound needs) (o.process w) (λ m v q. o.cleanup m w v q))
            λ ready.
              finish_post log processor store consumers e o s w sound (ready-Delivered s ready) (
                Known-persisted log processor store consumers e o key s w known
                    (ready-Delivered s ready).0,
                safe,
              )

  loaded_post :
      (key : String) (w : W) (r : Result (Option TxState) × W)
      → Safe' w
      → log r.1 ≡ note_load r.0 (log w)
      → ((s : TxState) → r.0 ≡ ok (some s) → IsSound s)
      → Post'
          (λ found v.
            Known' key (loaded_state key found) v × Safe' v × IsSound (loaded_state key found))
          r
  unfolding loaded_state
  loaded_post key w (err x, v) safe q sound = subst (Safe e.delete_semantics) (sym q) safe
  loaded_post key w (ok none, v) safe q sound =
      (inr refl, subst (Safe e.delete_semantics) (sym q) (tt, safe), new_state-IsSound key)
  loaded_post key w (ok (some s), v) safe q sound =
      (inl (ap persisted q), subst (Safe e.delete_semantics) (sym q) (tt, safe), sound s refl)

  load_post :
      (key : String) (w : W)
      → Safe' w
      → ((s : TxState) → (store.load key w).0 ≡ ok (some s) → IsSound s)
      → Post'
          (λ found v.
            Known' key (loaded_state key found) v × Safe' v × IsSound (loaded_state key found))
          (store.load key w)
  load_post key w safe sound = loaded_post key w (store.load key w) safe (o.load key w) sound

  abbrev pub coordinator : Option (Coordinator W)
  coordinator =
      some (record { processor = some processor; store = some store; consumers = consumers })

  pub run_post :
      (w : W)
      → Safe' w
      → ((s : TxState)
          → (store.load (trim_space e.trace.transaction_key) w).0 ≡ ok (some s)
          → IsSound s)
      → Post' Finished' (run coordinator e w)
  unfolding run
  run_post w safe sound =
      lift-Post log e.delete_semantics Finished' (validate_envelope e) _ w safe λ _ _.
        bind-Post log e.delete_semantics _ Finished'
          (store.load (trim_space e.trace.transaction_key) w) _
          (load_post (trim_space e.trace.transaction_key) w safe sound)
          λ found v h. advance_post (trim_space e.trace.transaction_key) _ v (h.0) (h.1) (h.2)
