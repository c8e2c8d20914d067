-- ===== src/Mailflow/Coordinator/Safety/Calls.antt =====
-- What each call of the coordinator's interfaces leaves in the journal.
use mime_crypt.Base.{true, Option, none, some, ◌∷◌, ◌≡◌, refl, sym, ap, ◌∙◌}
use mathlib.Core.Path.{subst}
use mime_crypt.Base.Assoc.{Assoc}
use mime_crypt.Base.Effect.{ok, err, continue, lift, ◌>>=◌}
use mime_crypt.Mailflow.Types.{DeleteSemantics, TxState}
use mime_crypt.Mailflow.Errors.{reword, Result, Error, Act}
use mime_crypt.Mailflow.Ports.{SourceHandle, Processor, Consumer, StateStore, MailEnvelope}
use mime_crypt.Mailflow.Coordinator.Finish.{
  persist, acknowledge_source, finalize_source, delete_now,
}
use mime_crypt.Mailflow.Coordinator.Journal.{
  Event, acknowledged, deleted, finalized, Journal, persisted, IsSound, Justified, Safe, note_save,
  Observes,
}

module _ {W : Type 0} (log : W → Journal) (sem : DeleteSemantics) where
  -- A result with its world: what holds after success; after an error the journal is still safe.
  abbrev pub Post : {A : Type 0} → (A → W → Type 0) → Result A × W → Type 0
  Post Q (ok a, w) = Q a w
  Post Q (err e, w) = Safe sem (log w)

  pub bind-Post :
      {A B : Type 0} (R : A → W → Type 0) (Q : B → W → Type 0) (r : Result A × W) (f : A → Act W B)
      → Post R r
      → ((a : A) (w : W) → R a w → Post Q (f a w))
      → Post Q (continue f r)
  bind-Post R Q (ok a, w) f h k = k a w h
  bind-Post R Q (err e, w) f h k = h

  pub weaken-Post :
      {A : Type 0} (R Q : A → W → Type 0) (r : Result A × W)
      → Post R r
      → ((a : A) (w : W) → R a w → Q a w)
      → Post Q r
  weaken-Post R Q (ok a, w) h k = k a w h
  weaken-Post R Q (err e, w) h k = h

  pub lift-Post :
      {A B : Type 0} (Q : B → W → Type 0) (r : Result A) (f : A → Act W B) (w : W)
      → Safe sem (log w)
      → ((a : A) → r ≡ ok a → Post Q (f a w))
      → Post Q ((lift r >>= f) w)
  lift-Post Q (ok a) f w h k = k a refl
  lift-Post Q (err e) f w h k = h

  -- The store holds this state, and the journal is safe.
  abbrev pub At : TxState → W → Type 0
  At s w = (persisted (log w) ≡ some s) × Safe sem (log w)

  -- The journal is safe, and is the former one with one more call.
  abbrev pub Noted : Event → W → W → Type 0
  Noted ev w v = log v ≡ ev ∷ log w

  reword-Post :
      {A : Type 0} (Q : A → W → Type 0) (c : Error → Error) (r : Result A × W)
      → Post Q r
      → Post Q (reword c r)
  reword-Post Q c (ok a, w) h = h
  reword-Post Q c (err e, w) h = h

  Noted-Post :
      {A : Type 0} (ev : Event) (w : W) (r : Result A × W)
      → Safe sem (log w)
      → Justified sem ev (log w)
      → Noted ev w r.1
      → Post (λ _ v. Noted ev w v) r
  Noted-Post ev w (ok a, v) safe j h = h
  Noted-Post ev w (err e, v) safe j h = subst (Safe sem) (sym h) (j, safe)

  At-same :
      {A : Type 0} (s : TxState) (w : W) (r : Result A × W)
      → Post (λ _ v. (persisted (log v) ≡ persisted (log w)) × Safe sem (log v)) r
      → persisted (log w) ≡ some s
      → Post (λ _ v. At s v) r
  At-same s w (ok a, v) h q = (h.0 ∙ q, h.1)
  At-same s w (err x, v) h q = h

  module _ (processor : Processor W) (store : StateStore W)
      (consumers : Assoc (Option (Consumer W))) (e : MailEnvelope W)
      (o : Observes log processor store consumers e) where
    pub save-Post :
        (s : TxState) (w : W) (r : Result (Unit {0}) × W)
        → log r.1 ≡ note_save s r.0 (log w)
        → IsSound s
        → Safe sem (log w)
        → Post (λ _ v. At s v) r
    save-Post s w (ok a, v) h sound safe = (ap persisted h, subst (Safe sem) (sym h) (sound, safe))
    save-Post s w (err x, v) h sound safe = subst (Safe sem) (sym h) safe

    pub persist-Post :
        (s : TxState) (w : W)
        → IsSound s
        → Safe sem (log w)
        → Post (λ t v. (t ≡ s) × At s v) (persist store s w)
    unfolding persist
    persist-Post s w sound safe =
        bind-Post (λ _ v. At s v) (λ t v. (t ≡ s) × At s v) (store.save s w) (λ _ v. (ok s, v))
          (save-Post s w (store.save s w) (o.save s w) sound safe) (λ _ v at. (refl, at))

    -- A call that the store does not see leaves the same state in the store.
    unseen-Post :
        {A : Type 0} (ev : Event) (w : W) (r : Result A × W)
        → persisted (ev ∷ log w) ≡ persisted (log w)
        → Safe sem (log w)
        → Justified sem ev (log w)
        → Noted ev w r.1
        → Post (λ _ v. (persisted (log v) ≡ persisted (log w)) × Safe sem (log v)) r
    unseen-Post ev w (ok a, v) same safe j h =
        (ap persisted h ∙ same, subst (Safe sem) (sym h) (j, safe))
    unseen-Post ev w (err x, v) same safe j h = subst (Safe sem) (sym h) (j, safe)

    pub acknowledge_source-Post :
        (source : Option (SourceHandle W)) (w : W)
        → e.source ≡ source
        → Safe sem (log w)
        → Justified sem acknowledged (log w)
        → Post
            (λ _ v. (persisted (log v) ≡ persisted (log w)) × Safe sem (log v))
            (acknowledge_source source w)
    unfolding acknowledge_source
    acknowledge_source-Post none w q safe j = (refl, safe)
    acknowledge_source-Post (some h) w q safe j =
        reword-Post _ _ (h.acknowledge w)
          (unseen-Post acknowledged w (h.acknowledge w) refl safe j (o.acknowledge h w q))

    finalize-Post :
        (h : SourceHandle W) (final : Option (Act W (Unit {0}))) (s : TxState) (w : W)
        → e.source ≡ some h
        → h.finalize ≡ final
        → At s w
        → s.completed ≡ true
        → Post (λ _ v. At s v) (finalize_source (some h) w)
    unfolding finalize_source
    finalize-Post h none s w q f at done = rw (f, finalize_source) at
    finalize-Post h (some act) s w q f at done =
        rw (f, finalize_source)
          (reword-Post _ _ (act w) (
            At-same s w (act w)
              (unseen-Post finalized w (act w) refl at.1 (s, at.0, done) (o.finalize h act w q f))
              at.0))

    pub finalize_source-Post :
        (source : Option (SourceHandle W)) (s : TxState) (w : W)
        → e.source ≡ source
        → At s w
        → s.completed ≡ true
        → Post (λ _ v. At s v) (finalize_source source w)
    unfolding finalize_source
    finalize_source-Post none s w q at done = at
    finalize_source-Post (some h) s w q at done = finalize-Post h h.finalize s w q refl at done

    delete-Post :
        (h : SourceHandle W) (del : Option (Act W (Unit {0}))) (s : TxState) (w : W)
        → e.source ≡ some h
        → h.delete ≡ del
        → At s w
        → Justified sem deleted (log w)
        → Post (λ _ v. At s v) (delete_now (some h) w)
    unfolding delete_now
    delete-Post h none s w q f at j = rw (f, delete_now) at.1
    delete-Post h (some act) s w q f at j =
        rw (f, delete_now)
          (reword-Post _ _ (act w) (
            At-same s w (act w) (unseen-Post deleted w (act w) refl at.1 j (o.delete h act w q f))
              at.0))

    pub delete_now-Post :
        (source : Option (SourceHandle W)) (s : TxState) (w : W)
        → e.source ≡ source
        → At s w
        → Justified sem deleted (log w)
        → Post (λ _ v. At s v) (delete_now source w)
    unfolding delete_now
    delete_now-Post none s w q at j = at.1
    delete_now-Post (some h) s w q at j = delete-Post h h.delete s w q refl at j
