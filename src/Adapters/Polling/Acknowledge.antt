-- ===== src/Adapters/Polling/Acknowledge.antt =====
-- provider_polling_producer.go: what an acknowledgement does to the messages that are owed.
use mime_crypt.Base.{
  String, some, List, [], ◌∷◌, ◌++◌, ◌≡◌, refl, sym, ap, ◌∙◌, ◌⊎◌, inl, inr, arith, if◌then◌else◌,
}
use mathlib.Core.Path.{subst}
use mime_crypt.Base.Text.{eq_refl}
use mime_crypt.Base.Lists.{is_nil}
use mime_crypt.Base.Effect.{ok, err, After, bind-After}
use mime_crypt.Mailflow.Errors.{Error, Result}
use mime_crypt.Provider.Contracts.{Message, MailReader}
use mime_crypt.Fileutil.Stored.{Files, present}
use mime_crypt.Adapters.Polling.{
  PollingProducer, PollingState, state_or_new, without, acknowledged_state, save_state, load_state,
  remove_pending, acknowledge_pending,
}
use mime_crypt.Adapters.Polling.Feed.{Feed, remaining, outstanding}
use mime_crypt.Adapters.Polling.Progress.{Held, Held-Owes, saved-After, Loaded, read-Loaded}

first-without : (m : Message) (ms : List Message) → without m.id (m ∷ ms) ≡ some ms
unfolding without
first-without m ms = ground (arith, eq_refl m.id)

-- Without its first message, the producer owes the rest.
remaining-acknowledged :
    (s : PollingState) (ms : List Message) (u : String → List Message)
    → remaining (acknowledged_state s ms) u ≡ ms ++ u s.next_delta_link
remaining-acknowledged s [] u = refl
remaining-acknowledged s (m ∷ ms) u = refl

module _ {W : Type 0} (files : Files W PollingState) (reader : MailReader W) (p : PollingProducer W)
    (feed : Feed files reader p.folder) where
  abbrev owed : W → List Message
  owed w = outstanding files reader feed p.state_path w

  -- From `l`, the first message is done, or nothing is changed.
  abbrev pub Taken : Message → List Message → W → Type 0
  Taken m l v = l ≡ m ∷ owed v

  abbrev pub TakenOrNot : Message → List Message → Error → W → Type 0
  TakenOrNot m l _ v = (owed v ≡ l) ⊎ Taken m l v

  saved :
      (u : String → List Message) (s new : PollingState) (m : Message) (l : List Message)
      (r : Result (Unit {0}) × W)
      → remaining s u ≡ l
      → l ≡ m ∷ remaining new u
      → After
          (λ (_ : Unit {0}) v. Held files reader p feed (present new) u v)
          (λ _ v.
            Held files reader p feed (present s) u v ⊎ Held files reader p feed (present new) u v)
          r
      → After (λ (_ : Unit {0}) v. Taken m l v) (TakenOrNot m l) r
  saved u s new m l (ok a, v) old step h =
      step ∙ ap (λ x. m ∷ x) (sym (Held-Owes files reader p feed (present new) u v h))
  saved u s new m l (err x, v) old step (inl h) =
      inl (Held-Owes files reader p feed (present s) u v h ∙ old)
  saved u s new m l (err x, v) old step (inr h) =
      inr (step ∙ ap (λ x. m ∷ x) (sym (Held-Owes files reader p feed (present new) u v h)))

  forgiven :
      (s : PollingState) (u : String → List Message) (m : Message) (r : Result PollingState × W)
      → After
          (Loaded files reader p feed (present s) u)
          (λ (_ : Error) v. Held files reader p feed (present s) u v)
          r
      → After (Loaded files reader p feed (present s) u) (TakenOrNot m (remaining s u)) r
  forgiven s u m (ok a, v) h = h
  forgiven s u m (err e, v) h = inl (Held-Owes files reader p feed (present s) u v h)

  removed-After :
      (s : PollingState) (u : String → List Message) (m : Message) (ms : List Message) (v : W)
      → s.pending_messages ≡ m ∷ ms
      → Held files reader p feed (present s) u v
      → After
          (λ (_ : Unit {0}) w. Taken m (remaining s u) w)
          (TakenOrNot m (remaining s u))
          (remove_pending files p.state_path m.id s v)
  unfolding remove_pending
  removed-After s u m ms v e h =
      rw (ap (without m.id) e ∙ first-without m ms, remove_pending)
        (saved u s (acknowledged_state s ms) m (remaining s u)
          (save_state files p.state_path (acknowledged_state s ms) v) refl
          (ap (λ x. if is_nil x then u s.delta_link else x ++ u s.next_delta_link) e
            ∙ ap (λ x. m ∷ x) (sym (remaining-acknowledged s ms u)))
          (saved-After files reader p feed (present s) u (acknowledged_state s ms) v h))

  -- An acknowledgement of the first pending message that succeeds takes exactly this message from
  -- those that the producer owes; one that fails takes it, or leaves all as they were.
  pub acknowledge_pending-Taken :
      (w : W) (s : PollingState) (m : Message) (ms : List Message)
      → files.get p.state_path w ≡ present s
      → s.pending_messages ≡ m ∷ ms
      → After
          (λ (_ : Unit {0}) v. Taken m (remaining s (feed.unseen w)) v)
          (TakenOrNot m (remaining s (feed.unseen w)))
          (acknowledge_pending files p.state_path m.id w)
  unfolding acknowledge_pending
  acknowledge_pending-Taken w s m ms here e =
      let u = feed.unseen w in
      bind-After (Loaded files reader p feed (present s) u) _ _ (load_state files p.state_path w)
        (λ s. remove_pending files p.state_path m.id s)
        (forgiven s u m (load_state files p.state_path w)
          (read-Loaded files reader p feed (present s) u w (here, refl)))
        (λ x v k.
          subst
            (λ (x : PollingState).
              After (λ (_ : Unit {0}) w. Taken m (remaining s u) w) (TakenOrNot m (remaining s u))
                (remove_pending files p.state_path m.id x v))
            (sym (k.1 ∙ ap state_or_new (k.3))) (removed-After s u m ms v e (k.2)))
