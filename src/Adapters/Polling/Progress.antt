-- ===== src/Adapters/Polling/Progress.antt =====
-- provider_polling_producer.go: no message is lost, and they come in order.
use mime_crypt.Base.{
  String, true, false, Option, some, List, [], ◌∷◌, ◌++◌, ◌≡◌, refl, sym, ap, ◌∙◌, ◌⊎◌, inl, inr,
  not, ◌&&◌, if◌then◌else◌, if_rule, arith,
}
use mathlib.Core.Path.{subst}
use mime_crypt.Base.Text.{is_blank, is_empty, eq_iff}
use mime_crypt.Base.Lists.{is_nil}
use mime_crypt.Base.Effect.{ok, err, pure, raise, ◌>>=◌, ◌>>◌, Keeps, After, bind-After}
use mime_crypt.Mailflow.Errors.{Act, Error, Result, no_messages}
use mime_crypt.Mailflow.Ports.{MailEnvelope}
use mime_crypt.Provider.Contracts.{Message, MailReader}
use mime_crypt.Fileutil.Stored.{
  Files, Stored, missing, broken, present, read_state, Reads, read_state-After, write_state-After,
}
use mime_crypt.Adapters.Polling.{
  PollingProducer, PollingState, no_state, state_or_new, settled_at, load_state, save_state,
  polling_envelope, next_page, deliver_page, is_bootstrap, after_page, advance_polling, next_polled,
  next_from,
}
use mime_crypt.Adapters.Polling.Feed.{Feed, remaining, outstanding_in, outstanding, skips_existing}

true-ne-false : true ≡ false → ⊥
true-ne-false h = cc

module _ {W : Type 0} (files : Files W PollingState) (reader : MailReader W) (p : PollingProducer W)
    (feed : Feed files reader p.folder) where
  abbrev pub path : String
  path = p.state_path

  -- The state file and the messages of the service are these.
  abbrev pub Held : Stored PollingState → (String → List Message) → W → Type 0
  Held st u w = (files.get path w ≡ st) × (feed.unseen w ≡ u)

  pub call_quiet :
      (st : Stored PollingState) (u : String → List Message) → Keeps (Held st u) files.call
  call_quiet st u = record { at = λ w h. (files.get-call path w ∙ h.0, feed.unseen-call w ∙ h.1) }

  written :
      (st : Stored PollingState) (u : String → List Message) (s : PollingState) (w : W)
      → Held st u w
      → Held (present s) u (files.put path (present s) w)
  written st u s w h = (
    files.get-put path path (present s) w ∙ ground (arith, eq_iff path path),
    feed.unseen-put path (present s) w ∙ h.1,
  )

  -- The producer still has these messages to deliver.
  abbrev pub Owes : List Message → W → Type 0
  Owes l w = outstanding files reader feed path w ≡ l

  pub Held-Owes :
      (st : Stored PollingState) (u : String → List Message) (w : W)
      → Held st u w
      → Owes (outstanding_in st u) w
  Held-Owes st u w h = rw (h.0, h.1) refl

  pub saved-After :
      (st : Stored PollingState) (u : String → List Message) (s : PollingState) (w : W)
      → Held st u w
      → After
          (λ (_ : Unit {0}) v. Held (present s) u v)
          (λ _ v. Held st u v ⊎ Held (present s) u v)
          (save_state files path s w)
  unfolding save_state
  saved-After st u s w h =
      write_state-After files (Held st u) (Held (present s) u) (call_quiet st u)
        (call_quiet (present s) u) path _ _ s w (written st u s) h

  -- The message that is offered is the first of those that are owed, and the state file says so.
  abbrev pub Offers : List Message → MailEnvelope W → W → Type 0
  Offers l e v =
      (s : PollingState) × (m : Message) × (ms : List Message) × (e
        ≡ polling_envelope files p reader m)
      × (files.get path v ≡ present s)
      × (s.pending_messages ≡ m ∷ ms)
      × (l ≡ m ∷ (ms ++ feed.unseen v s.next_delta_link))

  abbrev pub Good : List Message → MailEnvelope W → W → Type 0
  Good l e v = Owes l v × Offers l e v

  abbrev pub Bad : List Message → Error → W → Type 0
  Bad l _ v = Owes l v

  owing :
      (st : Stored PollingState) (u : String → List Message) (s : PollingState) (l : List Message)
      (r : Result (Unit {0}) × W)
      → outstanding_in st u ≡ l
      → remaining s u ≡ l
      → After
          (λ (_ : Unit {0}) v. Held (present s) u v)
          (λ _ v. Held st u v ⊎ Held (present s) u v)
          r
      → After (λ (_ : Unit {0}) v. Held (present s) u v) (Bad l) r
  owing st u s l (ok a, v) old new h = h
  owing st u s l (err x, v) old new (inl h) = Held-Owes st u v h ∙ old
  owing st u s l (err x, v) old new (inr h) = Held-Owes (present s) u v h ∙ new

  -- A save of a state that owes the same: an error leaves the debt as it is.
  saved_owes :
      {B : Type 0} (st : Stored PollingState) (u : String → List Message) (s : PollingState)
      (l : List Message) (k : Act W B) (Q : B → W → Type 0) (w : W)
      → Held st u w
      → outstanding_in st u ≡ l
      → remaining s u ≡ l
      → ((v : W) → Held (present s) u v → After Q (Bad l) (k v))
      → After Q (Bad l) ((save_state files path s >> k) w)
  saved_owes st u s l k Q w h old new rest =
      bind-After (λ _ v. Held (present s) u v) Q (Bad l) (save_state files path s w) (λ _. k)
        (owing st u s l (save_state files path s w) old new (saved-After st u s w h))
        (λ _ v g. rest v g)

  settled-After :
      (st : Stored PollingState) (u : String → List Message) (link : String) (l : List Message)
      (w : W)
      → Held st u w
      → outstanding_in st u ≡ l
      → u link ≡ l
      → After (Good l) (Bad l) ((save_state files path (settled_at link) >> raise no_messages) w)
  settled-After st u link l w h old new =
      saved_owes st u (settled_at link) l (raise no_messages) (Good l) w h old new
        λ v k. Held-Owes (present (settled_at link)) u v k ∙ new

  -- A page that is new.
  fresh-After :
      (st : Stored PollingState) (u : String → List Message) (s : PollingState) (ms : List Message)
      (link : String) (l : List Message) (w : W)
      → is_nil s.pending_messages ≡ true
      → Held st u w
      → outstanding_in st u ≡ l
      → ms ++ u link ≡ l
      → After (Good l) (Bad l) (deliver_page files p reader s ms link w)
  unfolding deliver_page
  fresh-After st u s [] link l w nil h old new = settled-After st u link l w h old new
  fresh-After st u s (m ∷ ms) link l w nil h old new =
      rw (nil, if◌then◌else◌)
        (saved_owes st u (record s { next_delta_link = link; pending_messages = m ∷ ms }) l
          (pure (polling_envelope files p reader m)) (Good l) w h old new
          λ v k. (
            Held-Owes _ u v k ∙ new,
            (
              record s { next_delta_link = link; pending_messages = m ∷ ms },
              m,
              ms,
              refl,
              k.0,
              refl,
              sym new ∙ ap (λ f. m ∷ (ms ++ f link)) (sym (k.1)),
            ),
          ))

  -- A page that is pending.
  pending-After :
      (u : String → List Message) (s : PollingState) (m : Message) (ms : List Message)
      (l : List Message) (w : W)
      → s.pending_messages ≡ m ∷ ms
      → Held (present s) u w
      → remaining s u ≡ l
      → After (Good l) (Bad l) (deliver_page files p reader s (m ∷ ms) s.next_delta_link w)
  unfolding deliver_page
  pending-After u s m ms l w e h new =
      rw (ap is_nil e, if◌then◌else◌)
        (
          Held-Owes (present s) u w h ∙ new,
          (
            s,
            m,
            ms,
            refl,
            h.0,
            e,
            sym new
                ∙ (ap (λ x. if is_nil x then u s.delta_link else x ++ u s.next_delta_link) e
                    ∙ ap (λ f. m ∷ (ms ++ f s.next_delta_link)) (sym (h.1))),
          ),
        )

  abbrev Page :
      Stored PollingState
      → (String → List Message)
      → PollingState
      → List Message × String
      → W
      → Type 0
  Page st u s r v = Held st u v × (u s.delta_link ≡ r.0 ++ u r.1)

  queried-After :
      (st : Stored PollingState) (u : String → List Message) (s : PollingState) (l : List Message)
      (w : W) (r : Result (List Message × String) × W)
      → Held st u w
      → outstanding_in st u ≡ l
      → After
          (λ r v.
            (files.get path v ≡ files.get path w)
            × (feed.unseen v ≡ feed.unseen w)
            × (feed.unseen w s.delta_link ≡ r.0 ++ feed.unseen w r.1))
          (λ (_ : Error) v. (files.get path v ≡ files.get path w) × (feed.unseen v ≡ feed.unseen w))
          r
      → After (Page st u s) (Bad l) r
  queried-After st u s l w (ok (ms, link), v) h old g = (
    (g.0 ∙ h.0, g.1 ∙ h.1),
    ap (λ f. f s.delta_link) (sym (h.1)) ∙ (g.2 ∙ ap (λ f. ms ++ f link) (h.1)),
  )
  queried-After st u s l w (err x, v) h old g = Held-Owes st u v (g.0 ∙ h.0, g.1 ∙ h.1) ∙ old

  query-After :
      (st : Stored PollingState) (u : String → List Message) (s : PollingState) (l : List Message)
      (w : W)
      → is_nil s.pending_messages ≡ true
      → (is_bootstrap s && not p.include_existing) ≡ false
      → Held st u w
      → outstanding_in st u ≡ l
      → u s.delta_link ≡ l
      → After (Good l) (Bad l) (advance_polling files p reader s w)
  unfolding advance_polling next_page after_page
  query-After st u s l w nil going h old new =
      rw (nil, if◌then◌else◌)
        (bind-After (Page st u s) (Good l) (Bad l)
          (reader.delta_created_messages p.folder s.delta_link w) (after_page files p reader s)
          (queried-After st u s l w (reader.delta_created_messages p.folder s.delta_link w) h old
            (feed.delta s.delta_link path w))
          (λ r v k.
            rw (going, if◌then◌else◌)
              (fresh-After st u s (r.0) (r.1) l v nil (k.0) old (sym (k.1) ∙ new))))

  abbrev Pending : (String → List Message) → PollingState → List Message × String → W → Type 0
  Pending u s r v = (r ≡ (s.pending_messages, s.next_delta_link)) × Held (present s) u v

  kept_page-After :
      (u : String → List Message) (s : PollingState) (l : List Message) (w : W)
      → is_nil s.pending_messages ≡ false
      → Held (present s) u w
      → remaining s u ≡ l
      → After (Pending u s) (Bad l) (next_page files p reader s w)
  unfolding next_page
  kept_page-After u s l w full h new =
      if_rule (λ (a : Act W (List Message × String)). After (Pending u s) (Bad l) (a w))
        (is_nil s.pending_messages) (λ nil. absurd (true-ne-false (sym nil ∙ full)))
        (λ _.
          if_rule (λ (a : Act W (List Message × String)). After (Pending u s) (Bad l) (a w))
            (is_empty s.next_delta_link) (λ _. Held-Owes (present s) u w h ∙ new) (λ _. (refl, h)))

  no_bootstrap :
      (s : PollingState)
      → is_nil s.pending_messages ≡ false
      → (is_bootstrap s && not p.include_existing) ≡ false
  no_bootstrap s full = ground arith

  page-After :
      (u : String → List Message) (s : PollingState) (m : Message) (ms : List Message)
      (l : List Message) (w : W)
      → s.pending_messages ≡ m ∷ ms
      → Held (present s) u w
      → remaining s u ≡ l
      → After (Good l) (Bad l) (after_page files p reader s (m ∷ ms, s.next_delta_link) w)
  unfolding after_page
  page-After u s m ms l w e h new =
      rw (no_bootstrap s (ap is_nil e), if◌then◌else◌) (pending-After u s m ms l w e h new)

  paged-After :
      (u : String → List Message) (s : PollingState) (m : Message) (ms : List Message)
      (l : List Message) (w : W)
      → s.pending_messages ≡ m ∷ ms
      → Held (present s) u w
      → remaining s u ≡ l
      → After (Good l) (Bad l) (advance_polling files p reader s w)
  unfolding advance_polling
  paged-After u s m ms l w e h new =
      bind-After (Pending u s) (Good l) (Bad l) (next_page files p reader s w)
        (after_page files p reader s) (kept_page-After u s l w (ap is_nil e) h new)
        λ r v k.
          subst
            (λ (r : List Message × String).
              After (Good l) (Bad l) (after_page files p reader s r v))
            (sym (k.0 ∙ ap (λ x. (x, s.next_delta_link)) e)) (page-After u s m ms l v e (k.1) new)

  present-After :
      (u : String → List Message) (s : PollingState) (ms : List Message) (w : W)
      → s.pending_messages ≡ ms
      → (is_bootstrap s && not p.include_existing) ≡ false
      → Held (present s) u w
      → After (Good (remaining s u)) (Bad (remaining s u)) (advance_polling files p reader s w)
  present-After u s [] w e going h =
      query-After (present s) u s (remaining s u) w (ap is_nil e) going h refl
        (ap (λ x. if is_nil x then u s.delta_link else x ++ u s.next_delta_link) (sym e))
  present-After u s (m ∷ ms) w e going h = paged-After u s m ms (remaining s u) w e h refl

  found-After :
      (st : Stored PollingState) (u : String → List Message) (o : Option PollingState) (w : W)
      → Reads files st o
      → skips_existing p st ≡ false
      → Held st u w
      → After
          (Good (outstanding_in st u))
          (Bad (outstanding_in st u))
          (advance_polling files p reader (state_or_new o) w)
  found-After missing u o w r going h =
      rw r (query-After missing u no_state (u "") w refl going h refl refl)
  found-After broken u o w r going h = absurd r
  found-After (present s) u o w r going h =
      rw r (present-After u s s.pending_messages w refl going h)

  -- What a load has found.
  abbrev pub Loaded : Stored PollingState → (String → List Message) → PollingState → W → Type 0
  Loaded st u s v =
      (o : Option PollingState) × (s ≡ state_or_new o) × Held st u v × Reads files st o

  pub read-Loaded :
      (st : Stored PollingState) (u : String → List Message) (w : W)
      → Held st u w
      → After (Loaded st u) (λ (_ : Error) v. Held st u v) (load_state files path w)
  unfolding load_state
  read-Loaded st u w h =
      bind-After (λ o v. Held st u v × Reads files st o) (Loaded st u) (λ _ v. Held st u v)
        (read_state files path "读取 producer 状态失败" "解析 producer 状态失败" w) (λ o. pure (state_or_new o))
        (read_state-After files (Held st u) (call_quiet st u) path _ _ st w (λ w k. k.0) h)
        (λ o v k. (o, refl, k.0, k.1))

  forgiven :
      (st : Stored PollingState) (u : String → List Message) (r : Result PollingState × W)
      → After (Loaded st u) (λ (_ : Error) v. Held st u v) r
      → After (Loaded st u) (Bad (outstanding_in st u)) r
  forgiven st u (ok s, v) h = h
  forgiven st u (err e, v) h = Held-Owes st u v h

  loaded-After :
      (st : Stored PollingState) (u : String → List Message) (w : W)
      → skips_existing p st ≡ false
      → Held st u w
      → After
          (Good (outstanding_in st u))
          (Bad (outstanding_in st u))
          ((load_state files path >>= advance_polling files p reader) w)
  loaded-After st u w going h =
      bind-After (Loaded st u) (Good (outstanding_in st u)) (Bad (outstanding_in st u))
        (load_state files path w) (advance_polling files p reader)
        (forgiven st u (load_state files path w) (read-Loaded st u w h))
        (λ s v k.
          subst
            (λ (x : PollingState).
              After (Good (outstanding_in st u)) (Bad (outstanding_in st u))
                (advance_polling files p reader x v))
            (sym (k.1)) (found-After st u (k.0) v (k.3) going (k.2)))

  -- However a call of Next ends, with a message, with none or with an error, the producer still
  -- owes the messages that it owed before; and the message that it offers is the first of them,
  -- and stands first among the pending messages of the state file. This is so of each producer
  -- with a reader and a state path, except on a first run that is to skip what exists.
  pub next_polled-Offers :
      (w : W)
      → p.reader ≡ some reader
      → is_blank path ≡ false
      → skips_existing p (files.get path w) ≡ false
      → After
          (Good (outstanding files reader feed path w))
          (Bad (outstanding files reader feed path w))
          (next_polled files p w)
  unfolding next_polled next_from
  next_polled-Offers w r b going =
      subst
        (λ (o : Option (MailReader W)).
          After (Good (outstanding files reader feed path w))
            (Bad (outstanding files reader feed path w)) (next_from files p o w))
        (sym r)
        (rw (b, if◌then◌else◌)
          (loaded-After (files.get path w) (feed.unseen w) w going (refl, refl)))
