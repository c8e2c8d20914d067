-- ===== src/Adapters/Polling/Feed.antt =====
-- What a polling producer relies on in the mail service: a delta query returns the messages after
-- its cursor, or a first part of them with the cursor after that part.
use mime_crypt.Base.{String, Bool, false, List, [], ◌++◌, ◌≡◌, not, ◌&&◌, if◌then◌else◌}
use mime_crypt.Base.Lists.{is_nil}
use mime_crypt.Base.Effect.{After}
use mime_crypt.Mailflow.Errors.{Error}
use mime_crypt.Provider.Contracts.{Message, MailReader}
use mime_crypt.Fileutil.Stored.{Files, Stored, missing, broken, present}
use mime_crypt.Adapters.Polling.{PollingProducer, PollingState, no_state, is_bootstrap}

-- Of one folder: `unseen w link` are its messages after the cursor `link`, in the order in which the
-- service returns them; the empty cursor stands before all its messages.
pub record Feed {W : Type 0} (files : Files W PollingState) (reader : MailReader W)
    (folder : String) : Type 0 where
  pub unseen : W → String → List Message
  pub unseen-call : (w : W) → unseen (files.call w).1 ≡ unseen w
  pub unseen-put :
      (path : String) (s : Stored PollingState) (w : W) → unseen (files.put path s w) ≡ unseen w
  pub delta :
      (link path : String) (w : W)
      → After
          (λ r v.
            (files.get path v ≡ files.get path w)
            × (unseen v ≡ unseen w)
            × (unseen w link ≡ r.0 ++ unseen w r.1))
          (λ (_ : Error) v. (files.get path v ≡ files.get path w) × (unseen v ≡ unseen w))
          (reader.delta_created_messages folder link w)

-- The messages that a producer in this state still has to deliver.
abbrev pub remaining : PollingState → (String → List Message) → List Message
remaining s u =
    if is_nil s.pending_messages then u s.delta_link else s.pending_messages ++ u s.next_delta_link

abbrev pub outstanding_in : Stored PollingState → (String → List Message) → List Message
outstanding_in missing u = remaining no_state u
outstanding_in broken u = []
outstanding_in (present s) u = remaining s u

module _ {W : Type 0} (files : Files W PollingState) (reader : MailReader W) {folder : String}
    (feed : Feed files reader folder) where
  abbrev pub outstanding : String → W → List Message
  outstanding path w = outstanding_in (files.get path w) (feed.unseen w)

-- The first run of a producer that is not to deliver what it finds.
abbrev pub skips_existing : {W : Type 0} → PollingProducer W → Stored PollingState → Bool
skips_existing p missing = is_bootstrap no_state && not p.include_existing
skips_existing p broken = false
skips_existing p (present s) = is_bootstrap s && not p.include_existing
