-- ===== src/Fileutil/Stored.antt =====
-- How the program keeps a value in a JSON file: os.ReadFile with json.Unmarshal, and os.MkdirAll
-- with json.MarshalIndent and WriteFileAtomic, as file_store.go and provider_polling_producer.go
-- write it. Of a file only its value is kept, or that it does not parse.
use mime_crypt.Base.{
  ℕ, zero, String, Bool, true, false, Option, none, some, [], ◌∷◌, ◌≡◌, refl, ◌⊎◌, inl, inr,
  if◌then◌else◌,
}
use mime_crypt.Base.Text.{◌==◌}
use mime_crypt.Base.Lists.{length}
use mime_crypt.Base.Effect.{
  ok, err, pure, raise, ◌>>◌, Keeps, Keeps-then, Keeps-pure, Keeps-raise, After, bind-After,
  Keeps-After,
}
use mime_crypt.Mailflow.Errors.{Act, Result, Error, failed, wrapped, wrapping, reword, not_exist}
use mime_crypt.Mailflow.Ports.{Reader}
use mime_crypt.Fileutil.{write_file_atomic, copy, sync_dir}

pub data Stored (S : Type 0) : Type 0 where
  missing : Stored S
  broken : Stored S
  present : S → Stored S

abbrev pub is_missing : Result (Unit {0}) → Bool
is_missing (err not_exist) = true
is_missing _ = false

-- The files in a world `W` whose values have the type `S`, with one call of the operating system,
-- which may fail and changes no file. That a file is not there is told by the file, not by the call.
pub record Files (W S : Type 0) : Type 0 where
  pub get : String → W → Stored S
  pub put : String → Stored S → W → W
  pub call : Act W (Unit {0})
  pub get-put :
      (p q : String) (s : Stored S) (w : W) → get q (put p s w) ≡ (if p == q then s else get q w)
  pub get-call : (p : String) (w : W) → get p (call w).1 ≡ get p w
  pub call_found : (w : W) → is_missing (call w).0 ≡ false

module _ {W S : Type 0} (f : Files W S) where
  -- What Unmarshal makes of the text; `none` where there is no file.
  abbrev pub parsed : String → Stored S → Result (Option S)
  parsed unparsable missing = ok none
  parsed unparsable broken = err (failed unparsable)
  parsed unparsable (present s) = ok (some s)

  abbrev pub opened : String → String → String → Result (Unit {0}) × W → Result (Option S) × W
  opened path unreadable unparsable (ok _, w) = (parsed unparsable (f.get path w), w)
  opened path unreadable unparsable (err not_exist, w) = (ok none, w)
  opened path unreadable unparsable (err e, w) = (err (wrapped unreadable e), w)

  unfoldable pub read_state : String → String → String → Act W (Option S)
  read_state path unreadable unparsable w = opened path unreadable unparsable (f.call w)

  -- A text that stands for the value's JSON.
  abbrev pub json_text : Reader
  json_text = record { bytes = zero ∷ []; failure = none }

  unfoldable pub write_state : String → String → String → S → Act W (Unit {0})
  unfolding write_file_atomic
  write_state path no_directory unsaved s =
      wrapping (wrapped no_directory) f.call
      >> (wrapping (wrapped unsaved)
            (write_file_atomic f.call (f.put path (present s)) (some json_text))
          >> pure tt)

  -- What a read finds, if it succeeds.
  abbrev pub Reads : Stored S → Option S → Type 0
  Reads missing o = o ≡ none
  Reads broken o = ⊥
  Reads (present s) o = o ≡ some s

  module _ (P : W → Type 0) (quiet : Keeps P f.call) where
    parsed-After :
        (path unparsable : String) (st : Stored S) (w : W)
        → P w
        → After (λ o v. P v × Reads st o) (λ _ v. P v) (parsed unparsable st, w)
    parsed-After path unparsable missing w h = (h, refl)
    parsed-After path unparsable broken w h = h
    parsed-After path unparsable (present s) w h = (h, refl)

    opened-After :
        (path unreadable unparsable : String) (st : Stored S) (r : Result (Unit {0}) × W)
        → ((w : W) → P w → f.get path w ≡ st)
        → is_missing r.0 ≡ false
        → P r.1
        → After (λ o v. P v × Reads st o) (λ _ v. P v) (opened path unreadable unparsable r)
    opened-After path unreadable unparsable st (ok _, w) at found h =
        rw (at w h) (parsed-After path unparsable st w h)
    opened-After path unreadable unparsable st (err not_exist, w) at found h = cc
    opened-After path unreadable unparsable st (err e, w) at found h = h

    -- A read finds what is there, and changes nothing that a call does not change.
    pub read_state-After :
        (path unreadable unparsable : String) (st : Stored S) (w : W)
        → ((w : W) → P w → f.get path w ≡ st)
        → P w
        → After (λ o v. P v × Reads st o) (λ _ v. P v) (read_state path unreadable unparsable w)
    unfolding read_state
    read_state-After path unreadable unparsable st w at h =
        opened-After path unreadable unparsable st (f.call w) at (f.call_found w) (quiet.at w h)

    pub wrapping-Keeps :
        {A : Type 0} (c : Error → Error) (m : Act W A) → Keeps P m → Keeps P (wrapping c m)
    wrapping-Keeps {A} c m k = record { at = λ w h. go (m w) (k.at w h) }
      where
        go : (r : Result A × W) → P r.1 → P (reword c r).1
        go (ok a, v) h = h
        go (err e, v) h = h

    pub call-Keeps : (c : Error → Error) → Keeps P (wrapping c f.call)
    call-Keeps c = wrapping-Keeps c f.call quiet

  -- A write replaces the value, or fails before or after it has done so.
  module _ (P N : W → Type 0) (quiet : Keeps P f.call) (quiet' : Keeps N f.call) where
    abbrev Done : {A : Type 0} → A → W → Type 0
    Done _ v = N v

    abbrev Either : Error → W → Type 0
    Either _ v = P v ⊎ N v

    early :
        {A : Type 0} (r : Result A × W)
        → After (λ _ v. P v) (λ _ v. P v) r
        → After (λ _ v. P v) Either r
    early (ok a, v) h = h
    early (err e, v) h = inl h

    late : {A : Type 0} (r : Result A × W) → After (λ _ v. N v) (λ _ v. N v) r → After Done Either r
    late (ok a, v) h = h
    late (err e, v) h = inr h

    pub earlier :
        {A B : Type 0} (m : Act W A) (k : Act W B) (w : W)
        → Keeps P m
        → P w
        → ((v : W) → P v → After Done Either (k v))
        → After Done Either ((m >> k) w)
    earlier m k w q h rest =
        bind-After (λ _ v. P v) Done Either (m w) (λ _. k) (early (m w) (Keeps-After P m w q h))
          (λ _ v g. rest v g)

    pub wrapping-After :
        {A : Type 0} (c : Error → Error) (r : Result A × W)
        → After Done Either r
        → After Done Either (reword c r)
    wrapping-After c (ok a, v) h = h
    wrapping-After c (err e, v) h = h

    ending-Keeps :
        (o : Option Error)
        → Keeps P (elim o as (λ _. Act W (Unit {0})) [ none ↦ pure tt | some e ↦ raise e ])
    ending-Keeps none = Keeps-pure tt
    ending-Keeps (some e) = Keeps-raise e

    copy-Keeps : (r : Reader) → Keeps P (copy f.call r)
    unfolding copy
    copy-Keeps r = Keeps-then f.call _ quiet (ending-Keeps r.failure)

    sync_dir-Keeps : Keeps N (sync_dir f.call)
    unfolding sync_dir
    sync_dir-Keeps = Keeps-then f.call f.call quiet' quiet'

    -- From the rename on, the new value is there.
    commit-After :
        (n : ℕ) (g : W → W) (w : W)
        → ((v : W) → P v → N (g v))
        → P w
        → After
            (Done {A = ℕ})
            Either
            (((λ d. (ok tt, g d)) >> (wrapping (wrapped "同步目标目录失败") (sync_dir f.call) >> pure n)) w)
    commit-After n g w new h =
        late ((wrapping (wrapped "同步目标目录失败") (sync_dir f.call) >> pure n) (g w)) (
          Keeps-After N (wrapping (wrapped "同步目标目录失败") (sync_dir f.call) >> pure n) (g w)
            (Keeps-then _ _ (wrapping-Keeps N quiet' _ _ sync_dir-Keeps) (Keeps-pure n)) (new w h))

    pub write_file-After :
        (r : Reader) (g : W → W) (w : W)
        → ((v : W) → P v → N (g v))
        → P w
        → After (Done {A = ℕ}) Either (write_file_atomic f.call g (some r) w)
    unfolding write_file_atomic
    write_file-After r g w new h = earlier _ _ w (call-Keeps P quiet _) h λ a ha.
        earlier _ _ a (call-Keeps P quiet _) ha λ b hb.
          earlier _ _ b (wrapping-Keeps P quiet _ _ (copy-Keeps r)) hb λ c hc.
            earlier _ _ c (call-Keeps P quiet _) hc λ d hd.
              earlier _ _ d (call-Keeps P quiet _) hd λ e he.
                earlier _ _ e (call-Keeps P quiet _) he
                  λ v hv. commit-After (length r.bytes) g v new hv

    pub write_state-After :
        (path no_directory unsaved : String) (s : S) (w : W)
        → ((v : W) → P v → N (f.put path (present s) v))
        → P w
        → After
            (λ (_ : Unit {0}) v. N v)
            (λ _ v. P v ⊎ N v)
            (write_state path no_directory unsaved s w)
    unfolding write_state
    write_state-After path no_directory unsaved s w new h =
        earlier _ _ w (call-Keeps P quiet _) h λ v hv.
          bind-After (Done {A = ℕ}) (Done {A = Unit {0}}) Either
            (wrapping (wrapped unsaved)
              (write_file_atomic f.call (f.put path (present s)) (some json_text)) v)
            (λ _. pure tt)
            (wrapping-After _ _ (write_file-After json_text (f.put path (present s)) v new hv))
            (λ _ u k. k)
