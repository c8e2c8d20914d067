-- ===== src/Fileutil/Whole.antt =====
-- internal/fileutil/atomic.go: a file that WriteFileAtomic puts in place is whole.
use mime_crypt.Base.{ℕ, Option, none, some, List, ◌≡◌, refl, ◌⊎◌, inl, inr}
use mime_crypt.Base.Lists.{length}
use mime_crypt.Base.Effect.{ok, err, Keeps, Keeps-After, After, bind-After, ◌>>◌, raise, pure}
use mime_crypt.Mailflow.Errors.{Act, Error, Result, wrapped, wrapping, reword}
use mime_crypt.Mailflow.Ports.{Reader}
use mime_crypt.Fileutil.{write_file_atomic, copy, sync_dir}
use mime_crypt.Fileutil.Stored.{Files, call-Keeps, write_file-After}

module _ {W S : Type 0} (f : Files W S) (P N : W → Type 0) (quiet : Keeps P f.call)
    (quiet' : Keeps N f.call) where
  -- There is no success, and an error changes nothing.
  abbrev Fails : {A : Type 0} → Result A × W → Type 0
  Fails {A} r = After (λ (_ : A) _. ⊥) (λ _ v. P v) r

  step-Fails :
      {A B : Type 0} (m : Act W A) (k : Act W B) (w : W)
      → Keeps P m
      → P w
      → ((v : W) → P v → Fails (k v))
      → Fails ((m >> k) w)
  step-Fails m k w q h rest =
      bind-After (λ _ v. P v) (λ _ _. ⊥) (λ _ v. P v) (m w) (λ _. k) (Keeps-After P m w q h)
        λ _ v g. rest v g

  stop-Fails : {A B : Type 0} (m : Act W A) (k : Act W B) (w : W) → Fails (m w) → Fails ((m >> k) w)
  stop-Fails m k w h =
      bind-After (λ _ _. ⊥) (λ _ _. ⊥) (λ _ v. P v) (m w) (λ _. k) h λ _ v g. elim g [ ]

  reword-Fails : {A : Type 0} (c : Error → Error) (r : Result A × W) → Fails r → Fails (reword c r)
  reword-Fails c (ok a, v) h = h
  reword-Fails c (err e, v) h = h

  abbrev broken_off : List ℕ → Error → Reader
  broken_off bytes e = record { bytes = bytes; failure = some e }

  copy-Fails :
      (bytes : List ℕ) (e : Error) (w : W) → P w → Fails (copy f.call (broken_off bytes e) w)
  unfolding copy
  copy-Fails bytes e w h = step-Fails f.call (raise e) w quiet h λ v g. g

  -- WriteFileAtomic after the copy
  abbrev synced_and_moved : (W → W) → ℕ → Act W ℕ
  synced_and_moved g n = do
    wrapping (wrapped "同步临时文件失败") f.call
    wrapping (wrapped "关闭临时文件失败") f.call
    wrapping (wrapped "替换目标文件失败") f.call
    (λ d. (ok tt, g d))
    wrapping (wrapped "同步目标目录失败") (sync_dir f.call)
    pure n

  write-Fails :
      (bytes : List ℕ) (e : Error) (g : W → W) (w : W)
      → P w
      → Fails (write_file_atomic f.call g (some (broken_off bytes e)) w)
  unfolding write_file_atomic
  write-Fails bytes e g w h = step-Fails _ _ w (call-Keeps f P quiet _) h λ a ha.
      step-Fails _ _ a (call-Keeps f P quiet _) ha λ b hb.
        stop-Fails {B = ℕ} (wrapping (wrapped "写入临时文件失败") (copy f.call (broken_off bytes e)))
          (synced_and_moved g (length bytes)) b (reword-Fails _ _ (copy-Fails bytes e b hb))

  -- After success the source was read to its end.
  abbrev pub Written : {A : Type 0} → Option Error → Result A × W → Type 0
  Written {A} o r = After (λ (_ : A) v. N v × (o ≡ none)) (λ _ v. P v ⊎ (N v × (o ≡ none))) r

  ended :
      {A : Type 0} (r : Result A × W)
      → After (λ (_ : A) v. N v) (λ _ v. P v ⊎ N v) r
      → Written none r
  ended (ok a, v) h = (h, refl)
  ended (err e, v) (inl h) = inl h
  ended (err e, v) (inr h) = inr (h, refl)

  failed_early : {A : Type 0} (o : Option Error) (r : Result A × W) → Fails r → Written o r
  failed_early o (ok a, v) h = elim h [ ]
  failed_early o (err e, v) h = inl h

  write-Written :
      (bytes : List ℕ) (o : Option Error) (g : W → W) (w : W)
      → ((v : W) → P v → N (g v))
      → P w
      → Written o (write_file_atomic f.call g (some (record { bytes = bytes; failure = o })) w)
  write-Written bytes none g w new h =
      ended _
        (write_file-After f P N quiet quiet' (record { bytes = bytes; failure = none }) g w new h)
  write-Written bytes (some e) g w new h = failed_early (some e) _ (write-Fails bytes e g w h)

  -- WriteFileAtomic does what `g` does, with the whole of its source, or fails, before or after.
  pub write_file-Written :
      (r : Reader) (g : W → W) (w : W)
      → ((v : W) → P v → N (g v))
      → P w
      → Written r.failure (write_file_atomic f.call g (some r) w)
  write_file-Written r g w = write-Written r.bytes r.failure g w
