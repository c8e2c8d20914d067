-- ===== src/Adapters/Consumers/Saved.antt =====
-- file_consumer.go: a message that is delivered to a directory is there, whole.
use mime_crypt.Base.{
  ℕ, String, none, some, List, ◌≡◌, refl, ap, ◌∙◌, ◌⊎◌, inl, inr, if◌then◌else◌, if_rule,
}
use mime_crypt.Base.Text.{◌==◌, trim_space, is_blank}
use mime_crypt.Base.Effect.{ok, err, Keeps, After, bind-After, pure}
use mime_crypt.Mailflow.Errors.{Act, Error, Result, reword, wrapped, wrapping}
use mime_crypt.Mailflow.Types.{MailTrace, DeliveryTarget, DeliveryReceipt}
use mime_crypt.Mailflow.Plan.{target_key}
use mime_crypt.Mailflow.Ports.{Reader, Opener}
use mime_crypt.Fileutil.{write_file_atomic}
use mime_crypt.Fileutil.Stored.{Files, Stored, present, call-Keeps}
use mime_crypt.Fileutil.Whole.{write_file-Written}
use mime_crypt.Appconfig.Platform.{Platform}
use mime_crypt.Mimefile.{save_to_output_dir, message_path}
use mime_crypt.Adapters.Consumers.{saved_message, saved_receipt, save_opened, consume_file}

-- What stands under each path
abbrev pub FileMap : Type 0
FileMap = String → Stored (List ℕ)

abbrev pub with_file : String → List ℕ → FileMap → FileMap
with_file path bytes m q = if path == q then present bytes else m q

module _ (os : Platform) (format_time : ℕ → String) {W : Type 0} (files : Files W (List ℕ))
    (dir : String) (trace : MailTrace) (t : DeliveryTarget) (m : FileMap) where
  -- The world holds this map.
  abbrev pub Is : FileMap → W → Type 0
  Is m w = (q : String) → files.get q w ≡ m q

  quiet : (m : FileMap) → Keeps (Is m) files.call
  quiet m = record { at = λ w h q. files.get-call q w ∙ h q }

  put_file :
      (path : String) (bytes : List ℕ) (w : W)
      → Is m w
      → Is (with_file path bytes m) (files.put path (present bytes) w)
  put_file path bytes w h q =
      files.get-put path q (present bytes) w
      ∙ ap (λ x. if path == q then present bytes else x) (h q)

  abbrev pub path : String
  path = message_path os format_time files (trim_space dir) (saved_message trace)

  -- The file that is new is the whole of what this reader delivers.
  abbrev pub Saved : Reader → W → Type 0
  Saved r v = Is (with_file path r.bytes m) v × (r.failure ≡ none)

  reword-After :
      {A : Type 0} (R : A → W → Type 0) (X : W → Type 0) (c : Error → Error) (r : Result A × W)
      → After R (λ _ v. X v) r
      → After R (λ _ v. X v) (reword c r)
  reword-After R X c (ok a, v) h = h
  reword-After R X c (err e, v) h = h

  made_directory :
      (r : Reader) (context : String) (w : W)
      → Is m w
      → After (λ _ v. Is m v) (λ _ v. Is m v ⊎ Saved r v) (wrapping (wrapped context) files.call w)
  made_directory r context w h =
      go (wrapping (wrapped context) files.call w)
        ((call-Keeps files (Is m) (quiet m) (wrapped context)).at w h)
    where
      go :
          (c : Result (Unit {0}) × W)
          → Is m c.1
          → After (λ _ v. Is m v) (λ _ v. Is m v ⊎ Saved r v) c
      go (ok a, v) k = k
      go (err e, v) k = inl k

  save-Saved :
      (r : Reader) (w : W)
      → Is m w
      → After
          (λ (saved : String × ℕ) v. (saved.0 ≡ path) × Saved r v)
          (λ _ v. Is m v ⊎ Saved r v)
          (save_to_output_dir os format_time files (trim_space dir) (saved_message trace) r w)
  unfolding save_to_output_dir
  save-Saved r w h =
      bind-After (λ _ v. Is m v) (λ (saved : String × ℕ) v. (saved.0 ≡ path) × Saved r v)
        (λ _ v. Is m v ⊎ Saved r v) _ _ (made_directory r "创建输出目录失败" w h)
        λ _ v k.
          bind-After (λ (_ : ℕ) u. Saved r u)
            (λ (saved : String × ℕ) u. (saved.0 ≡ path) × Saved r u) (λ _ u. Is m u ⊎ Saved r u)
            (wrapping (wrapped "写入 MIME 流到文件失败")
              (write_file_atomic files.call (files.put path (present r.bytes)) (some r)) v)
            (λ n. pure (path, n))
            (reword-After (λ (_ : ℕ) u. Saved r u) (λ u. Is m u ⊎ Saved r u) _ _
              (write_file-Written files (Is m) (Is (with_file path r.bytes m)) (quiet m)
                (quiet (with_file path r.bytes m)) r (files.put path (present r.bytes)) v
                (put_file path r.bytes) k))
            λ n u g. (refl, g)

  module _ (R : Reader → Type 0) where
    -- The file is the whole of a reader that the opener gave.
    abbrev pub Delivered : W → Type 0
    Delivered v = (r : Reader) × (R r × Saved r v)

    abbrev pub Receipted : DeliveryReceipt → W → Type 0
    Receipted receipt v = (receipt.id ≡ path) × ((receipt.target ≡ target_key t) × Delivered v)

    with_reader :
        (r : Reader)
        → R r
        → (c : Result (String × ℕ) × W)
        → After
            (λ (saved : String × ℕ) v. (saved.0 ≡ path) × Saved r v)
            (λ _ v. Is m v ⊎ Saved r v)
            c
        → After
            (λ (saved : String × ℕ) v. (saved.0 ≡ path) × Saved r v)
            (λ _ v. Is m v ⊎ Delivered v)
            c
    with_reader r given (ok a, v) k = k
    with_reader r given (err e, v) (inl k) = inl k
    with_reader r given (err e, v) (inr k) = inr (r, (given, k))

    save_opened-Receipted :
        (r : Reader) (w : W)
        → R r
        → Is m w
        → After Receipted
            (λ _ v. Is m v ⊎ Delivered v)
            (save_opened os format_time files (trim_space dir) trace t r w)
    unfolding save_opened
    save_opened-Receipted r w given h =
        bind-After (λ (saved : String × ℕ) v. (saved.0 ≡ path) × Saved r v) Receipted
          (λ _ v. Is m v ⊎ Delivered v)
          (save_to_output_dir os format_time files (trim_space dir) (saved_message trace) r w)
          (λ saved. pure (saved_receipt os format_time files t (trim_space dir) saved))
          (with_reader r given _ (save-Saved r w h)) λ saved v g. (g.0, (refl, (r, (given, g.1))))

    opened :
        (c : Error → Error) (a : Result Reader × W)
        → After (λ r v. R r × Is m v) (λ _ v. Is m v) a
        → After (λ r v. R r × Is m v) (λ _ v. Is m v ⊎ Delivered v) (reword c a)
    opened c (ok r, v) h = h
    opened c (err e, v) h = inl h

    -- A message that FileConsumer delivers is in its file: the receipt names the path and the
    -- target's key, under the path stand all the bytes of a reader that the opener gave, which was
    -- read to its end, and no other file is changed. Where the delivery fails, it has done just that
    -- to the files or changed none. The opener itself changes no file.
    pub consume_file-Receipted :
        (opener : Opener W) (w : W)
        → ((v : W) → Is m v → After (λ r u. R r × Is m u) (λ _ u. Is m u) (opener v))
        → Is m w
        → After Receipted
            (λ _ v. Is m v ⊎ Delivered v)
            (consume_file os format_time files dir opener trace t w)
    unfolding consume_file
    consume_file-Receipted opener w opening h =
        if_rule (λ (a : Act W DeliveryReceipt). After Receipted (λ _ v. Is m v ⊎ Delivered v) (a w))
          (is_blank dir) (λ _. inl h)
          (λ _.
            bind-After (λ r v. R r × Is m v) Receipted (λ _ v. Is m v ⊎ Delivered v)
              (wrapping (wrapped "打开邮件对象 MIME 失败") opener w)
              (save_opened os format_time files (trim_space dir) trace t)
              (opened (wrapped "打开邮件对象 MIME 失败") (opener w) (opening w h))
              λ r v g. save_opened-Receipted r v (g.0) (g.1))
