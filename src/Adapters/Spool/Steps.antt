-- ===== src/Adapters/Spool/Steps.antt =====
-- push_spool.go: the steps that leave the queued messages alone, whatever calls of the operating
-- system fail.
use mime_crypt.Base.{ℕ, suc, String, Option, none, some, [], ◌∷◌, inl, inr, Option-cases}
use mime_crypt.Base.Assoc.{Assoc}
use mime_crypt.Base.Effect.{
  ok, err, pure, raise, Keeps, Keeps-bind, keeps_rules, Keeps-then, Keeps-if, Keeps-pure,
}
use mime_crypt.Mailflow.Errors.{Act, Result, Error, reword, wrapping}
use mime_crypt.Mailflow.Ports.{Reader}
use mime_crypt.Fileutil.{write_file_atomic, copy, sync_dir}
use mime_crypt.Adapters.Spool.Disk.{
  Node, file, dir, Disk, PushSpool, SeenMarker, sys, ensure_dirs, is_dir, found_dir, stat_dir,
  has_queued_message, read_meta,
}
use mime_crypt.Adapters.Spool.Queue.{has_fresh_seen_marker, candidates}

-- A property of the disk that does not look at the count of calls.
abbrev pub Blind : (Disk → Type 0) → Type 0
Blind P = (d : Disk) (n : ℕ) → P d → P (record d { calls = n })

module _ (P : Disk → Type 0) (blind : Blind P) where
  reword_keeps : {A : Type 0} (c : Error → Error) (r : Result A × Disk) → P r.1 → P (reword c r).1
  reword_keeps c (ok a, d) h = h
  reword_keeps c (err e, d) h = h

  pub wrapping-Keeps :
      {A : Type 0} (c : Error → Error) (m : Act Disk A) → Keeps P m → Keeps P (wrapping c m)
  wrapping-Keeps c m k = record { at = λ d h. reword_keeps c (m d) (k.at d h) }

  sys_keeps_at : (d : Disk) → P d → P (sys d).1
  unfolding sys
  sys_keeps_at d h = elim (Option-cases (d.faults d.calls)) [
    | inl well ↦ rw (well, sys) (blind d (suc d.calls) h)
    | inr (n, bad) ↦ rw (bad, sys) (blind d (suc d.calls) h)
  ]

  pub sys-Keeps : Keeps P sys
  sys-Keeps = record { at = sys_keeps_at }

  pub ensure_dirs-Keeps : (s : PushSpool) → Keeps P (ensure_dirs s)
  unfolding ensure_dirs
  ensure_dirs-Keeps s = search (keeps_rules, wrapping-Keeps, sys-Keeps) depth 8

  pub read_meta-Keeps : (n : Option Node) → Keeps P (read_meta n)
  unfolding read_meta
  read_meta-Keeps none = search keeps_rules
  read_meta-Keeps (some file) = search keeps_rules
  read_meta-Keeps (some (dir none b)) = search keeps_rules
  read_meta-Keeps (some (dir (some none) b)) = search (keeps_rules, wrapping-Keeps, sys-Keeps)
  read_meta-Keeps (some (dir (some (some m)) b)) = search (keeps_rules, wrapping-Keeps, sys-Keeps)

  found_dir_keeps : (n : Option Node) (r : Result (Unit {0}) × Disk) → P r.1 → P (found_dir n r).1
  found_dir_keeps n (ok _, d) h = h
  found_dir_keeps n (err e, d) h = h

  stat_dir-Keeps : (n : Option Node) → Keeps P (stat_dir n)
  unfolding stat_dir
  stat_dir-Keeps n = record { at = λ d h. found_dir_keeps n (sys d) (sys-Keeps.at d h) }

  pub has_queued_message-Keeps : (key : String) → Keeps P (has_queued_message key)
  unfolding has_queued_message
  has_queued_message-Keeps key = search (keeps_rules, stat_dir-Keeps) depth 8

  failure-Keeps :
      (f : Option Error)
      → Keeps P (elim f as (λ _. Act Disk (Unit {0})) [ none ↦ pure tt | some e ↦ raise e ])
  failure-Keeps none = search keeps_rules
  failure-Keeps (some e) = search keeps_rules

  copy-Keeps : (r : Reader) → Keeps P (copy sys r)
  unfolding copy
  copy-Keeps r = Keeps-then sys _ sys-Keeps (failure-Keeps r.failure)

  sync_dir-Keeps : Keeps P (sync_dir sys)
  unfolding sync_dir
  sync_dir-Keeps = search (keeps_rules, sys-Keeps)

  same-Keeps : Keeps {E = Error} {A = Unit {0}} P (λ d. (ok tt, d))
  same-Keeps = record { at = λ d h. h }

  pub write-Keeps : (r : Option Reader) → Keeps P (write_file_atomic sys (λ d. d) r)
  unfolding write_file_atomic
  write-Keeps none = search keeps_rules
  write-Keeps (some r) =
      search (keeps_rules, wrapping-Keeps, sys-Keeps, copy-Keeps, sync_dir-Keeps, same-Keeps) depth
        24

  pub has_fresh_seen_marker-Keeps :
      (s : PushSpool) (m : Option (Option SeenMarker)) → Keeps P (has_fresh_seen_marker s m)
  unfolding has_fresh_seen_marker
  has_fresh_seen_marker-Keeps s none = search (keeps_rules, wrapping-Keeps, sys-Keeps)
  has_fresh_seen_marker-Keeps s (some none) = search (keeps_rules, wrapping-Keeps, sys-Keeps)
  has_fresh_seen_marker-Keeps s (some (some m)) = search (keeps_rules, wrapping-Keeps, sys-Keeps)

  pub candidates-Keeps : (m : Assoc Node) → Keeps P (candidates m)
  unfolding candidates
  candidates-Keeps [] = search keeps_rules
  candidates-Keeps ((key, n) ∷ rest) =
      let ih = candidates-Keeps rest in
      Keeps-if (is_dir (some n)) _ _
        (Keeps-bind (read_meta (some n)) _ (read_meta-Keeps (some n))
          λ meta. Keeps-bind (candidates rest) _ ih λ others. Keeps-pure _)
        ih
