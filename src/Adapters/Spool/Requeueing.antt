-- ===== src/Adapters/Spool/Requeueing.antt =====
-- push_spool.go, RequeueProcessing: a message that waits in pending waits still.
use mime_crypt.Base.{
  String, Option, none, some, [], ◌∷◌, ◌≡◌, refl, sym, ap, ◌∙◌, inl, inr, Bool-cases, if◌then◌else◌,
  if_rule,
}
use mime_crypt.Base.Text.{◌==◌, eq_iff}
use mime_crypt.Base.Assoc.{Assoc, lookup, lookup-insert, lookup-remove}
use mime_crypt.Base.Effect.{ok, err, After, bind-After, within, continue}
use mime_crypt.Mailflow.Errors.{
  Result, Act, is_no_messages, failed, no_messages, skip_message, skip_error, wrapped, external,
  not_exist, already_exists,
}
use mime_crypt.Adapters.Spool.Disk.{
  Node, file, dir, Disk, PushSpool, sys, act, is_dir, rename_node, place, blocks, to_pending,
}
use mime_crypt.Adapters.Spool.Steps.{Blind, sys-Keeps}
use mime_crypt.Adapters.Spool.Ack.{
  requeue_node, requeue_one, requeue_all, requeue_processing, unless_gone,
}
use mime_crypt.Adapters.Spool.Waiting.{
  Waits, waits_blind, Still, GoesOn, sys-GoesOn, then-Still, ensure_dirs-Still, call-Still,
}

module _ (key : String) where
  abbrev W : Disk → Type 0
  W = Waits key

  -- The message waits, and this node stands in processing under the name.
  abbrev At : String → Node → Disk → Type 0
  At c n d = Waits key d × (lookup c d.processing ≡ some n)

  at_blind : (c : String) (n : Node) → Blind (At c n)
  at_blind c n d k h = h

  to_pending-Waits : (c : String) (n : Node) (d : Disk) → At c n d → W (to_pending c n d)
  to_pending-Waits c n d ((there, free), h) = elim (Bool-cases (c == key)) [
    | inl same ↦
        let e = (eq_iff c key).0 same in
        let x = sym h ∙ ap (λ k. lookup k d.processing) e ∙ free in cc
    | inr other ↦ (
      rw (lookup-insert c key n d.pending, other, if◌then◌else◌) there,
      rw (lookup-remove c key d.processing, other, if◌then◌else◌) free,
    )
  ]

  place-Waits :
      (c : String) (n : Node) (q : Option Node) (v : Disk)
      → At c n v
      → After (λ _ v. W v) (GoesOn W (waits_blind key)) (place (blocks q) (act (to_pending c n)) v)
  unfolding place is_no_messages
  place-Waits c n none v h = to_pending-Waits c n v h
  place-Waits c n (some file) v h = (refl, h.0)
  place-Waits c n (some (dir m b)) v h = (refl, h.0)

  -- An error of a call, which leaves the queues alone.
  weaker :
      (c : String) (n : Node) (q : Option Node) (r : Result (Unit {0}) × Disk)
      → After (λ _ v. At c n v) (GoesOn (At c n) (at_blind c n)) r
      → After
          (λ _ v. W v)
          (GoesOn W (waits_blind key))
          (continue (λ _. place (blocks q) (act (to_pending c n))) r)
  weaker c n q (ok _, v) h = place-Waits c n q v h
  weaker c n q (err e, v) h = (h.0, h.1.0)

  requeue_rename :
      (c : String) (p q : Option Node) (d : Disk)
      → lookup c d.processing ≡ p
      → W d
      → After (λ _ v. W v) (GoesOn W (waits_blind key)) (rename_node p q (to_pending c) d)
  unfolding rename_node is_no_messages
  requeue_rename c none q d e h =
      bind-After (λ _ v. W v) (λ _ v. W v) (GoesOn W (waits_blind key)) (sys d) _
        (sys-GoesOn W (waits_blind key) d h) λ _ v w. (refl, w)
  requeue_rename c (some n) q d e h =
      weaker c n q (sys d) (sys-GoesOn (At c n) (at_blind c n) d (h, e))

  unless_gone-Still :
      (r : Result (Unit {0}) × Disk)
      → After (λ _ v. W v) (GoesOn W (waits_blind key)) r
      → Still W (unless_gone r)
  unfolding is_no_messages
  unless_gone-Still (ok _, d) h = h
  unless_gone-Still (err not_exist, d) h = h.1
  unless_gone-Still (err already_exists, d) h = refl
  unless_gone-Still (err (failed m), d) h = refl
  unless_gone-Still (err (wrapped m e), d) h = h.0
  unless_gone-Still (err no_messages, d) h = h.0
  unless_gone-Still (err skip_message, d) h = refl
  unless_gone-Still (err (skip_error t e), d) h = h.0
  unless_gone-Still (err (external n), d) h = refl

  requeue_node-Still :
      (c : String) (q : Option Node) (d : Disk)
      → W d
      → Still W (requeue_node c (lookup c d.processing) q d)
  unfolding requeue_node
  requeue_node-Still c (some there) d h = h
  requeue_node-Still c none d h = unless_gone-Still _ (requeue_rename c _ none d refl h)

  -- What requeue_one does after its stat.
  stat-Still :
      (c : String) (r : Result (Unit {0}) × Disk)
      → W r.1
      → Still W (elim r.0 as (λ _. Result (Unit {0}) × Disk) [
        | ok _ ↦ requeue_node c (lookup c r.1.processing) (lookup c r.1.pending) r.1
        | err _ ↦
            unless_gone
              (rename_node (lookup c r.1.processing) (lookup c r.1.pending) (to_pending c) r.1)
      ])
  stat-Still c (ok _, d) h = requeue_node-Still c (lookup c d.pending) d h
  stat-Still c (err x, d) h = unless_gone-Still _ (requeue_rename c _ (lookup c d.pending) d refl h)

  requeue_one-Still : (c : String) (d : Disk) → W d → Still W (requeue_one c d)
  unfolding requeue_one
  requeue_one-Still c d h = stat-Still c (sys d) ((sys-Keeps W (waits_blind key)).at d h)

  requeue_all-Still : (m : Assoc Node) (d : Disk) → W d → Still W (requeue_all m d)
  unfolding requeue_all
  requeue_all-Still [] d h = h
  requeue_all-Still ((c, n) ∷ rest) d h =
      let ih = requeue_all-Still rest in
      if_rule (λ (a : Act Disk (Unit {0})). Still W (a d)) (is_dir (some n))
        (λ there.
          then-Still W (waits_blind key) (λ _ v. W v) _ _ (requeue_one-Still c d h) λ _ v w. ih v w)
        (λ plain. ih d h)

  -- A call of RequeueProcessing that succeeds leaves the message waiting.
  pub requeue_processing-Still : (s : PushSpool) (d : Disk) → W d → Still W (requeue_processing s d)
  unfolding requeue_processing within
  requeue_processing-Still s d h =
      then-Still W (waits_blind key) (λ _ v. W v) _ _ (ensure_dirs-Still W (waits_blind key) s d h)
        λ _ v w.
          then-Still W (waits_blind key) (λ _ v. W v) _ _ (call-Still W (waits_blind key) _ v w)
            λ _ u x. requeue_all-Still u.processing u x
