-- ===== src/Adapters/Spool/Torn.antt =====
-- push_spool.go: what a seen marker that does not parse does to the spool.
use mime_crypt.Base.{
  ℕ, zero, suc, String, Bool, true, false, Option, none, some, List, [], ◌∷◌, ◌≡◌, refl, ap, ◌∙◌,
  inl, inr, arith, Bool-cases, if_rule, nat_eq, map,
}
use mime_crypt.Base.Text.{◌==◌, eq_iff, is_blank}
use mime_crypt.Base.Assoc.{Assoc, lookup}
use mime_crypt.Base.Effect.{ok, err, raise, within, gets, After, bind-After}
use mime_crypt.Mailflow.Errors.{wrapping, wrapped, failed, Act, Result, Error}
use mime_crypt.Mailflow.Ports.{Reader}
use mime_crypt.Adapters.Spool.Disk.{Disk, PushSpool, sys, ensure_dirs}
use mime_crypt.Adapters.Spool.Queue.{
  PushMessage, clean_marker, clean_markers, cleanup, cleanup_seen, enqueue_reader,
}
use mime_crypt.Adapters.Spool.Steps.{ensure_dirs-Keeps}
use mime_crypt.Mailflow.Plan.{mem}
use mime_crypt.Adapters.Spool.Markers.{Marked, quiet-After, call, round-After, Any, Kept}

mem-keys :
    {V : Type 0} (key : String) (v : V) (l : Assoc V)
    → lookup key l ≡ some v
    → mem key (map (λ e. e.0) l) ≡ true
unfolding lookup mem
mem-keys key v [] h = cc
mem-keys key v ((k, w) ∷ l) h = ground (arith, mem-keys key v l)

module _ (s : PushSpool) (key : String) (t : ℕ) where
  abbrev Never : {A : Type 0} → A → Disk → Type 0
  Never a d = ⊥

  torn_own :
      (c : String) (d : Disk)
      → Marked key none t d
      → After (Never {A = Unit {0}}) (Any key none t) (clean_marker s c (some none) d)
  unfolding clean_marker
  torn_own c d h =
      quiet-After key none t (wrapping (wrapped "读取 push seen marker 失败") sys)
        (λ _. raise (failed "解析 push seen marker 失败")) Never d (call key none t _) h (λ _ v _. tt)

  torn_markers :
      (cs : List String) (d : Disk)
      → mem key cs ≡ true
      → Marked key none t d
      → After (Never {A = Unit {0}}) (Any key none t) (clean_markers s cs d)
  unfolding clean_markers within mem
  torn_markers [] d has h = cc
  torn_markers (c ∷ cs) d has h = elim (Bool-cases (c == key)) [
    | inl same ↦
        bind-After (Never {A = Unit {0}}) (Never {A = Unit {0}}) (Any key none t)
          (clean_marker s c (lookup c d.seen) d) (λ _. clean_markers s cs)
          (rw (ap (λ k. lookup k d.seen) ((eq_iff c key).0 same) ∙ h.0) (torn_own c d h))
          (λ _ v e. absurd e)
    | inr other ↦
        bind-After (Kept key none t) (Never {A = Unit {0}}) (Any key none t)
          (clean_marker s c (lookup c d.seen) d) (λ _. clean_markers s cs)
          (round-After s key none t tt c d h) (λ _ v k. torn_markers cs v (ground arith) k)
  ]

  torn_cleanup :
      (n : ℕ) (d : Disk)
      → nat_eq n 0 ≡ false
      → Marked key none t d
      → After (Never {A = Unit {0}}) (Any key none t) (cleanup s n d)
  unfolding cleanup within
  torn_cleanup zero d kept h = cc
  torn_cleanup (suc n) d kept h =
      quiet-After key none t (wrapping (wrapped "读取 push seen 目录失败") sys)
        (λ _. within (λ d. clean_markers s (map (λ e. e.0) d.seen))) Never d (call key none t _) h
        λ _ v k. torn_markers (map (λ e. e.0) v.seen) v (mem-keys key none v.seen (k.0)) k

  torn_enqueue :
      (digest : String → String) (m : PushMessage) (mime : Option Reader) (d : Disk)
      → nat_eq s.replay_retention 0 ≡ false
      → Marked key none t d
      → After (Never {A = Bool}) (Any key none t) (enqueue_reader digest s m mime d)
  unfolding enqueue_reader gets cleanup_seen
  torn_enqueue digest m none d kept h = tt
  torn_enqueue digest m (some mime) d kept h =
      if_rule (λ (a : Act Disk Bool). After (Never {A = Bool}) (Any key none t) (a d))
        (is_blank m.delivery_id) (λ _. tt)
        (λ _.
          quiet-After key none t (ensure_dirs s) _ Never d
            (ensure_dirs-Keeps (Marked key none t) (λ d n h. h) s) h
            λ _ v k.
              bind-After (Never {A = Unit {0}}) (Never {A = Bool}) (Any key none t)
                (cleanup s s.replay_retention v) _ (torn_cleanup s.replay_retention v kept k)
                (λ _ u e. absurd e))

refused :
    (r : Result Bool × Disk)
    → After {E = Error} (λ (_ : Bool) _. ⊥) (λ _ _. Unit {0}) r
    → (x : Error) × (r.0 ≡ err x)
refused (ok a, d) h = absurd h
refused (err x, d) h = (x, refl)

-- With a positive replay retention, one seen marker that does not parse, of whatever message, makes
-- EnqueueReader refuse every message with an error, whatever calls of the operating system do.
pub enqueue_reader-torn :
    (digest : String → String) (s : PushSpool) (m : PushMessage) (mime : Option Reader) (d : Disk)
    (key : String)
    → nat_eq s.replay_retention 0 ≡ false
    → lookup key d.seen ≡ some none
    → (x : Error) × ((enqueue_reader digest s m mime d).0 ≡ err x)
enqueue_reader-torn digest s m mime d key kept torn =
    refused (enqueue_reader digest s m mime d)
      (torn_enqueue s key d.now digest m mime d kept (torn, refl))
