-- ===== src/Adapters/Spool/Markers.antt =====
-- push_spool.go: what cleanupSeen does to one seen marker, and to the others.
use mime_crypt.Base.{
  ℕ, zero, suc, String, true, false, Option, none, some, List, [], ◌∷◌, ◌≡◌, refl, sym, ap, ◌∙◌,
  inl, inr, Bool-cases, if_rule, if◌then◌else◌, map,
}
use mathlib.Core.Path.{subst}
use mime_crypt.Base.Text.{◌==◌, eq_iff}
use mime_crypt.Base.Assoc.{lookup, lookup-remove}
use mime_crypt.Base.Effect.{
  ok, err, pure, within, gets, ◌>>=◌, Keeps, Keeps-bind, Keeps-then, Keeps-if, Keeps-pure,
  Keeps-raise, Keeps-gets, After, bind-After, Keeps-After,
}
use mime_crypt.Mailflow.Errors.{wrapping, wrapped, Act, Result, Error, not_exist}
use mime_crypt.Adapters.Spool.Disk.{Disk, PushSpool, SeenMarker, sys, act, has_queued_message}
use mime_crypt.Adapters.Spool.Queue.{
  is_fresh, drop_marker, drop_stale, clean_marker, clean_markers, cleanup,
}
use mime_crypt.Adapters.Spool.Steps.{Blind, wrapping-Keeps, sys-Keeps, has_queued_message-Keeps}

-- The marker stands under the key at this time.
abbrev pub Marked : String → Option SeenMarker → ℕ → Disk → Type 0
Marked key m t d = (lookup key d.seen ≡ some m) × (d.now ≡ t)

-- A marker that cleanupSeen does not remove: one that does not parse, or a fresh one.
abbrev pub Stays : PushSpool → Option SeenMarker → ℕ → Type 0
Stays s none t = Unit
Stays s (some m) t = is_fresh s t m ≡ true

true-ne-false : true ≡ false → ⊥
true-ne-false h = cc

module _ (key : String) (m : Option SeenMarker) (t : ℕ) where
  abbrev M : Disk → Type 0
  M = Marked key m t

  pub quiet : Blind M
  quiet d n h = h

  pub call : (c : Error → Error) → Keeps M (wrapping c sys)
  call c = wrapping-Keeps M quiet c sys (sys-Keeps M quiet)

  drop-Keeps : (c : String) → (c == key) ≡ false → Keeps {E = Error} M (act (drop_marker c))
  drop-Keeps c other = record {
    at = λ d h. (lookup-remove c key d.seen ∙ rw (other, if◌then◌else◌) (h.0), h.1);
  }

  drop_stale-Keeps : (c : String) → (c == key) ≡ false → Keeps M (drop_stale c)
  unfolding drop_stale
  drop_stale-Keeps c other =
      Keeps-bind (has_queued_message c) _ (has_queued_message-Keeps M quiet c)
        λ queued. Keeps-if queued _ _ (Keeps-pure tt) (Keeps-then _ _ (call _) (drop-Keeps c other))

  -- The round on another marker.
  pub other-Keeps :
      (s : PushSpool) (c : String) (found : Option (Option SeenMarker))
      → (c == key) ≡ false
      → Keeps M (clean_marker s c found)
  unfolding clean_marker
  other-Keeps s c none other =
      wrapping-Keeps M quiet _ _ (Keeps-then sys _ (sys-Keeps M quiet) (Keeps-raise not_exist))
  other-Keeps s c (some none) other = Keeps-then _ _ (call _) (Keeps-raise _)
  other-Keeps s c (some (some old)) other = Keeps-then _ _ (call _) (
      Keeps-bind _ _ (Keeps-gets _)
        λ now. Keeps-if (is_fresh s now old) _ _ (Keeps-pure tt) (drop_stale-Keeps c other))

  abbrev pub Any : Error → Disk → Type 0
  Any x v = Unit

  forget :
      {A : Type 0} (Q : A → Disk → Type 0) (r : Result A × Disk)
      → After Q (λ _ v. M v) r
      → After Q Any r
  forget Q (ok a, v) h = h
  forget Q (err x, v) h = tt

  -- A step that leaves the marker alone, before the rest of a block.
  pub quiet-After :
      {A B : Type 0} (a : Act Disk A) (f : A → Act Disk B) (Q : B → Disk → Type 0) (d : Disk)
      → Keeps M a
      → M d
      → ((x : A) (v : Disk) → M v → After Q Any (f x v))
      → After Q Any ((a >>= f) d)
  quiet-After a f Q d k h rest =
      bind-After (λ _ v. M v) Q Any (a d) f (forget (λ _ v. M v) (a d) (Keeps-After M a d k h)) rest

  abbrev pub Kept : Unit {0} → Disk → Type 0
  Kept _ v = M v

  kept-After :
      {A : Type 0} (a : Act Disk A) (d : Disk) → Keeps M a → M d → After (λ _ v. M v) Any (a d)
  kept-After a d k h = forget (λ _ v. M v) (a d) (Keeps-After M a d k h)

module _ (s : PushSpool) (key : String) (m : Option SeenMarker) (t : ℕ) (stays : Stays s m t) where
  -- A round of cleanupSeen on the marker itself.
  pub own-After :
      (c : String) (old : Option SeenMarker) (d : Disk)
      → m ≡ old
      → M key m t d
      → After (Kept key m t) (Any key m t) (clean_marker s c (some old) d)
  unfolding clean_marker gets
  own-After c none d e h =
      kept-After key m t _ d (Keeps-then _ _ (call key m t _) (Keeps-raise _)) h
  own-After c (some x) d e h =
      quiet-After key m t (wrapping (wrapped "读取 push seen marker 失败") sys)
        (λ _. gets (λ d. d.now) >>= λ now. if is_fresh s now x then pure tt else drop_stale c)
        (Kept key m t) d (call key m t _) h
        λ _ v k.
          if_rule (λ (a : Act Disk (Unit {0})). After (Kept key m t) (Any key m t) (a v))
            (is_fresh s v.now x) (λ _. k)
            (λ old.
              let fresh = subst (λ m. Stays s m t) e stays in
              let moment = ap (λ n. is_fresh s n x) (k.1) in
              absurd (true-ne-false (sym fresh ∙ (sym moment ∙ old))))

  pub round-After :
      (c : String) (d : Disk)
      → M key m t d
      → After (Kept key m t) (Any key m t) (clean_marker s c (lookup c d.seen) d)
  round-After c d h = elim (Bool-cases (c == key)) [
    | inl same ↦
        rw (ap (λ k. lookup k d.seen) ((eq_iff c key).0 same) ∙ (h.0)) (own-After c m d refl h)
    | inr other ↦ kept-After key m t _ d (other-Keeps key m t s c (lookup c d.seen) other) h
  ]

  clean_markers-After :
      (cs : List String) (d : Disk)
      → M key m t d
      → After (Kept key m t) (Any key m t) (clean_markers s cs d)
  unfolding clean_markers within
  clean_markers-After [] d h = h
  clean_markers-After (c ∷ cs) d h =
      bind-After (Kept key m t) (Kept key m t) (Any key m t) (clean_marker s c (lookup c d.seen) d)
        (λ _. clean_markers s cs) (round-After c d h) (λ _ v k. clean_markers-After cs v k)

  pub cleanup-After :
      (n : ℕ) (d : Disk) → M key m t d → After (Kept key m t) (Any key m t) (cleanup s n d)
  unfolding cleanup within
  cleanup-After zero d h = h
  cleanup-After (suc n) d h =
      quiet-After key m t (wrapping (wrapped "读取 push seen 目录失败") sys)
        (λ _. within (λ d. clean_markers s (map (λ e. e.0) d.seen))) (Kept key m t) d
        (call key m t _) h λ _ v k. clean_markers-After (map (λ e. e.0) v.seen) v k
