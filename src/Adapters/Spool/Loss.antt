-- ===== src/Adapters/Spool/Loss.antt =====
-- push_spool.go: no operation but FinalizeAck loses a queued message.
use mime_crypt.Base.{
  String, Option, none, some, List, [], ◌∷◌, ◌≡◌, refl, sym, ap, ◌∙◌, ◌⊎◌, inl, inr, Bool-cases,
  if◌then◌else◌,
}
use mime_crypt.Base.Text.{◌==◌, eq_iff}
use mime_crypt.Base.Assoc.{Assoc, lookup, insert, remove, lookup-insert, lookup-remove}
use mime_crypt.Base.Effect.{
  ok, err, pure, raise, continue, Keeps, Keeps-bind, Keeps-then, Keeps-pure, Keeps-within,
}
use mime_crypt.Mailflow.Errors.{wrapping, Act, Result, Error, already_exists, not_exist}
use mime_crypt.Adapters.Spool.Disk.{
  Node, Disk, PushSpool, sys, act, read_meta, place, rename_node, to_processing, to_pending, blocks,
}
use mime_crypt.Adapters.Spool.Queue.{claim_first, claim_next, claimed, Candidate, sort, Claim}
use mime_crypt.Adapters.Spool.Steps.{
  Blind, wrapping-Keeps, sys-Keeps, ensure_dirs-Keeps, read_meta-Keeps, candidates-Keeps,
}

-- A directory, which no rename replaces.
abbrev pub IsSolid : Node → Type 0
IsSolid n = blocks (some n) ≡ some already_exists

-- The message stands under its key in one of the two queues.
abbrev pub Holds : String → Node → Disk → Type 0
Holds key n d = (lookup key d.pending ≡ some n) ⊎ (lookup key d.processing ≡ some n)

-- A move of one entry from one directory to the other loses no solid entry.
moved :
    (c key : String) (m n : Node) (from to : Assoc Node)
    → IsSolid n
    → lookup c from ≡ some m
    → blocks (lookup c to) ≡ none
    → (lookup key from ≡ some n) ⊎ (lookup key to ≡ some n)
    → (lookup key (remove c from) ≡ some n) ⊎ (lookup key (insert c m to) ≡ some n)
moved c key m n from to solid there free held = elim (Bool-cases (c == key)) [
  | inl same ↦
      let e = (eq_iff c key).0 same in
      elim held [
        | inl h ↦ inr (
            lookup-insert c key m to
            ∙ rw (same, if◌then◌else◌) (sym there ∙ ap (λ x. lookup x from) e ∙ h))
        | inr h ↦ cc
      ]
  | inr other ↦ elim held [
    | inl h ↦ inl (lookup-remove c key from ∙ rw (other, if◌then◌else◌) h)
    | inr h ↦ inr (lookup-insert c key m to ∙ rw (other, if◌then◌else◌) h)
  ]
]

swap : {A B : Type 0} → A ⊎ B → B ⊎ A
swap (inl a) = inr a
swap (inr b) = inl b

module _ (key : String) (n : Node) (solid : IsSolid n) where
  pub blind : Blind (Holds key n)
  blind d k h = h

  claim_moved :
      (c : String) (m : Node) (v : Disk)
      → lookup c v.pending ≡ some m
      → blocks (lookup c v.processing) ≡ none
      → Holds key n v
      → Holds key n (to_processing c m v)
  claim_moved c m v there free h = moved c key m n v.pending v.processing solid there free h

  requeue_moved :
      (c : String) (m : Node) (v : Disk)
      → lookup c v.processing ≡ some m
      → blocks (lookup c v.pending) ≡ none
      → Holds key n v
      → Holds key n (to_pending c m v)
  requeue_moved c m v there free h =
      swap (moved c key m n v.processing v.pending solid there free (swap h))

  place-Holds :
      (b : Option Error) (f : Disk → Disk) (v : Disk)
      → Holds key n v
      → (b ≡ none → Holds key n (f v))
      → Holds key n (place b (act f) v).1
  unfolding place
  place-Holds none f v h k = k refl
  place-Holds (some x) f v h k = h

  -- What the two directories have under the name that is moved.
  abbrev Names : String → Option Node → Option Node → Disk → Type 0
  Names c p q v = (lookup c v.pending ≡ p) × (lookup c v.processing ≡ q) × Holds key n v

  continue-Holds :
      (R : Disk → Type 0) (m : Act Disk (Unit {0})) (r : Result (Unit {0}) × Disk)
      → ((v : Disk) → R v → Holds key n v)
      → ((v : Disk) → R v → Holds key n (m v).1)
      → R r.1
      → Holds key n (continue (λ _. m) r).1
  continue-Holds R m (ok a, v) weak k h = k v h
  continue-Holds R m (err e, v) weak k h = weak v h

  claim_rename :
      (c : String) (p q : Option Node) (d : Disk)
      → Names c p q d
      → Holds key n (rename_node p q (to_processing c) d).1
  unfolding rename_node
  claim_rename c none q d h =
      continue-Holds (Names c none q) (raise not_exist) (sys d) (λ v k. k.2) (λ v k. k.2)
        ((sys-Keeps (Names c none q) (λ v k h. h)).at d h)
  claim_rename c (some m) q d h =
      continue-Holds (Names c (some m) q) (place (blocks q) (act (to_processing c m))) (sys d)
        (λ v k. k.2)
        (λ v k.
          place-Holds (blocks q) (to_processing c m) v k.2
            (λ free. claim_moved c m v k.0 (ap blocks k.1 ∙ free) k.2))
        ((sys-Keeps (Names c (some m) q) (λ v k h. h)).at d h)

  pub requeue_rename :
      (c : String) (p q : Option Node) (d : Disk)
      → Names c p q d
      → Holds key n (rename_node q p (to_pending c) d).1
  unfolding rename_node
  requeue_rename c p none d h =
      continue-Holds (Names c p none) (raise not_exist) (sys d) (λ v k. k.2) (λ v k. k.2)
        ((sys-Keeps (Names c p none) (λ v k h. h)).at d h)
  requeue_rename c p (some m) d h =
      continue-Holds (Names c p (some m)) (place (blocks p) (act (to_pending c m))) (sys d)
        (λ v k. k.2)
        (λ v k.
          place-Holds (blocks p) (to_pending c m) v k.2
            (λ free. requeue_moved c m v k.1 (ap blocks k.0 ∙ free) k.2))
        ((sys-Keeps (Names c p (some m)) (λ v k h. h)).at d h)

  claimed-Holds :
      (c : String) (rest : Disk → Result Claim × Disk) (r : Result (Unit {0}) × Disk)
      → ((v : Disk) → Holds key n v → Holds key n (rest v).1)
      → Holds key n r.1
      → Holds key n (claimed c rest r).1
  claimed-Holds c rest (ok _, d) k h =
      (Keeps-bind {P = Holds key n} (read_meta (lookup c d.processing))
          (λ meta. pure (some (record { key = c; meta = meta })))
          (read_meta-Keeps (Holds key n) blind (lookup c d.processing)) (λ meta. Keeps-pure _)).at
        d h
  claimed-Holds c rest (err not_exist, d) k h = k d h
  claimed-Holds c rest (err already_exists, d) k h = k d h
  claimed-Holds c rest (err x, d) k h = h

  claim_first-Holds :
      (cs : List Candidate) (d : Disk) → Holds key n d → Holds key n (claim_first cs d).1
  unfolding claim_first
  claim_first-Holds [] d h = h
  claim_first-Holds (c ∷ cs) d h =
      claimed-Holds c.key (claim_first cs) _ (claim_first-Holds cs)
        (claim_rename c.key (lookup c.key d.pending) (lookup c.key d.processing) d (refl, refl, h))

  pub call : (c : Error → Error) → Keeps (Holds key n) (wrapping c sys)
  call c = wrapping-Keeps (Holds key n) blind c sys (sys-Keeps (Holds key n) blind)

  pub claim_next-Keeps : (s : PushSpool) → Keeps (Holds key n) (claim_next s)
  unfolding claim_next
  claim_next-Keeps s = Keeps-then _ _ (ensure_dirs-Keeps (Holds key n) blind s) (
      Keeps-then _ _ (call _) (
        Keeps-bind _ _ (Keeps-within _ λ d. candidates-Keeps (Holds key n) blind d.pending)
          λ found. record { at = claim_first-Holds (sort found) }))
