-- ===== src/Adapters/Spool/Claiming.antt =====
-- push_spool.go, ClaimNext: no message that waits is passed over.
use mime_crypt.Base.{
  ℕ, String, Option, none, some, List, [], ◌∷◌, ◌≡◌, refl, inl, inr, Option-cases, ◌≢◌,
}
use mime_crypt.Base.Assoc.{lookup}
use mime_crypt.Base.Effect.{ok, err, After, bind-After, within}
use mime_crypt.Mailflow.Errors.{
  Error, Result, is_no_messages, failed, no_messages, skip_message, skip_error, wrapped, external,
  not_exist, already_exists,
}
use mime_crypt.Adapters.Spool.Disk.{
  Node, file, dir, Disk, PushSpool, sys, act, rename_node, place, blocks, to_processing,
}
use mime_crypt.Adapters.Spool.Queue.{
  Claim, Candidate, claim_next, claim_first, claimed, candidates, sort,
}
use mime_crypt.Adapters.Spool.Waiting.{
  Alarm, Waits, waits_blind, GoesOn, sys-GoesOn, Listed, then-Still, read_meta-Still,
  ensure_dirs-Still, call-Still, Found, candidates-Found, sort-Listed,
}

module _ (key : String) where
  -- A message is claimed, or the error is an alarm.
  abbrev pub Answered : Result Claim × Disk → Type 0
  Answered = After (λ c _. c ≢ none) (λ e _. Alarm e)

  claimed-Answered :
      (name : String) (rest : Disk → Result Claim × Disk) (d : Disk)
      → Answered (claimed name rest (ok tt, d))
  claimed-Answered name rest d =
      then-Still (λ _. Unit) (λ _ _ h. h) (λ (c : Claim) _. c ≢ none) _ _
        (read_meta-Still (λ _. Unit) (λ _ _ h. h) (lookup name d.processing) d tt) λ m v w h. cc

  -- A call that fails does so with an error from outside.
  External : Error → Type 0
  External e = (k : ℕ) × (e ≡ external k)

  sys-External : (d : Disk) → After (λ _ _. Unit {0}) (λ e _. External e) (sys d)
  unfolding sys External
  sys-External d = elim (Option-cases (d.faults d.calls)) [
    | inl well ↦ rw (well, sys) tt
    | inr (n, bad) ↦ rw (bad, sys) (n, refl)
  ]

  rename-External :
      (n : Node) (move : Node → Disk → Disk) (d : Disk)
      → After (λ _ _. Unit {0}) (λ e _. External e) (rename_node (some n) none move d)
  unfolding rename_node place
  rename-External n move d =
      bind-After (λ _ _. Unit {0}) (λ _ _. Unit {0}) (λ e _. External e) (sys d) _ (sys-External d)
        λ _ v _. tt

  abbrev Goes : Error → Disk → Type 0
  Goes = GoesOn (Waits key) (waits_blind key)

  place-GoesOn :
      (target : Option Node) (n : Node) (move : Node → Disk → Disk) (d : Disk)
      → Waits key d
      → After (λ _ _. Unit {0}) Goes (place (blocks target) (act (move n)) d)
  unfolding place is_no_messages
  place-GoesOn none n move d h = tt
  place-GoesOn (some file) n move d h = (refl, h)
  place-GoesOn (some (dir m b)) n move d h = (refl, h)

  -- A rename that fails leaves the queues as they are.
  rename-GoesOn :
      (n target : Option Node) (move : Node → Disk → Disk) (d : Disk)
      → Waits key d
      → After (λ _ _. Unit {0}) Goes (rename_node n target move d)
  unfolding rename_node is_no_messages
  rename-GoesOn none target move d h =
      bind-After (λ _ v. Waits key v) (λ _ _. Unit {0}) Goes (sys d) _
        (sys-GoesOn (Waits key) (waits_blind key) d h) λ _ v w. (refl, w)
  rename-GoesOn (some n) target move d h =
      bind-After (λ _ v. Waits key v) (λ _ _. Unit {0}) Goes (sys d) _
        (sys-GoesOn (Waits key) (waits_blind key) d h) λ _ v w. place-GoesOn target n move v w

  -- The message that waits is the one at hand, so it is claimed, or an error stops the loop.
  here-Answered :
      (name : String) (rest : Disk → Result Claim × Disk) (r : Result (Unit {0}) × Disk)
      → After (λ _ _. Unit {0}) (λ e _. External e) r
      → Answered (claimed name rest r)
  unfolding is_no_messages External
  here-Answered name rest (ok _, d) h = claimed-Answered name rest d
  here-Answered name rest (err not_exist, d) h = cc
  here-Answered name rest (err already_exists, d) h = cc
  here-Answered name rest (err (external n), d) h = refl
  here-Answered name rest (err _, d) h = cc

  -- Another message is at hand, which is claimed, passed over, or stops the loop.
  other-Answered :
      (name : String) (rest : Disk → Result Claim × Disk) (r : Result (Unit {0}) × Disk)
      → ((d : Disk) → Waits key d → Answered (rest d))
      → After (λ _ _. Unit {0}) Goes r
      → Answered (claimed name rest r)
  unfolding is_no_messages
  other-Answered name rest (ok _, d) k h = claimed-Answered name rest d
  other-Answered name rest (err not_exist, d) k h = k d (h.1)
  other-Answered name rest (err already_exists, d) k h = k d (h.1)
  other-Answered name rest (err (failed m), d) k h = refl
  other-Answered name rest (err (wrapped m e), d) k h = h.0
  other-Answered name rest (err no_messages, d) k h = h.0
  other-Answered name rest (err skip_message, d) k h = refl
  other-Answered name rest (err (skip_error t e), d) k h = h.0
  other-Answered name rest (err (external n), d) k h = refl

  -- The loop at the message that waits.
  claim_here :
      (name : String) (rest : Disk → Result Claim × Disk) (d : Disk)
      → name ≡ key
      → Waits key d
      → (p q : Option Node) → lookup name d.pending ≡ p
      → lookup name d.processing ≡ q
      → Answered (claimed name rest (rename_node p q (to_processing name) d))
  claim_here name rest d e h p (some q) a b = cc
  claim_here name rest d e h none none a b = cc
  claim_here name rest d e h (some n) none a b =
      here-Answered name rest _ (rename-External n (to_processing name) d)

  claim_first-Answered :
      (cs : List Candidate) (d : Disk) → Listed key cs → Waits key d → Answered (claim_first cs d)
  unfolding claim_first
  claim_first-Answered [] d l h = cc
  claim_first-Answered (c ∷ cs) d (inl e) h = claim_here c.key (claim_first cs) d e h _ _ refl refl
  claim_first-Answered (c ∷ cs) d (inr l) h =
      other-Answered c.key (claim_first cs) _ (λ v w. claim_first-Answered cs v l w)
        (rename-GoesOn (lookup c.key d.pending) (lookup c.key d.processing) (to_processing c.key) d
          h)

  pub claim_next-Answered : (s : PushSpool) (d : Disk) → Waits key d → Answered (claim_next s d)
  unfolding claim_next within
  claim_next-Answered s d h =
      then-Still (Waits key) (waits_blind key) (λ (c : Claim) _. c ≢ none) _ _
        (ensure_dirs-Still (Waits key) (waits_blind key) s d h)
        λ _ v w.
          then-Still (Waits key) (waits_blind key) (λ (c : Claim) _. c ≢ none) _ _
            (call-Still (Waits key) (waits_blind key) _ v w)
            λ _ u x.
              bind-After (Found key u.pending) (λ (c : Claim) _. c ≢ none) (λ e _. Alarm e)
                (candidates u.pending u) _ (candidates-Found key u.pending u x)
                λ cs t found.
                  claim_first-Answered (sort cs) t (sort-Listed key cs (found.0 (x.0))) found.1
