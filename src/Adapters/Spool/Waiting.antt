-- ===== src/Adapters/Spool/Waiting.antt =====
-- push_spool.go: a message that waits in pending, and the list of candidates of ClaimNext.
use mime_crypt.Base.{
  suc, String, Bool, true, false, Option, none, some, List, [], ◌∷◌, ◌≡◌, refl, ◌⊎◌, inl, inr,
  Bool-cases, Option-cases, if◌then◌else◌, if_rule,
}
use mime_crypt.Base.Text.{◌==◌, eq_iff, is_blank}
use mime_crypt.Base.Assoc.{Assoc, lookup}
use mime_crypt.Base.Effect.{ok, err, After, bind-After, continue}
use mime_crypt.Mailflow.Errors.{Error, Result, Act, is_no_messages, wrapped, wrapping, reword}
use mime_crypt.Adapters.Spool.Disk.{
  Node, file, dir, Disk, PushSpool, sys, ensure_dirs, is_dir, read_meta,
}
use mime_crypt.Adapters.Spool.Queue.{Candidate, candidates, sort, insert_sorted, before}
use mime_crypt.Adapters.Spool.Steps.{Blind}

-- An error that does not say that there are no messages.
abbrev pub Alarm : Error → Type 0
Alarm e = is_no_messages e ≡ false

-- The message waits: it has a directory in pending, and none in processing.
abbrev pub Waits : String → Disk → Type 0
Waits key d = (is_dir (lookup key d.pending) ≡ true) × (lookup key d.processing ≡ none)

pub waits_blind : (key : String) → Blind (Waits key)
waits_blind key d n h = h

-- After success the property holds still; an error is an alarm.
abbrev pub Still : {A : Type 0} → (Disk → Type 0) → Result A × Disk → Type 0
Still {A} P r = After (λ (_ : A) v. P v) (λ e _. Alarm e) r

abbrev pub Listed : String → List Candidate → Type 0
Listed key [] = ◌≡◌ {A = Bool} true false
Listed key (c ∷ cs) = (c.key ≡ key) ⊎ Listed key cs

module _ (P : Disk → Type 0) (blind : Blind P) where
  -- The loop can go on: the property holds still, and the error is an alarm.
  abbrev pub GoesOn : Error → Disk → Type 0
  GoesOn e v = Alarm e × P v

  pub sys-GoesOn : (d : Disk) → P d → After (λ _ v. P v) GoesOn (sys d)
  unfolding sys is_no_messages
  sys-GoesOn d h = elim (Option-cases (d.faults d.calls)) [
    | inl well ↦ rw (well, sys) (blind d (suc d.calls) h)
    | inr (n, bad) ↦ rw (bad, sys) (refl, blind d (suc d.calls) h)
  ]

  sys-Still : (d : Disk) → P d → Still P (sys d)
  unfolding sys is_no_messages
  sys-Still d h = elim (Option-cases (d.faults d.calls)) [
    | inl well ↦ rw (well, sys) (blind d (suc d.calls) h)
    | inr (n, bad) ↦ rw (bad, sys) refl
  ]

  pub reword-Still :
      {A : Type 0} (context : String) (r : Result A × Disk)
      → Still P r
      → Still P (reword (wrapped context) r)
  unfolding is_no_messages
  reword-Still context (ok a, d) h = h
  reword-Still context (err e, d) h = h

  pub call-Still : (context : String) (d : Disk) → P d → Still P (wrapping (wrapped context) sys d)
  call-Still context d h = reword-Still context (sys d) (sys-Still d h)

  -- The rest of a block after a step whose value does not matter.
  pub then-Still :
      {A B : Type 0} (Q : B → Disk → Type 0) (r : Result A × Disk) (f : A → Act Disk B)
      → Still P r
      → ((a : A) (v : Disk) → P v → After Q (λ e _. Alarm e) (f a v))
      → After Q (λ e _. Alarm e) (continue f r)
  then-Still Q r f = bind-After (λ _ v. P v) Q (λ e _. Alarm e) r f

  pub read_meta-Still : (n : Option Node) (d : Disk) → P d → Still P (read_meta n d)
  unfolding read_meta is_no_messages
  read_meta-Still none d h = refl
  read_meta-Still (some file) d h = refl
  read_meta-Still (some (dir none b)) d h = refl
  read_meta-Still (some (dir (some none) b)) d h =
      then-Still (λ _ v. P v) _ _ (call-Still _ d h) λ a v w. refl
  read_meta-Still (some (dir (some (some m)) b)) d h =
      then-Still (λ _ v. P v) _ _ (call-Still _ d h) λ a v w. w

  pub ensure_dirs-Still : (s : PushSpool) (d : Disk) → P d → Still P (ensure_dirs s d)
  unfolding ensure_dirs is_no_messages
  ensure_dirs-Still s d h =
      if_rule (λ (a : Act Disk (Unit {0})). Still P (a d)) (is_blank s.dir_name) (λ blank. refl)
        (λ named. reword-Still _ _ (
          then-Still (λ _ v. P v) _ _ (sys-Still d h)
            λ _ v1 w1.
              then-Still (λ _ v. P v) _ _ (sys-Still v1 w1)
                λ _ v2 w2.
                  then-Still (λ _ v. P v) _ _ (sys-Still v2 w2) λ _ v3 w3. sys-Still v3 w3))

module _ (key : String) where
  -- Of the entries `m`, each directory under the key is listed, and the message waits still.
  abbrev pub Found : Assoc Node → List Candidate → Disk → Type 0
  Found m cs v = (is_dir (lookup key m) ≡ true → Listed key cs) × Waits key v

  skipped :
      (name : String) (n : Node) (rest : Assoc Node)
      → (name == key) ≡ false
      → is_dir (lookup key ((name, n) ∷ rest)) ≡ true
      → is_dir (lookup key rest) ≡ true
  unfolding lookup
  skipped name n rest other = rw (other, if◌then◌else◌) λ h. h

  no_dir :
      (name : String) (n : Node) (rest : Assoc Node)
      → is_dir (some n) ≡ false
      → is_dir (lookup key ((name, n) ∷ rest)) ≡ true
      → is_dir (lookup key rest) ≡ true
  unfolding lookup
  no_dir name n rest plain x = elim (Bool-cases (name == key)) [
    | inl same ↦ let y : is_dir (if name == key then some n else lookup key rest) ≡ true = x in cc
    | inr other ↦ skipped name n rest other x
  ]

  no_dir-Found :
      (name : String) (n : Node) (rest : Assoc Node)
      → is_dir (some n) ≡ false
      → (r : Result (List Candidate) × Disk) → After (Found rest) (λ e _. Alarm e) r
      → After (Found ((name, n) ∷ rest)) (λ e _. Alarm e) r
  no_dir-Found name n rest plain (ok cs, v) h = ((λ x. h.0 (no_dir name n rest plain x)), h.1)
  no_dir-Found name n rest plain (err e, v) h = h

  pub candidates-Found :
      (m : Assoc Node) (d : Disk) → Waits key d → After (Found m) (λ e _. Alarm e) (candidates m d)
  unfolding candidates lookup
  candidates-Found [] d h = ((λ x. cc), h)
  candidates-Found ((name, n) ∷ rest) d h =
      let ih = candidates-Found rest in
      if_rule
        (λ (a : Act Disk (List Candidate)). After (Found ((name, n) ∷ rest)) (λ e _. Alarm e) (a d))
        (is_dir (some n))
        (λ yes.
          then-Still (Waits key) (waits_blind key) (Found ((name, n) ∷ rest)) _ _
            (read_meta-Still (Waits key) (waits_blind key) (some n) d h)
            λ meta v w.
              bind-After (Found rest) (Found ((name, n) ∷ rest)) (λ e _. Alarm e)
                (candidates rest v) _ (ih v w)
                λ others u found. (
                  (λ x. elim (Bool-cases (name == key)) [
                    | inl same ↦ inl ((eq_iff name key).0 same)
                    | inr other ↦ inr (found.0 (skipped name n rest other x))
                  ]),
                  found.1,
                ))
        (λ plain. no_dir-Found name n rest plain (candidates rest d) (ih d h))

  insert_sorted-Listed :
      (c : Candidate) (cs : List Candidate) → Listed key (c ∷ cs) → Listed key (insert_sorted c cs)
  unfolding insert_sorted
  insert_sorted-Listed c [] h = h
  insert_sorted-Listed c (x ∷ xs) h =
      let ih = insert_sorted-Listed c xs in
      if_rule (Listed key) (before x c)
        (λ yes. elim h [
          | inl e ↦ inr (ih (inl e))
          | inr (inl e) ↦ inl e
          | inr (inr m) ↦ inr (ih (inr m))
        ])
        (λ no. h)

  pub sort-Listed : (cs : List Candidate) → Listed key cs → Listed key (sort cs)
  unfolding sort
  sort-Listed [] h = h
  sort-Listed (x ∷ xs) (inl e) = insert_sorted-Listed x (sort xs) (inl e)
  sort-Listed (x ∷ xs) (inr m) = insert_sorted-Listed x (sort xs) (inr (sort-Listed xs m))
