-- ===== src/Base/Assoc.antt =====
-- Go's `map[string]V` as an association list. A key is written in place, or at the end; the
-- program never depends on the order in which a map is walked, and where it walks one the
-- theorems hold for every order.
use Prim.Native.String.{String}
use mathlib.Core.Path.{◌≡◌, refl}
use mathlib.Core.Bool.{Bool, true}
use mathlib.Core.Option.{Option, none, some}
use mathlib.Core.List.{List, [], ◌∷◌}
use native.Mathlib.Omega.{arith}
use mime_crypt.Base.Tests.{if◌then◌else◌, is_some}
use mime_crypt.Base.Text.{◌==◌, eq_iff}

abbrev pub Assoc {ℓ} : Type ℓ → Type ℓ
Assoc V = List (String × V)

module _ {ℓ} {V : Type ℓ} where
  unfoldable pub lookup : (key : String) (table : Assoc V) → Option V
  lookup key [] = none
  lookup key ((name, value) ∷ rest) = if name == key then some value else lookup key rest

  unfoldable pub insert : (key : String) (value : V) (table : Assoc V) → Assoc V
  insert key value [] = (key, value) ∷ []
  insert key value ((name, old) ∷ rest) =
      if name == key then (key, value) ∷ rest else (name, old) ∷ insert key value rest

  unfoldable pub remove : (key : String) (table : Assoc V) → Assoc V
  remove key [] = []
  remove key ((name, value) ∷ rest) =
      let others = remove key rest in if name == key then others else (name, value) ∷ others

  unfoldable pub has : (key : String) (table : Assoc V) → Bool
  unfolding lookup
  has key table = is_some (lookup key table)

  -- What a read finds after a write.
  pub lookup-insert :
      (key other : String) (value : V) (table : Assoc V)
      → lookup other (insert key value table)
        ≡ (if key == other then some value else lookup other table)
  unfolding lookup insert
  lookup-insert key other value [] = refl
  lookup-insert key other value ((name, old) ∷ rest) = ground (
    arith,
    lookup-insert key other value rest,
    eq_iff name key,
    eq_iff name other,
    eq_iff key other,
  )

  pub lookup-insert_self :
      (key : String) (value : V) (table : Assoc V)
      → lookup key (insert key value table) ≡ some value
  lookup-insert_self key value table =
      ground (arith, lookup-insert key key value table, eq_iff key key)

  -- What a read finds after a removal.
  pub lookup-remove :
      (key other : String) (table : Assoc V)
      → lookup other (remove key table) ≡ (if key == other then none else lookup other table)
  unfolding lookup remove
  lookup-remove key other [] = ground arith
  lookup-remove key other ((name, value) ∷ rest) =
      ground
        (arith, eq_iff name other, eq_iff name key, eq_iff key other, lookup-remove key other rest)

  pub has-insert :
      (k j : String) (v : V) (m : Assoc V)
      → has j (insert k v m) ≡ (if k == j then true else has j m)
  unfolding has
  has-insert k j v m = rw lookup-insert (ground arith)

  -- A write removes no key, and its own key is there afterwards.
  pub has-insert_mono :
      (k j : String) (v : V) (m : Assoc V) → has j m ≡ true → has j (insert k v m) ≡ true
  has-insert_mono k j v m h = ground (arith, has-insert k j v m)

  pub has-insert_self : (k : String) (v : V) (m : Assoc V) → has k (insert k v m) ≡ true
  has-insert_self k v m = ground (arith, has-insert k k v m, eq_iff k k)

pub ruleset assoc_laws = (lookup-insert, lookup-remove)
