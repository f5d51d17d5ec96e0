-- ===== src/Prelude/Maps.antt =====
-- Go maps keyed by strings, as association lists: a key is kept once by every operation.
use Prim.Native.Nat.{◌+◌, ◌≤◌}
use mathlib.Core.Path.{◌≡◌, refl}
use mathlib.Core.Logic.{◌≢◌}
use mathlib.Core.Bool.{false}
use mathlib.Core.Option.{Option, none, some}
use mathlib.Core.List.{List, [], ◌∷◌}
use native.Mathlib.Omega.{arith}
use codex_oauth_proxy.Prelude.Tests.{if◌then◌else◌}
use codex_oauth_proxy.Prelude.Lists.{length, All}
use codex_oauth_proxy.Prelude.Texts.{Text, text_eq, text_eq_iff, text_eq_refl}

abbrev pub Dict {ℓ} : Type ℓ → Type ℓ
Dict V = List (Text × V)

pub text_eq_ne : (k j : Text) → k ≢ j → text_eq k j ≡ false
text_eq_ne k j ne = ground (arith, text_eq_iff k j)

module _ {ℓ} {V : Type ℓ} where
  -- m[k]
  unfoldable pub lookup : Text → Dict V → Option V
  lookup k [] = none
  lookup k ((j, v) ∷ m) = if text_eq j k then some v else lookup k m

  -- m[k] = v
  unfoldable pub insert : Text → V → Dict V → Dict V
  insert k v [] = (k, v) ∷ []
  insert k v ((j, w) ∷ m) = if text_eq j k then (k, v) ∷ m else (j, w) ∷ insert k v m

  -- delete(m, k)
  unfoldable pub remove : Text → Dict V → Dict V
  remove k [] = []
  remove k ((j, w) ∷ m) = if text_eq j k then remove k m else (j, w) ∷ remove k m

  pub lookup-insert :
      (k j : Text) (v : V) (m : Dict V)
      → lookup j (insert k v m) ≡ (if text_eq k j then some v else lookup j m)
  unfolding lookup insert
  lookup-insert k j v [] = refl
  lookup-insert k j v ((i, w) ∷ m) = ground (
    arith,
    text_eq_iff k j,
    text_eq_iff i k,
    text_eq_iff i j,
    text_eq_refl j,
    lookup-insert k j v m,
  )

  pub lookup-remove :
      (k j : Text) (m : Dict V) → lookup j (remove k m) ≡ (if text_eq k j then none else lookup j m)
  unfolding lookup remove
  lookup-remove k j [] = ground arith
  lookup-remove k j ((i, w) ∷ m) = ground (
    arith,
    text_eq_iff k j,
    text_eq_iff i k,
    text_eq_iff i j,
    text_eq_refl j,
    lookup-remove k j m,
  )

  pub length-insert-le : (k : Text) (v : V) (m : Dict V) → length (insert k v m) ≤ length m + 1
  unfolding insert
  length-insert-le k v [] = omega arith
  length-insert-le k v ((j, w) ∷ m) = ground (arith, length-insert-le k v m)

  -- A key that is there is overwritten in place.
  pub length-insert_old :
      (k : Text) (v w : V) (m : Dict V) → lookup k m ≡ some w → length (insert k v m) ≡ length m
  unfolding insert lookup
  length-insert_old k v w [] h = ground arith
  length-insert_old k v w ((j, u) ∷ m) h = ground (arith, length-insert_old k v w m)

  pub length-remove-le : (k : Text) (m : Dict V) → length (remove k m) ≤ length m
  unfolding remove
  length-remove-le k [] = omega arith
  length-remove-le k ((j, w) ∷ m) = ground (arith, length-remove-le k m)

  pub length-remove_old :
      (k : Text) (v : V) (m : Dict V) → lookup k m ≡ some v → length (remove k m) + 1 ≤ length m
  unfolding remove lookup
  length-remove_old k v [] h = ground arith
  length-remove_old k v ((j, w) ∷ m) h =
      ground (arith, length-remove-le k m, length-remove_old k v m)

  pub lookup-insert_self : (k : Text) (v : V) (m : Dict V) → lookup k (insert k v m) ≡ some v
  lookup-insert_self k v m = simp (lookup-insert, text_eq_refl)

  pub lookup-remove_self : (k : Text) (m : Dict V) → lookup k (remove k m) ≡ none
  lookup-remove_self k m = simp (lookup-remove, text_eq_refl)

  module _ (k j : Text) (ne : k ≢ j) where
    pub lookup-insert_ne : (v : V) (m : Dict V) → lookup j (insert k v m) ≡ lookup j m
    lookup-insert_ne v m = ground (arith, text_eq_iff k j, lookup-insert k j v m)

    pub lookup-remove_ne : (m : Dict V) → lookup j (remove k m) ≡ lookup j m
    lookup-remove_ne m = ground (arith, text_eq_iff k j, lookup-remove k j m)

  pub lookup-head : (k : Text) (v : V) (m : Dict V) → lookup k ((k, v) ∷ m) ≡ some v
  unfolding lookup
  lookup-head k v m = ground (arith, text_eq_refl k)

  -- Below an entry with a key of its own.
  pub lookup-tail :
      (j k : Text) (v w : V) (m : Dict V)
      → lookup j m ≡ none
      → lookup k m ≡ some v
      → lookup k ((j, w) ∷ m) ≡ some v
  unfolding lookup
  lookup-tail j k v w m fresh h = ground (arith, text_eq_iff j k)

  -- Every key stands once.
  abbrev pub IsMap : Dict V → Type ℓ
  IsMap [] = Unit
  IsMap ((k, v) ∷ m) = (lookup k m ≡ none) × IsMap m

  pub insert-IsMap : (k : Text) (v : V) (m : Dict V) → IsMap m → IsMap (insert k v m)
  unfolding insert lookup
  insert-IsMap k v [] h = (refl, tt)
  insert-IsMap k v ((j, w) ∷ m) h =
      ground (arith, insert-IsMap k v m, lookup-insert k j v m, text_eq_iff j k, text_eq_iff k j)

  pub remove-IsMap : (k : Text) (m : Dict V) → IsMap m → IsMap (remove k m)
  unfolding remove
  remove-IsMap k [] h = tt
  remove-IsMap k ((j, w) ∷ m) h = ground (arith, remove-IsMap k m, lookup-remove k j m)

  -- The entries of a range that the map still holds.
  abbrev pub Tracks : Dict V → Dict V → Type ℓ
  Tracks [] m = Unit
  Tracks ((k, v) ∷ entries) m = (lookup k m ≡ some v) × Tracks entries m

  Tracks-cons :
      (j : Text) (w : V) (entries m : Dict V)
      → lookup j entries ≡ none
      → Tracks entries m
      → Tracks entries ((j, w) ∷ m)
  unfolding lookup
  Tracks-cons j w [] m fresh h = tt
  Tracks-cons j w ((k, v) ∷ entries) m fresh h =
      ground (arith, text_eq_iff k j, text_eq_iff j k, Tracks-cons j w entries m)

  pub Tracks-self : (m : Dict V) → IsMap m → Tracks m m
  unfolding lookup
  Tracks-self [] h = tt
  Tracks-self ((k, v) ∷ m) h =
      (ground (arith, text_eq_refl k), Tracks-cons k v m m h.0 (Tracks-self m h.1))

  pub Tracks-remove :
      (j : Text) (entries m : Dict V)
      → lookup j entries ≡ none
      → Tracks entries m
      → Tracks entries (remove j m)
  unfolding lookup
  Tracks-remove j [] m fresh h = tt
  Tracks-remove j ((k, v) ∷ entries) m fresh h =
      ground
        (arith, lookup-remove j k m, text_eq_iff k j, text_eq_iff j k, Tracks-remove j entries m)

  pub All-insert :
      (P : Text × V → Type 0) (k : Text) (v : V) (m : Dict V)
      → P (k, v)
      → All P m
      → All P (insert k v m)
  unfolding insert
  All-insert P k v [] p h = (p, tt)
  All-insert P k v ((j, w) ∷ m) p h = ground (arith, All-insert P k v m)

  pub All-remove : (P : Text × V → Type 0) (k : Text) (m : Dict V) → All P m → All P (remove k m)
  unfolding remove
  All-remove P k [] h = tt
  All-remove P k ((j, w) ∷ m) h = ground (arith, All-remove P k m)

pub ruleset dict_laws =
    (lookup-insert, lookup-remove, lookup-insert_self, lookup-remove_self, text_eq_refl)
