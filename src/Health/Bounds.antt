-- ===== src/Health/Bounds.antt =====
-- The exclusions of one credential: the oldest makes room, and no more are kept than the limit.
use codex_oauth_proxy.Prelude.{
  ◌≤◌, ◌<◌, lookup-head, lookup-tail, ◌≡◌, refl, ◌⊎◌, inl, inr, true, false, [], ◌∷◌, some, Text,
  Dict, IsMap, All, length, is_empty, lookup, remove, length-insert-le, length-insert_old,
  length-remove_old, Bool-cases, Option-cases, arith, leb,
}
use codex_oauth_proxy.Health.{AuthModelExclusion, oldest_from, oldest_model_exclusion, older}
use codex_oauth_proxy.Health.Marks.{with_exclusion}

-- `e` is among the entries of `m` under its key, and none of them is older.
pub record IsOldest (k : Text) (e : AuthModelExclusion) (m : Dict AuthModelExclusion) : Type 0 where
  pub present : lookup k m ≡ some e
  pub least : All (λ entry. e.updated_at ≤ entry.1.updated_at) m

abbrev NoOlder : AuthModelExclusion → Dict AuthModelExclusion → Type 0
NoOlder e m = All (λ entry. e.updated_at ≤ entry.1.updated_at) m

NoOlder-le :
    (d e : AuthModelExclusion) (m : Dict AuthModelExclusion)
    → d.updated_at ≤ e.updated_at
    → NoOlder e m
    → NoOlder d m
NoOlder-le d e [] h n = tt
NoOlder-le d e (x ∷ m) h n = (omega arith, NoOlder-le d e m h n.1)

-- The keys that a model identifier can be.
abbrev pub HasNames : Dict AuthModelExclusion → Type 0
HasNames m = All (λ entry. is_empty entry.0 ≡ false) m

-- What the range has found after the entries of `m`: its start, or an entry of `m`.
abbrev Found : Text → AuthModelExclusion → Dict AuthModelExclusion → Text → Type 0
Found k e m result =
    ((result ≡ k) × NoOlder e m)
    ⊎ ((d : AuthModelExclusion) × IsOldest result d m × (d.updated_at ≤ e.updated_at))

oldest_from-Found :
    (k : Text) (e : AuthModelExclusion) (m : Dict AuthModelExclusion)
    → is_empty k ≡ false
    → HasNames m
    → IsMap m
    → Found k e m (oldest_from k e m)
unfolding oldest_from
oldest_from-Found k e [] named names map = inl (refl, tt)
oldest_from-Found k e ((j, d) ∷ m) named names map = elim (Bool-cases (older j d k e)) [
  | inl yes_older ↦ rw yes_older (here yes_older (oldest_from-Found j d m names.0 names.1 map.1))
  | inr not_older ↦ rw not_older (there not_older (oldest_from-Found k e m named names.1 map.1))
]
  where
    here :
        older j d k e ≡ true
        → Found j d m (oldest_from j d m)
        → Found k e ((j, d) ∷ m) (oldest_from j d m)
    here o (inl (same, least)) = inr (
      d,
      record { present = rw same (lookup-head j d m); least = (omega arith, least) },
      ground arith,
    )
    here o (inr (f, oldest, le)) = inr (
      f,
      record { present = lookup-tail j _ f d m map.0 oldest.present; least = (le, oldest.least) },
      ground arith,
    )

    there :
        older j d k e ≡ false
        → Found k e m (oldest_from k e m)
        → Found k e ((j, d) ∷ m) (oldest_from k e m)
    there o (inl (same, least)) = inl (same, (ground arith, least))
    there o (inr (f, oldest, le)) = inr (
      f,
      record {
        present = lookup-tail j _ f d m map.0 oldest.present;
        least = (ground arith, oldest.least);
      },
      le,
    )

-- Among the exclusions of a credential the one that makes room is there, and no other was updated
-- before it, in whatever order the map is ranged over.
pub oldest_model_exclusion-IsOldest :
    (m : Dict AuthModelExclusion)
    → 0 < length m
    → HasNames m
    → IsMap m
    → (e : AuthModelExclusion) × IsOldest (oldest_model_exclusion m) e m
unfolding oldest_model_exclusion
oldest_model_exclusion-IsOldest [] h names map = absurd (omega arith)
oldest_model_exclusion-IsOldest ((k, e) ∷ m) h names map =
    pick (oldest_from-Found k e m names.0 names.1 map.1)
  where
    pick :
        Found k e m (oldest_from k e m)
        → (d : AuthModelExclusion) × IsOldest (oldest_from k e m) d ((k, e) ∷ m)
    pick (inl (same, least)) =
        (e, record { present = rw same (lookup-head k e m); least = (omega arith, least) })
    pick (inr (d, oldest, le)) = (
      d,
      record { present = lookup-tail k _ d e m map.0 oldest.present; least = (le, oldest.least) },
    )

-- One more exclusion keeps the map a map of named models within the limit.
pub with_exclusion-bounded :
    (model : Text) (e : AuthModelExclusion) (m : Dict AuthModelExclusion)
    → HasNames m
    → IsMap m
    → length m ≤ 64
    → length (with_exclusion model e m) ≤ 64
unfolding with_exclusion
with_exclusion-bounded model e m names map h = elim (Option-cases (lookup model m)) [
  | inr (old, there) ↦
      rw (there, with_exclusion) (omega (arith, length-insert_old model e old m there))
  | inl fresh ↦ elim (Bool-cases (leb 64 (length m))) [
    | inr room ↦ rw (fresh, with_exclusion) (rw room (ground (arith, length-insert-le model e m)))
    | inl full ↦
        let (d, oldest) = oldest_model_exclusion-IsOldest m (ground arith) names map in
        rw (fresh, with_exclusion)
          (rw full (
            omega (
              arith,
              length-insert-le model e (remove (oldest_model_exclusion m) m),
              length-remove_old (oldest_model_exclusion m) d m oldest.present,
            )))
  ]
]
