-- ===== src/Affinity/Aliases.antt =====
-- What writing the aliases of a session leaves in the table (session_affinity.go).
use codex_oauth_proxy.Affinity.Operations.{write_aliases, put_alias}
use codex_oauth_proxy.Base.{Error}
use codex_oauth_proxy.Prelude.{
  true, List, [], ◌∷◌, some, Text, text_eq, lookup, lookup-insert, lookup-insert_self, Result, ok,
  err, succeeded, and_then, ◌≡◌, refl, arith, inl, inr, Bool-cases, All,
}
use codex_oauth_proxy.Storage.{exec}
use codex_oauth_proxy.Storage.Outcomes.{Writes, exec-Writes}
use codex_oauth_proxy.Store.{SessionAffinityRow, UserStore}

-- The row of a digest names a credential.
abbrev pub Names : Text → UserStore → Text → Type 0
Names auth_id d digest =
    (row : SessionAffinityRow) × (lookup digest d.tables.session_affinity_bindings ≡ some row)
    × (row.auth_id ≡ auth_id)

Names-put :
    (w : SessionAffinityRow) (k j : Text) (d d' : UserStore)
    → d'.tables ≡ put_alias j w d.tables
    → Names w.auth_id d k
    → Names w.auth_id d' k
Names-put w k j d d' e (row, found, same) = elim (Bool-cases (text_eq j k)) [
  | inl here ↦ (
    record w { digest = j },
    rw (e, lookup-insert j k (record w { digest = j }) d.tables.session_affinity_bindings, here)
        refl,
    refl,
  )
  | inr other ↦ (
    row,
    rw (e, lookup-insert j k (record w { digest = j }) d.tables.session_affinity_bindings, other)
        found,
    same,
  )
]

module _ (op : Text) (w : SessionAffinityRow) where
  write_aliases-keeps :
      (ds : List Text) (k : Text) (d : UserStore)
      → Names w.auth_id d k
      → succeeded (write_aliases op ds w d).0 ≡ true
      → Names w.auth_id (write_aliases op ds w d).1 k
  unfolding write_aliases
  write_aliases-keeps [] k d n h = n
  write_aliases-keeps (j ∷ ds) k d n h =
      go (exec op (put_alias j w) d) (exec-Writes op (put_alias j w) d) (write_aliases-keeps ds k) h
    where
      go :
          (r : Result Error (Unit {0}) × UserStore)
          → Writes (put_alias j w) d r
          → ((d' : UserStore)
              → Names w.auth_id d' k
              → succeeded (write_aliases op ds w d').0 ≡ true
              → Names w.auth_id (write_aliases op ds w d').1 k)
          → succeeded (and_then r (λ _. write_aliases op ds w)).0 ≡ true
          → Names w.auth_id (and_then r (λ _. write_aliases op ds w)).1 k
      go (ok a, d') e ih h' = ih d' (Names-put w k j d d' e n) h'
      go (err x, d') e ih h' = ground (arith, h')

  -- Once the aliases are written, each digest's row names the winner's credential.
  pub write_aliases-Names :
      (ds : List Text) (d : UserStore)
      → succeeded (write_aliases op ds w d).0 ≡ true
      → All (Names w.auth_id (write_aliases op ds w d).1) ds
  unfolding write_aliases
  write_aliases-Names [] d h = tt
  write_aliases-Names (j ∷ ds) d h =
      go (exec op (put_alias j w) d) (exec-Writes op (put_alias j w) d) (write_aliases-Names ds) h
    where
      go :
          (r : Result Error (Unit {0}) × UserStore)
          → Writes (put_alias j w) d r
          → ((d' : UserStore)
              → succeeded (write_aliases op ds w d').0 ≡ true
              → All (Names w.auth_id (write_aliases op ds w d').1) ds)
          → succeeded (and_then r (λ _. write_aliases op ds w)).0 ≡ true
          → All (Names w.auth_id (and_then r (λ _. write_aliases op ds w)).1) (j ∷ ds)
      go (ok a, d') e ih h' = (
        write_aliases-keeps ds j d'
            (
              record w { digest = j },
              rw
                  (
                    e,
                    lookup-insert_self j (record w { digest = j })
                        d.tables.session_affinity_bindings,
                  )
                  refl,
              refl,
            )
            h',
        ih d' h',
      )
      go (err x, d') e ih h' = ground (arith, h')
