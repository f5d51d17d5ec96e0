-- ===== src/Affinity/Bindings.antt =====
-- What binding and rebinding a session leave in the table (session_affinity.go).
use codex_oauth_proxy.Affinity.Aliases.{Names, write_aliases-Names}
use mathlib.Core.Path.{subst}
use codex_oauth_proxy.Affinity.{
  normalize_session_affinity_digests, completed, binding_of, with_tenant, new_row,
  choose_session_affinity_winner, session_affinity_row_digests,
}
use codex_oauth_proxy.Affinity.Operations.{
  write_aliases, write_session_affinity_aliases, bind_session_affinity, bind_body,
  rebind_session_affinity, rebind_body, rebound, load_session_affinity_rows,
}
use codex_oauth_proxy.Base.{Time, Error, invalid_input}
use codex_oauth_proxy.Prelude.{
  Option, none, some, text_eq, ◌⊎◌, inl, inr, Bool-cases, not, ◌&&◌, sym, Bool, true, false, ◌||◌,
  ◌==◌, if◌then◌else◌, List, [], ◌∷◌, Text, text, is_empty, trim_space, length, M, Result, ok, err,
  succeeded, and_then, ◌≡◌, refl, arith, All, All-mono, ap, fail,
}
use codex_oauth_proxy.Storage.{transaction, rolled_back, commit_transaction, check_ready, exec}
use codex_oauth_proxy.Storage.Outcomes.{Writes, exec-Writes}
use codex_oauth_proxy.Store.{SessionAffinityRow, SessionAffinityBinding, Tables, UserStore}

binding_or : SessionAffinityBinding → Result Error SessionAffinityBinding → SessionAffinityBinding
binding_or b (ok x) = x
binding_or b (err e) = b

ok_inj :
    (a b : SessionAffinityBinding)
    → ◌≡◌ {A = Result Error SessionAffinityBinding} (ok a) (ok b)
    → a ≡ b
unfolding binding_or
ok_inj a b h = ap (binding_or a) h

-- If a computation answers a binding, each of its digests has a row that names its credential, of which `P` holds.
Bound : (Text → Type 0) → Result Error SessionAffinityBinding × UserStore → Type 0
Bound P r =
    (b : SessionAffinityBinding) → r.0 ≡ ok b → P b.auth_id × All (Names b.auth_id r.1) b.digests

Names-same :
    (auth_id : Text) (ds : List Text) (d d' : UserStore)
    → d'.tables ≡ d.tables
    → All (Names auth_id d) ds
    → All (Names auth_id d') ds
Names-same auth_id ds d d' e n = All-mono _ _ (λ k h. (h.0, rw e h.1, h.2)) ds n

module _ (P : Text → Type 0) where
  Bound-err : (e : Error) (d : UserStore) → Bound P (err e, d)
  unfolding Bound
  Bound-err e d b h = ground (arith, h)

  Bound-and_then :
      {A : Type 0} (r : Result Error A × UserStore)
      (k : A → M UserStore Error SessionAffinityBinding)
      → ((a : A) (d : UserStore) → Bound P (k a d))
      → Bound P (and_then r k)
  Bound-and_then (ok a, d) k h = h a d
  Bound-and_then (err e, d) k h = Bound-err e d

  Bound-rolled_back :
      (t : Tables) (r : Result Error SessionAffinityBinding × UserStore)
      → Bound P r
      → Bound P (rolled_back t r)
  Bound-rolled_back t (ok b, d) h = h
  Bound-rolled_back t (err e, d) h = Bound-err e _

  Bound-ok :
      (ds : List Text) (winner : SessionAffinityRow) (d : UserStore)
      → P winner.auth_id
      → All (Names winner.auth_id d) ds
      → Bound P (ok (binding_of ds winner), d)
  unfolding Bound
  Bound-ok ds winner d p n b h =
      subst (λ (x : SessionAffinityBinding). P x.auth_id × All (Names x.auth_id d) x.digests)
        (ok_inj (binding_of ds winner) b h) (p, n)

  -- The end of both transactions: the aliases are written, and the commit follows.
  Bound-finish :
      (op op' : Text) (ds : List Text) (winner : SessionAffinityRow) (now : Time) (d : UserStore)
      → P winner.auth_id
      → Bound P (
          and_then (write_session_affinity_aliases op ds winner now d) (λ _ d'.
            and_then (commit_transaction op' d') (λ _ d''. (ok (binding_of ds winner), d''))))
  unfolding write_session_affinity_aliases commit_transaction completed
  Bound-finish op op' ds winner now d p =
      go (write_aliases op ds (completed now ds winner) d)
        (write_aliases-Names op (completed now ds winner) ds d)
    where
      committed :
          (d' : UserStore) (r : Result Error (Unit {0}) × UserStore)
          → Writes (λ t. t) d' r
          → All (Names winner.auth_id d') ds
          → Bound P (and_then r (λ _ d''. (ok (binding_of ds winner), d'')))
      committed d' (ok a, d'') e n =
          Bound-ok ds winner d'' p (Names-same winner.auth_id ds d' d'' e n)
      committed d' (err x, d'') e n = Bound-err x d''

      go :
          (r : Result Error (Unit {0}) × UserStore)
          → (succeeded r.0 ≡ true → All (Names winner.auth_id r.1) ds)
          → Bound P (
              and_then r (λ _ d'.
                and_then (commit_transaction op' d') (λ _ d''. (ok (binding_of ds winner), d''))))
      go (ok a, d') n =
          committed d' (commit_transaction op' d') (exec-Writes op' (λ t. t) d') (n refl)
      go (err x, d') n = Bound-err x d'

  Bound-transaction :
      (begin : Text) (body : M UserStore Error SessionAffinityBinding) (d : UserStore)
      → ((d' : UserStore) → Bound P (body d'))
      → Bound P (transaction begin body d)
  unfolding transaction
  Bound-transaction begin body d h =
      Bound-rolled_back d.tables _ (Bound-and_then (exec begin (λ t. t) d) _ (λ _. h))

  Bound-checked :
      (stop : Bool) (x y : M UserStore Error SessionAffinityBinding) (d : UserStore)
      → Bound P (x d)
      → Bound P (y d)
      → Bound P ((if stop then x else y) d)
  Bound-checked true x y d h h' = h
  Bound-checked false x y d h h' = h'

  Bound-inv :
      (r : Result Error SessionAffinityBinding × UserStore) (b : SessionAffinityBinding)
      → Bound P r
      → r.0 ≡ ok b
      → P b.auth_id × All (Names b.auth_id r.1) b.digests
  unfolding Bound
  Bound-inv r b h = h b

bind-Bound :
    (now : Time) (tenant : Text) (digests : List Text) (auth_id : Text) (d : UserStore)
    → Bound (λ _. Unit) (bind_session_affinity now tenant digests auth_id d)
unfolding bind_session_affinity bind_body
bind-Bound now tenant raw_digests raw_auth_id d =
    let P = λ (_ : Text). Unit {0} in
    let begin = text "begin bind session affinity" in
    let digests = normalize_session_affinity_digests raw_digests in
    let auth_id = trim_space raw_auth_id in
    let body = bind_body now tenant digests auth_id in
    Bound-and_then P (check_ready d) _ (λ _ d'.
      Bound-checked P (length digests == 0 || is_empty auth_id) (fail invalid_input)
        (transaction begin body) d' (Bound-err P invalid_input d')
        (Bound-transaction P begin body d' (λ d1.
          Bound-and_then P
            (load_session_affinity_rows (text "read session affinity before bind") digests [] d1) _
            (λ rows d2.
              Bound-finish P (text "write session affinity binding")
                (text "commit session affinity binding") (session_affinity_row_digests rows digests)
                _ now d2 tt))))

-- The credential that was asked for, or another one than the caller saw.
abbrev IsRebound : Text → Text → Text → Type 0
IsRebound expected auth_id x = (x ≡ auth_id) ⊎ (text_eq x expected ≡ false)

rebound-IsRebound :
    (now : Time) (binding : SessionAffinityBinding) (expected auth_id : Text) (ds : List Text)
    (o : Option SessionAffinityRow)
    → IsRebound expected auth_id (rebound now binding expected auth_id ds o).auth_id
unfolding rebound new_row
rebound-IsRebound now binding expected auth_id ds none = inl refl
rebound-IsRebound now binding expected auth_id ds (some row) =
    elim (Bool-cases (text_eq row.auth_id expected)) [
      | inl same ↦ rw same (inl refl)
      | inr other ↦ rw other (inr other)
    ]

with_tenant-auth_id :
    (tenant : Text) (row : SessionAffinityRow) → (with_tenant tenant row).auth_id ≡ row.auth_id
unfolding with_tenant
with_tenant-auth_id tenant row =
    elim (Bool-cases (is_empty row.tenant_scope_digest && not (is_empty tenant))) [
      | inl e ↦ rw e refl
      | inr e ↦ rw e refl
    ]

rebind-Bound :
    (now : Time) (binding : SessionAffinityBinding) (auth_id : Text) (d : UserStore)
    → Bound
        (IsRebound (trim_space binding.auth_id) (trim_space auth_id))
        (rebind_session_affinity now binding auth_id d)
unfolding rebind_session_affinity rebind_body
rebind-Bound now binding raw_auth_id d =
    let expected = trim_space binding.auth_id in
    let auth_id = trim_space raw_auth_id in
    let P = IsRebound expected auth_id in
    let begin = text "begin rebind session affinity" in
    let digests = normalize_session_affinity_digests binding.digests in
    let body = rebind_body now binding digests expected auth_id in
    Bound-and_then P (check_ready d) _ (λ _ d'.
      Bound-checked P (length digests == 0 || is_empty expected || is_empty auth_id)
        (fail invalid_input) (transaction begin body) d' (Bound-err P invalid_input d')
        (Bound-transaction P begin body d' (λ d1.
          Bound-and_then P
            (load_session_affinity_rows (text "read session affinity before rebind") digests
              (binding.binding_digest ∷ []) d1)
            _
            (λ rows d2.
              let ds = session_affinity_row_digests rows digests in
              let o = choose_session_affinity_winner now rows in
              Bound-finish P (text "write rebound session affinity")
                (text "commit rebound session affinity") ds _ now d2
                (subst P
                  (sym (
                    with_tenant-auth_id binding.tenant_scope_digest
                      (rebound now binding expected auth_id ds o)))
                  (rebound-IsRebound now binding expected auth_id ds o))))))

-- When a session is bound, the row of each of the binding's digests names the binding's credential,
-- whether that is the candidate or the credential of a binding that was there before.
pub bind_session_affinity-binds :
    (now : Time) (tenant : Text) (digests : List Text) (auth_id : Text) (d : UserStore)
    (b : SessionAffinityBinding)
    → (bind_session_affinity now tenant digests auth_id d).0 ≡ ok b
    → All (Names b.auth_id (bind_session_affinity now tenant digests auth_id d).1) b.digests
bind_session_affinity-binds now tenant digests auth_id d b = λ e.
    (Bound-inv (λ _. Unit) (bind_session_affinity now tenant digests auth_id d) b
      (bind-Bound now tenant digests auth_id d) e).1

-- When a session is bound to another credential, the operation answers with that credential, or with one
-- that is not the credential of the binding that the caller saw; and the row of each of the binding's
-- digests names the credential that it answers with.
pub rebind_session_affinity-binds :
    (now : Time) (binding : SessionAffinityBinding) (auth_id : Text) (d : UserStore)
    (b : SessionAffinityBinding)
    → (rebind_session_affinity now binding auth_id d).0 ≡ ok b
    → ((b.auth_id ≡ trim_space auth_id) ⊎ (text_eq b.auth_id (trim_space binding.auth_id) ≡ false))
      × All (Names b.auth_id (rebind_session_affinity now binding auth_id d).1) b.digests
rebind_session_affinity-binds now binding auth_id d b =
    Bound-inv (IsRebound (trim_space binding.auth_id) (trim_space auth_id))
      (rebind_session_affinity now binding auth_id d) b (rebind-Bound now binding auth_id d)
