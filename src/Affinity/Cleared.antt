-- ===== src/Affinity/Cleared.antt =====
-- What the deletes leave of the bindings (internal/codexonly/session_affinity.go).
use codex_oauth_proxy.Affinity.Deletes.{
  rows_without, without, affected, delete_rows, bound_to, delete_session_affinity_by_auth_ids,
}
use codex_oauth_proxy.Affinity.Operations.{rows_where}
use codex_oauth_proxy.Health.Rows.{normalize_strings}
use codex_oauth_proxy.Prelude.{
  ℕ, ◌+◌, ◌==◌, ◌≡◌, sym, ap, ◌∙◌, arith, Bool, false, if◌then◌else◌, List, [], ◌∷◌, Text, text,
  length, Dict, ok, return, All, Bool-cases, inl, inr,
}
use codex_oauth_proxy.Storage.{check_ready, call}
use codex_oauth_proxy.Storage.Outcomes.{call_ok, check_ready_ok, and_then_ok}
use codex_oauth_proxy.Store.{SessionAffinityRow, Tables, UserStore}
use mathlib.Core.Path.{subst}

-- No row passes a test.
abbrev pub HasNone : (SessionAffinityRow → Bool) → Dict SessionAffinityRow → Type 0
HasNone test m = All (λ (p : Text × SessionAffinityRow). test p.1 ≡ false) m

rows_without-HasNone :
    (test : SessionAffinityRow → Bool) (m : Dict SessionAffinityRow)
    → HasNone test (rows_without test m)
unfolding rows_without
rows_without-HasNone test [] = tt
rows_without-HasNone test ((k, r) ∷ m) = elim (Bool-cases (test r)) [
  | inl e ↦ rw e (rows_without-HasNone test m)
  | inr e ↦ rw e (e, rows_without-HasNone test m)
]

length-rows_without :
    (test : SessionAffinityRow → Bool) (m : Dict SessionAffinityRow)
    → length (rows_where test m) + length (rows_without test m) ≡ length m
unfolding rows_without rows_where
length-rows_without test [] = omega arith
length-rows_without test ((k, r) ∷ m) = ground (arith, length-rows_without test m)

delete_rows_ok :
    (op count_op : Text) (test : SessionAffinityRow → Bool) (n : ℕ) (d e : UserStore)
    → delete_rows op count_op test d ≡ (ok n, e)
    → (n ≡ affected test d.tables) × (e.tables ≡ without test d.tables)
unfolding delete_rows
delete_rows_ok op count_op test n d e h =
    let (b, d', first, second) =
      and_then_ok ℕ ℕ (call op (without test) (affected test) d) _ n e h in
    let (value, tables) = call_ok ℕ op (without test) (affected test) b d d' first in
    let (same, kept) = call_ok ℕ count_op (λ t. t) (λ _. b) n d' e second in
    (same ∙ value, kept ∙ tables)

-- A deletion by credentials that succeeds, for at least one identifier, leaves no binding of any of
-- them, and returns the number of the rows that are gone.
pub delete_session_affinity_by_auth_ids-HasNone :
    (ids : List Text) (n : ℕ) (d e : UserStore)
    → (length (normalize_strings ids) == 0) ≡ false
    → delete_session_affinity_by_auth_ids ids d ≡ (ok n, e)
    → HasNone (bound_to (normalize_strings ids)) e.tables.session_affinity_bindings
      × (n + length e.tables.session_affinity_bindings ≡ length d.tables.session_affinity_bindings)
unfolding delete_session_affinity_by_auth_ids
delete_session_affinity_by_auth_ids-HasNone ids n d e some_id h =
    let test = bound_to (normalize_strings ids) in
    let op = text "delete session affinity for removed auths" in
    let count_op = text "read removed auth session affinity count" in
    let (u, d', ready, run) = and_then_ok ℕ (Unit {0}) (check_ready d) _ n e h in
    let (value, tables) = delete_rows_ok op count_op test n d' e (
      subst (λ b. (if b then return 0 else delete_rows op count_op test) d' ≡ (ok n, e)) some_id
        run) in
    let start = check_ready_ok u d d' ready in
    let left =
      ap (λ (t : Tables). t.session_affinity_bindings) (tables ∙ ap (without test) start) in
    (
      subst (HasNone test) (sym left)
          (rows_without-HasNone test d.tables.session_affinity_bindings),
      omega (
        arith,
        value ∙ ap (affected test) start,
        ap length left,
        length-rows_without test d.tables.session_affinity_bindings,
      ),
    )
