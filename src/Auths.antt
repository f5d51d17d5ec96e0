-- ===== src/Auths.antt =====
-- internal/codexonly/auth.go: the changes between two scans of the credential files, and the maps
-- and lists of credentials by their stable id (server.go).
use codex_oauth_proxy.Base.{Auth, is_blank}
use codex_oauth_proxy.Prelude.{
  Bool, true, false, not, ◌&&◌, ◌||◌, ◌==◌, if◌then◌else◌, List, [], ◌∷◌, ◌++◌, Option, none, some,
  Text, Dict, insert, lookup, text_eq, text_eq_refl, text_ltb, text, trim_space, ◌≡◌, refl, arith,
  Bool-cases, inl, inr,
}

pub data AuthChangeKind : Type 0 where
  auth_added auth_updated auth_removed : AuthChangeKind

pub record AuthChange : Type 0 where
  pub kind : AuthChangeKind
  pub id : Text
  pub account_id : Text
  pub identified : Bool
  pub credentials_changed : Bool
  pub metadata_changed : Bool
  pub eligibility_changed : Bool
  pub sources_changed : Bool

-- The file problems of a scan are reports for operators, and no decision reads them.
pub record AuthReconcileResult : Type 0 where
  pub auths : List Auth
  pub active : List Auth
  pub changes : List AuthChange

-- authsByStableID: the last credential with an id wins.
abbrev pub add_by_id : Dict Auth → List Auth → Dict Auth
add_by_id m [] = m
add_by_id m (a ∷ rest) = add_by_id (insert a.id a m) rest

unfoldable pub auths_by_stable_id : List Auth → Dict Auth
auths_by_stable_id auths = add_by_id [] auths

unfoldable pub stable_auth_ids : List Auth → List Text
stable_auth_ids [] = []
stable_auth_ids (a ∷ rest) = a.id ∷ stable_auth_ids rest

-- Auth.Identified
abbrev pub identified : Auth → Bool
identified a = not (is_blank a.account_id)

unfoldable pub new_auth_change : AuthChangeKind → Auth → AuthChange
new_auth_change kind a = record {
  kind = kind;
  id = a.id;
  account_id = a.account_id;
  identified = identified a;
  credentials_changed = false;
  metadata_changed = false;
  eligibility_changed = false;
  sources_changed = false;
}

unfoldable pub auth_credentials_changed : Auth → Auth → Bool
auth_credentials_changed a b =
    not (text_eq a.access_token b.access_token)
    || not (text_eq a.refresh_token b.refresh_token)
    || not (text_eq a.id_token b.id_token)
    || not (a.expires_at == b.expires_at)

-- slices.Equal
abbrev pub texts_eq : List Text → List Text → Bool
texts_eq [] [] = true
texts_eq (a ∷ s) (b ∷ t) = text_eq a b && texts_eq s t
texts_eq _ _ = false

abbrev pub bool_eq : Bool → Bool → Bool
bool_eq true b = b
bool_eq false b = not b

abbrev pub updated_change : Auth → Auth → AuthChange
updated_change a b = record (new_auth_change auth_updated b) {
  credentials_changed = auth_credentials_changed a b;
  metadata_changed = not (text_eq a.email b.email);
  eligibility_changed = not (bool_eq a.disabled b.disabled);
  sources_changed = not (texts_eq a.source_ids b.source_ids);
}

abbrev pub has_changed : AuthChange → Bool
has_changed c =
    c.credentials_changed || c.metadata_changed || c.eligibility_changed || c.sources_changed

-- What one id contributes, from its credential before and after.
unfoldable pub changes_of : Bool → Option Auth → Option Auth → List AuthChange
unfolding new_auth_change auth_credentials_changed
changes_of initialized none (some b) = if initialized then new_auth_change auth_added b ∷ [] else []
changes_of initialized (some a) none = new_auth_change auth_removed a ∷ []
changes_of initialized (some a) (some b) =
    if has_changed (updated_change a b) then updated_change a b ∷ [] else []
changes_of initialized none none = []

abbrev pub insert_text : Text → List Text → List Text
insert_text t [] = t ∷ []
insert_text t (u ∷ us) = if text_ltb u t then u ∷ insert_text t us else t ∷ u ∷ us

-- sort.Strings
abbrev pub sort_strings : List Text → List Text
sort_strings [] = []
sort_strings (t ∷ ts) = insert_text t (sort_strings ts)

abbrev pub keys : Dict Auth → List Text
keys [] = []
keys ((id, a) ∷ m) = id ∷ keys m

abbrev pub new_keys : Dict Auth → Dict Auth → List Text
new_keys previous [] = []
new_keys previous ((id, a) ∷ m) = elim (lookup id previous) [
  | none ↦ id ∷ new_keys previous m
  | some _ ↦ new_keys previous m
]

unfoldable pub changes_from : Bool → Dict Auth → Dict Auth → List Text → List AuthChange
unfolding changes_of
changes_from initialized previous current [] = []
changes_from initialized previous current (id ∷ ids) =
    changes_of initialized (lookup id previous) (lookup id current)
    ++ changes_from initialized previous current ids

unfoldable pub reconcile_auth_changes : Dict Auth → Dict Auth → Bool → List AuthChange
unfolding changes_from
reconcile_auth_changes previous current initialized =
    changes_from initialized previous current
      (sort_strings (keys previous ++ new_keys previous current))

-- stableAuthID; `path` is the normalised relative path.
unfoldable pub stable_auth_id : Text → Text → Text
stable_auth_id account_id path =
    if is_blank account_id then text "path:" ++ path else text "account:" ++ trim_space account_id

texts_eq_refl : (s : List Text) → texts_eq s s ≡ true
texts_eq_refl [] = refl
texts_eq_refl (a ∷ s) = ground (arith, text_eq_refl a, texts_eq_refl s)

same_unchanged : (a : Auth) → has_changed (updated_change a a) ≡ false
unfolding new_auth_change auth_credentials_changed
same_unchanged a = elim (Bool-cases a.disabled) [
  | inl e ↦ ground (
    arith,
    e,
    text_eq_refl a.email,
    text_eq_refl a.access_token,
    text_eq_refl a.refresh_token,
    text_eq_refl a.id_token,
    texts_eq_refl a.source_ids,
  )
  | inr e ↦ ground (
    arith,
    e,
    text_eq_refl a.email,
    text_eq_refl a.access_token,
    text_eq_refl a.refresh_token,
    text_eq_refl a.id_token,
    texts_eq_refl a.source_ids,
  )
]

changes_of_same : (initialized : Bool) (o : Option Auth) → changes_of initialized o o ≡ []
unfolding changes_of
changes_of_same initialized none = refl
changes_of_same initialized (some a) = rw (same_unchanged a) refl

changes_from_same :
    (initialized : Bool) (m : Dict Auth) (ids : List Text) → changes_from initialized m m ids ≡ []
unfolding changes_from
changes_from_same initialized m [] = refl
changes_from_same initialized m (id ∷ ids) =
    rw (changes_of_same initialized (lookup id m), changes_from_same initialized m ids) refl

-- A scan that finds what the last one found reports no change.
pub reconcile_auth_changes-same :
    (m : Dict Auth) (initialized : Bool) → reconcile_auth_changes m m initialized ≡ []
unfolding reconcile_auth_changes
reconcile_auth_changes-same m initialized = changes_from_same initialized m _
