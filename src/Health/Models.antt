-- ===== src/Health/Models.antt =====
-- The exclusions of every credential are maps of at most 64 named models, after every change.
use codex_oauth_proxy.Prelude.{
  ◌≤◌, ◌≡◌, refl, inl, inr, false, [], ◌∷◌, none, some, Text, Dict, IsMap, length, is_empty, lookup,
  insert, remove, text_eq, lookup-insert, lookup-remove, insert-IsMap, remove-IsMap,
  length-remove-le, Bool-cases, Option-cases, arith, leb,
}
use codex_oauth_proxy.Health.{
  models_of, AuthModelExclusion, normalize_model_identifier, oldest_model_exclusion,
}
use codex_oauth_proxy.Health.Bounds.{HasNames, with_exclusion-bounded}
use codex_oauth_proxy.Health.Lifecycle.{keep_fingerprint, refresh_exclusions}
use codex_oauth_proxy.Health.Marks.{with_exclusion, put_models, without_exclusion}

pub record AreValid (m : Dict AuthModelExclusion) : Type 0 where
  pub names : HasNames m
  pub unique : IsMap m
  pub bounded : length m ≤ 64

abbrev pub AllValid : Dict (Dict AuthModelExclusion) → Type 0
AllValid m = (id : Text) → AreValid (models_of id m)

pub none-AreValid : AreValid []
none-AreValid = record { names = tt; unique = tt; bounded = omega arith }

pub normalize_model_identifier-named :
    (model m : Text) → normalize_model_identifier model ≡ some m → is_empty m ≡ false
unfolding normalize_model_identifier
normalize_model_identifier-named model m h = ground arith

insert-HasNames :
    (k : Text) (e : AuthModelExclusion) (m : Dict AuthModelExclusion)
    → is_empty k ≡ false
    → HasNames m
    → HasNames (insert k e m)
unfolding insert
insert-HasNames k e [] n h = (n, tt)
insert-HasNames k e ((j, d) ∷ m) n h = ground (arith, insert-HasNames k e m)

remove-HasNames : (k : Text) (m : Dict AuthModelExclusion) → HasNames m → HasNames (remove k m)
unfolding remove
remove-HasNames k [] h = tt
remove-HasNames k ((j, d) ∷ m) h = ground (arith, remove-HasNames k m)

remove-AreValid : (k : Text) (m : Dict AuthModelExclusion) → AreValid m → AreValid (remove k m)
remove-AreValid k m v = record {
  names = remove-HasNames k m v.names;
  unique = remove-IsMap k m v.unique;
  bounded = omega (arith, length-remove-le k m, v.bounded);
}

pub with_exclusion-AreValid :
    (k : Text) (e : AuthModelExclusion) (m : Dict AuthModelExclusion)
    → is_empty k ≡ false
    → AreValid m
    → AreValid (with_exclusion k e m)
unfolding with_exclusion
with_exclusion-AreValid k e m n v = record {
  names = names;
  unique = unique;
  bounded = with_exclusion-bounded k e m v.names v.unique v.bounded;
}
  where
    names : HasNames (with_exclusion k e m)
    names = ground (
      arith,
      insert-HasNames k e m,
      insert-HasNames k e (remove (oldest_model_exclusion m) m),
      remove-HasNames (oldest_model_exclusion m) m,
    )

    unique : IsMap (with_exclusion k e m)
    unique = ground (
      arith,
      insert-IsMap k e m,
      insert-IsMap k e (remove (oldest_model_exclusion m) m),
      remove-IsMap (oldest_model_exclusion m) m,
    )

keep_fingerprint-length :
    (f : Text) (m : Dict AuthModelExclusion) → length (keep_fingerprint f m) ≤ length m
keep_fingerprint-length f [] = omega arith
keep_fingerprint-length f ((k, e) ∷ m) = ground (arith, keep_fingerprint-length f m)

keep_fingerprint-fresh :
    (f j : Text) (m : Dict AuthModelExclusion)
    → lookup j m ≡ none
    → lookup j (keep_fingerprint f m) ≡ none
unfolding lookup
keep_fingerprint-fresh f j [] h = refl
keep_fingerprint-fresh f j ((k, e) ∷ m) h = ground (arith, keep_fingerprint-fresh f j m)

keep_fingerprint_unique :
    (f : Text) (m : Dict AuthModelExclusion)
    → HasNames m
    → IsMap m
    → HasNames (keep_fingerprint f m) × IsMap (keep_fingerprint f m)
keep_fingerprint_unique f [] n u = (tt, tt)
keep_fingerprint_unique f ((k, e) ∷ m) n u =
    ground (arith, keep_fingerprint_unique f m, keep_fingerprint-fresh f k m)

pub insert-AllValid :
    (id : Text) (models : Dict AuthModelExclusion) (m : Dict (Dict AuthModelExclusion))
    → AreValid models
    → AllValid m
    → AllValid (insert id models m)
insert-AllValid id models m v all j = elim (Bool-cases (text_eq id j)) [
  | inl same ↦ rw (lookup-insert id j models m, models_of) (rw (same, models_of) v)
  | inr other ↦ rw (lookup-insert id j models m, models_of) (rw (other, models_of) (all j))
]

pub remove-AllValid :
    (id : Text) (m : Dict (Dict AuthModelExclusion)) → AllValid m → AllValid (remove id m)
remove-AllValid id m all j = elim (Bool-cases (text_eq id j)) [
  | inl same ↦ rw (lookup-remove id j m, models_of) (rw (same, models_of) none-AreValid)
  | inr other ↦ rw (lookup-remove id j m, models_of) (rw (other, models_of) (all j))
]

put_models-AllValid :
    (id : Text) (models : Dict AuthModelExclusion) (m : Dict (Dict AuthModelExclusion))
    → AreValid models
    → AllValid m
    → AllValid (put_models id models m)
put_models-AllValid id [] m v all = remove-AllValid id m all
put_models-AllValid id (e ∷ rest) m v all = insert-AllValid id (e ∷ rest) m v all

models_of-some :
    (id : Text) (models : Dict AuthModelExclusion) (m : Dict (Dict AuthModelExclusion))
    → lookup id m ≡ some models
    → AllValid m
    → AreValid models
models_of-some id models m e all = rw (e, models_of) at (all id)

pub without_exclusion-AllValid :
    (id model : Text) (m : Dict (Dict AuthModelExclusion))
    → AllValid m
    → AllValid (without_exclusion id model m)
without_exclusion-AllValid id model m all = elim (Option-cases (lookup id m)) [
  | inl e ↦ rw (e, without_exclusion) all
  | inr (models, e) ↦
      rw (e, without_exclusion)
        (put_models-AllValid id (remove model models) m
          (remove-AreValid model models (models_of-some id models m e all)) all)
]

keep_fingerprint-AreValid :
    (f : Text) (m : Dict AuthModelExclusion) → AreValid m → AreValid (keep_fingerprint f m)
keep_fingerprint-AreValid f m v = record {
  names = (keep_fingerprint_unique f m v.names v.unique).0;
  unique = (keep_fingerprint_unique f m v.names v.unique).1;
  bounded = omega (arith, keep_fingerprint-length f m, v.bounded);
}

pub refresh_exclusions-AllValid :
    (id f : Text) (m : Dict (Dict AuthModelExclusion))
    → AllValid m
    → AllValid (refresh_exclusions id f m)
refresh_exclusions-AllValid id f m all = elim (Option-cases (lookup id m)) [
  | inl e ↦ rw (e, refresh_exclusions) all
  | inr (models, e) ↦
      rw (e, refresh_exclusions)
        (elim (Bool-cases (leb 1 (length models))) [
          | inl some_model ↦ rw some_model (
              put_models-AllValid id (keep_fingerprint f models) m
                (keep_fingerprint-AreValid f models (models_of-some id models m e all)) all)
          | inr no_model ↦ rw no_model all
        ])
]
