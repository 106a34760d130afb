-- ===== src/Paths/Normal.antt =====
-- What the normal forms of src/asset_store_core/paths.py are.
use prototype_cache.Prelude.{
  String, [], ◌∷◌, ◌≡◌, refl, Bool, true, false, not, inl, inr, Bool-cases, arith, contains, str_eq,
  eq_iff, subst,
}
use prototype_cache.Prelude.Text.{split}
use prototype_cache.Errors.{ok, validation, raise_if, raise_if-ok, ◌>>◌}
use prototype_cache.Paths.{trim, has_slash, storage_buckets, normalize_space}

ok_inj : {a b : String} → ok a ≡ ok b → a ≡ b
ok_inj h = cc

bucket_of_checks :
    (name b : String) (p q r : Bool)
    → (raise_if p validation
        >> (raise_if q validation
            >> (raise_if r validation
                >> (raise_if (not (contains name storage_buckets)) validation >> ok name))))
      ≡ ok b
    → contains b storage_buckets ≡ true
bucket_of_checks name b p q r h =
    let h1 = (raise_if-ok p validation _ h).1 in
    let h2 = (raise_if-ok q validation _ h1).1 in
    let h3 = (raise_if-ok r validation _ h2).1 in
    let h4 = raise_if-ok (not (contains name storage_buckets)) validation (ok name) h3 in
    named (contains name storage_buckets) refl h4.0 h4.1
  where
    named :
        (c : Bool)
        → contains name storage_buckets ≡ c
        → not c ≡ false
        → ok name ≡ ok b
        → contains b storage_buckets ≡ true
    named true e n same = subst (λ x. contains x storage_buckets ≡ true) (ok_inj same) e
    named false e n same = cc

bucket_of_normalize : (x b : String) → normalize_space x ≡ ok b → contains b storage_buckets ≡ true
unfolding normalize_space
bucket_of_normalize x b h =
    bucket_of_checks (trim x) b (str_eq (trim x) "") (has_slash (split (trim x)))
      (contains (trim x) ("." ∷ ".." ∷ [])) h

normalize_bucket_name :
    (b c : String) → str_eq c b ≡ true → normalize_space c ≡ ok c → normalize_space b ≡ ok b
normalize_bucket_name b c same h = subst (λ x. normalize_space x ≡ ok x) ((eq_iff c b).0 same) h

normalize_bucket_names : (b : String) → contains b storage_buckets ≡ true → normalize_space b ≡ ok b
normalize_bucket_names b m = elim (Bool-cases (str_eq "cache" b)) [
  | inl e ↦ normalize_bucket_name b "cache" e (unfold normalize_space in refl)
  | inr not_cache ↦ elim (Bool-cases (str_eq "tmp" b)) [
    | inl e ↦ normalize_bucket_name b "tmp" e (unfold normalize_space in refl)
    | inr not_tmp ↦ elim (Bool-cases (str_eq "users" b)) [
      | inl e ↦ normalize_bucket_name b "users" e (unfold normalize_space in refl)
      | inr not_users ↦ elim (Bool-cases (str_eq "results" b)) [
        | inl e ↦ normalize_bucket_name b "results" e (unfold normalize_space in refl)
        | inr not_results ↦ ground arith
      ]
    ]
  ]
]

-- A bucket's name is its own normal form.
pub normalize_space_idem : (x b : String) → normalize_space x ≡ ok b → normalize_space b ≡ ok b
normalize_space_idem x b h = normalize_bucket_names b (bucket_of_normalize x b h)
