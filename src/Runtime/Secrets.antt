-- ===== src/Runtime/Secrets.antt =====
-- What `safe_json` of agent_control/runtime_persistence.py leaves in a stored value.
use freaky_monkey.Base.{
  String, Bool, true, false, [], ◌∷◌, all, ◌≡◌, refl, ap, ◌&&◌, str_eq, eq_iff, eq_refl, arith,
  Bool-cases, inl, inr, if◌then◌else◌,
}
use freaky_monkey.Json.{
  Value, null, bool, num, str, arr, obj, Items, nil, cons, Fields, end, field, Params,
}
use freaky_monkey.Runtime.Redaction.{is_sensitive, safe_json, safe_items, safe_fields, safe_params}

abbrev is_redacted : Value → Bool
is_redacted (str s) = str_eq s "[REDACTED]"
is_redacted _ = false

-- Every key with a sensitive name, at any depth, holds only the mark.
unfoldable mutual
  pub is_clean : Value → Bool
  is_clean (arr xs) = clean_items xs
  is_clean (obj fs) = clean_fields fs
  is_clean null = true
  is_clean (bool b) = true
  is_clean (num n) = true
  is_clean (str s) = true

  pub clean_items : Items → Bool
  clean_items nil = true
  clean_items (cons x xs) = is_clean x && clean_items xs

  pub clean_fields : Fields → Bool
  clean_fields end = true
  clean_fields (field k v fs) =
      (if is_sensitive k then is_redacted v else is_clean v) && clean_fields fs

field_clean :
    (k : String) (v : Value) (fs : Fields)
    → is_clean (safe_json v) ≡ true
    → clean_fields (safe_fields fs) ≡ true
    → clean_fields (safe_fields (field k v fs)) ≡ true
unfolding is_clean safe_json
field_clean k v fs h t = elim (Bool-cases (is_sensitive k)) [
  | inl secret ↦ ground (arith, secret, h, t, eq_refl "[REDACTED]")
  | inr open_key ↦ ground (arith, open_key, h, t)
]

mutual
  unfolding is_clean safe_json

  safe_json-clean : (v : Value) → is_clean (safe_json v) ≡ true
  safe_json-clean (arr xs) = safe_items-clean xs
  safe_json-clean (obj fs) = safe_fields-clean fs
  safe_json-clean null = refl
  safe_json-clean (bool b) = refl
  safe_json-clean (num n) = refl
  safe_json-clean (str s) = refl

  safe_items-clean : (xs : Items) → clean_items (safe_items xs) ≡ true
  safe_items-clean nil = refl
  safe_items-clean (cons x xs) = ground (arith, safe_json-clean x, safe_items-clean xs)

  safe_fields-clean : (fs : Fields) → clean_fields (safe_fields fs) ≡ true
  safe_fields-clean end = refl
  safe_fields-clean (field k v fs) = field_clean k v fs (safe_json-clean v) (safe_fields-clean fs)

field_unchanged :
    (k : String) (v : Value) (fs : Fields)
    → clean_fields (field k v fs) ≡ true
    → (is_clean v ≡ true → safe_json v ≡ v)
    → safe_fields fs ≡ fs
    → safe_fields (field k v fs) ≡ field k v fs
unfolding is_clean safe_json
field_unchanged k v fs c h t = elim (Bool-cases (is_sensitive k)) [
  | inl secret ↦ by_value v secret c
  | inr open_key ↦ cc (open_key, h (ground arith), t)
]
  where
    by_value :
        (v : Value)
        → is_sensitive k ≡ true
        → clean_fields (field k v fs) ≡ true
        → safe_fields (field k v fs) ≡ field k v fs
    by_value (str s) secret c = ground (arith, eq_iff s "[REDACTED]", t)
    by_value null secret c = ground arith
    by_value (bool b) secret c = ground arith
    by_value (num n) secret c = ground arith
    by_value (arr xs) secret c = ground arith
    by_value (obj gs) secret c = ground arith

mutual
  unfolding is_clean safe_json

  safe_json_same : (v : Value) → is_clean v ≡ true → safe_json v ≡ v
  safe_json_same (arr xs) h = ap arr (safe_items_same xs h)
  safe_json_same (obj fs) h = ap obj (safe_fields_same fs h)
  safe_json_same null h = refl
  safe_json_same (bool b) h = refl
  safe_json_same (num n) h = refl
  safe_json_same (str s) h = refl

  safe_items_same : (xs : Items) → clean_items xs ≡ true → safe_items xs ≡ xs
  safe_items_same nil h = refl
  safe_items_same (cons x xs) h =
      cc (safe_json_same x (ground arith), safe_items_same xs (ground arith))

  safe_fields_same : (fs : Fields) → clean_fields fs ≡ true → safe_fields fs ≡ fs
  safe_fields_same end h = refl
  safe_fields_same (field k v fs) h =
      field_unchanged k v fs h (safe_json_same v) (safe_fields_same fs (ground arith))

-- `safe_json` leaves no value under a key with a sensitive name, at any depth, and redacting its result
-- again changes nothing.
safe_json_lem :
    (v : Value) → (is_clean (safe_json v) ≡ true) × (safe_json (safe_json v) ≡ safe_json v)
safe_json_lem v = (safe_json-clean v, safe_json_same (safe_json v) (safe_json-clean v))

-- `is_clean` of a dictionary at the top.
abbrev pub clean_params : Params → Bool
clean_params = all (λ (k, v). if is_sensitive k then is_redacted v else is_clean v)

pub safe_params-clean : (m : Params) → clean_params (safe_params m) ≡ true
unfolding safe_params
safe_params-clean [] = refl
safe_params-clean ((k, v) ∷ m) = elim (Bool-cases (is_sensitive k)) [
  | inl secret ↦ ground (arith, secret, safe_params-clean m, eq_refl "[REDACTED]")
  | inr open_key ↦ ground (arith, open_key, safe_params-clean m, safe_json-clean v)
]
