-- ===== src/Http/Params.antt =====
-- The parameters of a request, against a plain reading of its query.
use league_table.Prelude.{
  String, ◌≡◌, refl, ap, ◌∙◌, sym, Bool, true, false, not, ◌&&◌, List, [], ◌∷◌, ◌++◌, map, arith,
  inl, inr, Bool-cases, if◌then◌else◌, ◌===◌, includes, All, All-append, All-map, eq_iff,
}
use league_table.Http.Types.{QueryValue, Browser}
use league_table.Http.Send.{set_param, add_param, add_params, params_of}
use league_table.Http.Endpoints.{WriteBody, Call, view_query, sent_by}

-- The parameters that one key gives: its values, but no absent or empty one.
abbrev pub values_of : String → QueryValue → List (String × String)
values_of key QueryValue.absent = []
values_of key (QueryValue.one value) = if value === "" then [] else (key, value) ∷ []
values_of key (QueryValue.many values) = map (λ v. (key, v)) values

abbrev pub flatten : List (String × QueryValue) → List (String × String)
flatten [] = []
flatten ((key, value) ∷ query) = values_of key value ++ flatten query

-- no key stands twice, or among those seen
abbrev distinct_from : List String → List (String × QueryValue) → Bool
distinct_from seen [] = true
distinct_from seen ((key, value) ∷ query) =
    not (includes seen key) && distinct_from (key ∷ seen) query

abbrev IsSeen : List String → String × String → Type 0
IsSeen seen p = includes seen p.0 ≡ true

append_nil : {A : Type 0} (xs : List A) → xs ++ [] ≡ xs
append_nil [] = refl
append_nil (x ∷ xs) = ap (λ ys. x ∷ ys) (append_nil xs)

append_assoc : {A : Type 0} (xs ys zs : List A) → (xs ++ ys) ++ zs ≡ xs ++ (ys ++ zs)
append_assoc [] ys zs = refl
append_assoc (x ∷ xs) ys zs = ap (λ l. x ∷ l) (append_assoc xs ys zs)

set_param-new :
    (seen : List String) (key value : String) (ps : List (String × String))
    → includes seen key ≡ false
    → All (IsSeen seen) ps
    → set_param key value ps ≡ ps ++ ((key, value) ∷ [])
set_param-new seen key value [] new h = refl
set_param-new seen key value ((k, v) ∷ ps) new (hk, h) = elim (Bool-cases (k === key)) [
  | inl e ↦
      let same : includes seen k ≡ includes seen key = ap (includes seen) ((eq_iff k key).0 e) in cc
  | inr e ↦ rw e (ap (λ l. (k, v) ∷ l) (set_param-new seen key value ps new h))
]

add_param-values_of :
    (seen : List String) (key : String) (value : QueryValue) (ps : List (String × String))
    → includes seen key ≡ false
    → All (IsSeen seen) ps
    → add_param key value ps ≡ ps ++ values_of key value
add_param-values_of seen key QueryValue.absent ps new h = sym (append_nil ps)
add_param-values_of seen key (QueryValue.one value) ps new h = elim (Bool-cases (value === "")) [
  | inl e ↦ rw e (sym (append_nil ps))
  | inr e ↦ rw e (set_param-new seen key value ps new h)
]
add_param-values_of seen key (QueryValue.many values) ps new h = refl

includes_self : (key : String) (seen : List String) → includes (key ∷ seen) key ≡ true
includes_self key seen = ground (arith, eq_iff key key)

own_values-IsSeen :
    (key : String) (seen values : List String)
    → All (IsSeen (key ∷ seen)) (map (λ v. (key, v)) values)
own_values-IsSeen key seen [] = tt
own_values-IsSeen key seen (v ∷ vs) = (includes_self key seen, own_values-IsSeen key seen vs)

values_of-IsSeen :
    (key : String) (seen : List String) (value : QueryValue)
    → All (IsSeen (key ∷ seen)) (values_of key value)
values_of-IsSeen key seen QueryValue.absent = tt
values_of-IsSeen key seen (QueryValue.one value) = elim (Bool-cases (value === "")) [
  | inl e ↦ rw e tt
  | inr e ↦ rw e (includes_self key seen, tt)
]
values_of-IsSeen key seen (QueryValue.many values) = own_values-IsSeen key seen values

add_params-flatten :
    (seen : List String) (query : List (String × QueryValue)) (ps : List (String × String))
    → distinct_from seen query ≡ true
    → All (IsSeen seen) ps
    → add_params query ps ≡ ps ++ flatten query
add_params-flatten seen [] ps d h = sym (append_nil ps)
add_params-flatten seen ((key, value) ∷ query) ps d h =
    let new : includes seen key ≡ false = ground arith in
    let rest : distinct_from (key ∷ seen) query ≡ true = ground arith in
    let older = All-map _ (IsSeen (key ∷ seen)) (λ p q. ground (arith, q)) ps h in
    let seen_now = All-append _ ps (values_of key value) older (values_of-IsSeen key seen value) in
    ap (add_params query) (add_param-values_of seen key value ps new h)
    ∙ add_params-flatten (key ∷ seen) query (ps ++ values_of key value) rest seen_now
    ∙ append_assoc ps (values_of key value) (flatten query)

module _ {J W : Type 0} (browser : Browser J (WriteBody W)) where
  sent_by-distinct : (call : Call W) → distinct_from [] (sent_by browser call).query ≡ true
  unfolding sent_by view_query
  sent_by-distinct call = elim call as (λ c. distinct_from [] (sent_by browser c).query ≡ true) [
    | Call.login_options ↦ refl
    | Call.classes _ ↦ refl
    | Call.bootstrap _ ↦ refl
    | Call.ranking _ _ _ ↦ refl
    | Call.explanation _ _ _ _ ↦ refl
    | Call.explainer _ ↦ refl
    | Call.commitments _ _ _ ↦ refl
    | Call.save_baseline _ _ _ _ ↦ refl
    | Call.save_weekly_update _ _ _ _ _ ↦ refl
    | Call.pending_baselines _ ↦ refl
    | Call.decide_baseline _ _ _ _ ↦ refl
    | Call.weekly_updates _ ↦ refl
    | Call.reverse_weekly_update _ _ ↦ refl
    | Call.digest _ _ ↦ refl
    | Call.risk_record _ _ _ ↦ refl
    | Call.note _ _ _ _ ↦ refl
    | Call.risk_settings _ ↦ refl
    | Call.risk_settings_saved _ _ ↦ refl
    | Call.my_standing _ _ _ ↦ refl
    | Call.settings_saved _ _ ↦ refl
    | Call.refreshed _ ↦ refl
    | Call.status _ ↦ refl
  ]

  -- The parameters of every call are the values of its query that are neither absent nor empty, in the
  -- order of the query, under their keys.
  pub params_of-flatten :
      (call : Call W)
      → params_of (sent_by browser call).query ≡ flatten (sent_by browser call).query
  unfolding params_of
  params_of-flatten call =
      add_params-flatten [] (sent_by browser call).query [] (sent_by-distinct call) tt
