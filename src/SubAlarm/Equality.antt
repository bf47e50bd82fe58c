-- ===== src/SubAlarm/Equality.antt =====
-- Equality of sub alarm definitions is an equivalence, as a set of them needs.
use monasca_api.Prelude.{
  ◌≡◌, refl, ℕ, true, String, List, [], ◌∷◌, Option, none, some, arith, Dict, get, all, All,
  IsEquivalence, eq_iff, ◌↔◌, keys, Member, subst, Option-cases, inl, inr, sym, ◌∙◌,
}
use monasca_api.SubAlarm.{SubAlarmDefinition, within, dict_eq, option_eq, same_key_fields, equals}

-- What `==` on dicts decides: the same value for every key.
abbrev pub SameDict : Dict String → Dict String → Type 0
SameDict d e = (k : String) → get k d ≡ get k e

pub option_eq_iff : (a b : Option String) → (option_eq a b ≡ true) ↔ (a ≡ b)
option_eq_iff none none = ground arith
option_eq_iff none (some b) = ground arith
option_eq_iff (some a) none = ground arith
option_eq_iff (some a) (some b) = ground (arith, eq_iff a b)

agree_iff :
    (d e : Dict String) (ks : List String)
    → (all (λ k. option_eq (get k d) (get k e)) ks ≡ true) ↔ All (λ k. get k d ≡ get k e) ks
agree_iff d e [] = ground arith
agree_iff d e (k ∷ ks) = ground (arith, option_eq_iff (get k d) (get k e), agree_iff d e ks)

Member-keys : (d : Dict String) (k v : String) → get k d ≡ some v → Member k (keys d)
unfolding get
Member-keys [] k v h = cc
Member-keys ((j, w) ∷ d) k v h = ground (arith, eq_iff j k, Member-keys d k v)

All-Member {κ} :
    (P : String → Type κ) (ks : List String) (k : String) → All P ks → Member k ks → P k
All-Member P [] k h m = absurd m
All-Member P (j ∷ ks) k (p, h) (inl e) = subst P e p
All-Member P (j ∷ ks) k (p, h) (inr m) = All-Member P ks k h m

All-same : (d e : Dict String) → SameDict d e → (ks : List String) → All (λ k. get k d ≡ get k e) ks
All-same d e h [] = tt
All-same d e h (k ∷ ks) = (h k, All-same d e h ks)

within_sound :
    (d e : Dict String) (k v : String) → within d e ≡ true → get k d ≡ some v → get k d ≡ get k e
within_sound d e k v h g =
    All-Member (λ j. get j d ≡ get j e) (keys d) k ((agree_iff d e (keys d)).0 h)
      (Member-keys d k v g)

dict_eq_sound : (d e : Dict String) → dict_eq d e ≡ true → SameDict d e
unfolding dict_eq
dict_eq_sound d e h k = elim (Option-cases (get k d)) [
  | inr (v, found) ↦ within_sound d e k v (ground arith) found
  | inl absent ↦ elim (Option-cases (get k e)) [
    | inl gone ↦ absent ∙ sym gone
    | inr (v, found) ↦ sym (within_sound e d k v (ground arith) found)
  ]
]

-- Two dicts are equal exactly when they have the same value, or none, for every key, in whatever
-- order their entries stand.
pub dict_eq_iff : (d e : Dict String) → (dict_eq d e ≡ true) ↔ SameDict d e
dict_eq_iff d e = (
  dict_eq_sound d e,
  λ same.
      unfold dict_eq in
      ground (
        arith,
        (agree_iff d e (keys d)).1 (All-same d e same (keys d)),
        (agree_iff e d (keys e)).1 (All-same e d (λ k. sym (same k)) (keys e)),
      ),
)

-- What `same_key_fields` compares, with the dicts by their values.
pub record SameKey (a b : SubAlarmDefinition) : Type 0 where
  pub metric_name : a.metric_name ≡ b.metric_name
  pub dimensions : SameDict a.dimensions b.dimensions
  pub function : a.function ≡ b.function
  pub period : a.period ≡ b.period
  pub periods : a.periods ≡ b.periods

-- Two sub alarm definitions share the key fields exactly when they have the same metric name, function,
-- period and periods, and dimensions with the same values under the same names.
pub same_key_fields_iff : (a b : SubAlarmDefinition) → (same_key_fields a b ≡ true) ↔ SameKey a b
unfolding same_key_fields
same_key_fields_iff a b = (
  λ h. record {
    metric_name = ground (arith, eq_iff a.metric_name b.metric_name);
    dimensions = (dict_eq_iff a.dimensions b.dimensions).0 (ground arith);
    function = ground (arith, eq_iff a.function b.function);
    period = ground (arith, eq_iff a.period b.period);
    periods = ground (arith, eq_iff a.periods b.periods);
  },
  λ h. ground (
    arith,
    eq_iff a.metric_name b.metric_name,
    (dict_eq_iff a.dimensions b.dimensions).1 h.dimensions,
    eq_iff a.function b.function,
    eq_iff a.period b.period,
    eq_iff a.periods b.periods,
  ),
)

SameKey-trans : (a b c : SubAlarmDefinition) → SameKey a b → SameKey b c → SameKey a c
SameKey-trans a b c h g = record {
  metric_name = h.metric_name ∙ g.metric_name;
  dimensions = λ k. h.dimensions k ∙ g.dimensions k;
  function = h.function ∙ g.function;
  period = h.period ∙ g.period;
  periods = h.periods ∙ g.periods;
}

SameKey-sym : (a b : SubAlarmDefinition) → SameKey a b → SameKey b a
SameKey-sym a b h = record {
  metric_name = sym h.metric_name;
  dimensions = λ k. sym (h.dimensions k);
  function = sym h.function;
  period = sym h.period;
  periods = sym h.periods;
}

-- What `__eq__` compares.
pub record Same (float_code : String → ℕ) (a b : SubAlarmDefinition) : Type 0 where
  pub owner : a.alarm_definition_id ≡ b.alarm_definition_id
  pub same_key : SameKey a b
  pub operator : a.operator ≡ b.operator
  pub threshold : float_code a.threshold ≡ float_code b.threshold

module _ (float_code : String → ℕ) where
  -- Two sub alarm definitions are equal exactly when they belong to the same alarm definition, share the
  -- key fields and the operator, and their thresholds are the same number. Their own ids do not matter.
  pub equals_iff : (a b : SubAlarmDefinition) → (equals float_code a b ≡ true) ↔ Same float_code a b
  unfolding equals
  equals_iff a b = (
    λ h. record {
      owner = ground (arith, eq_iff a.alarm_definition_id b.alarm_definition_id);
      same_key = (same_key_fields_iff a b).0 (ground arith);
      operator = (option_eq_iff a.operator b.operator).0 (ground arith);
      threshold = ground arith;
    },
    λ h. ground (
      arith,
      eq_iff a.alarm_definition_id b.alarm_definition_id,
      (same_key_fields_iff a b).1 h.same_key,
      option_eq_iff a.operator b.operator,
    ),
  )

  Same-refl : (a : SubAlarmDefinition) → Same float_code a a
  Same-refl a = record {
    owner = refl;
    same_key = record {
      metric_name = refl;
      dimensions = λ k. refl;
      function = refl;
      period = refl;
      periods = refl;
    };
    operator = refl;
    threshold = refl;
  }

  Same-sym : (a b : SubAlarmDefinition) → Same float_code a b → Same float_code b a
  Same-sym a b h = record {
    owner = sym h.owner;
    same_key = SameKey-sym a b h.same_key;
    operator = sym h.operator;
    threshold = sym h.threshold;
  }

  Same-trans :
      (a b c : SubAlarmDefinition) → Same float_code a b → Same float_code b c → Same float_code a c
  Same-trans a b c h g = record {
    owner = h.owner ∙ g.owner;
    same_key = SameKey-trans a b c h.same_key g.same_key;
    operator = h.operator ∙ g.operator;
    threshold = h.threshold ∙ g.threshold;
  }

  -- Equality of sub alarm definitions is an equivalence relation.
  pub equals-IsEquivalence : IsEquivalence (equals float_code)
  equals-IsEquivalence = record {
    reflexive = λ a. (equals_iff a a).1 (Same-refl a);
    symmetric = λ a b h. (equals_iff b a).1 (Same-sym a b ((equals_iff a b).0 h));
    transitive = λ a b c h g.
        (equals_iff a c).1 (Same-trans a b c ((equals_iff a b).0 h) ((equals_iff b c).0 g));
  }

  -- Equal sub alarm definitions share the key fields with the same ones.
  pub same_key_fields_congr :
      (a b n : SubAlarmDefinition)
      → equals float_code a b ≡ true
      → same_key_fields a n ≡ same_key_fields b n
  same_key_fields_congr a b n h =
      let same : SameKey a b = ((equals_iff a b).0 h).same_key in
      let forth : same_key_fields a n ≡ true → same_key_fields b n ≡ true = λ k.
        (same_key_fields_iff b n).1
          (SameKey-trans b a n (SameKey-sym a b same) ((same_key_fields_iff a n).0 k)) in
      let back : same_key_fields b n ≡ true → same_key_fields a n ≡ true = λ k.
        (same_key_fields_iff a n).1 (SameKey-trans a b n same ((same_key_fields_iff b n).0 k)) in
      ground (arith, forth, back)
