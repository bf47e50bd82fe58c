-- ===== src/AlarmDefinitions/Diff/Partition.antt =====
-- Where each old definition goes.
use monasca_api.Prelude.{
  ◌≡◌, refl, ap, sym, subst, ◌∙◌, ℕ, Bool, true, false, not, ◌&&◌, String, List, [], ◌∷◌, map,
  arith, Dict, get, has, keys, any, keep, All, seq, eq_iff, eq_refl, Bool-cases, inl, inr,
  IsEquivalence, listed,
}
use monasca_api.Errors.{ok}
use monasca_api.AlarmDefinitions.Diff.{
  elem, set_of, Diff, Matched, no_match, match_all, old_or_changed, new_or_changed, only_old,
  only_new, with_ids, changed_by_id, diff, del_all, index_by,
}
use monasca_api.AlarmDefinitions.Diff.Sets.{
  In, any-of_In, Pairwise, set_of-distinct, elem-add_all, has-index_by, DistinctTexts,
  del_all_outcome, Leaves,
}
use monasca_api.AlarmDefinitions.Diff.Loops.{
  changed-match_all, changed_keys-match_all, old-match_all,
}
use monasca_api.AlarmDefinitions.Diff.Keys.{
  any-keep, any-In, any_none, any_only, listed-map, DistinctTexts-keep, listed-keys, All-of_listed,
}

module _ {A : Type 0} where
  keep_congr :
      (p q : A → Bool) (xs : List A) → ((x : A) → In x xs → p x ≡ q x) → keep p xs ≡ keep q xs
  unfolding keep
  keep_congr p q [] h = refl
  keep_congr p q (x ∷ xs) h = ground (arith, h x (inl refl), keep_congr p q xs (λ y m. h y (inr m)))

  any_equal :
      (eq : A → A → Bool) (m : A → Bool) (x : A) (xs : List A)
      → eq x x ≡ true
      → ((y : A) → eq x y ≡ true → m x ≡ m y)
      → In x xs
      → any (λ y. eq x y && m y) xs ≡ m x
  any_equal eq m x xs r c mem = elim (Bool-cases (m x)) [
    | inl holds ↦ any-of_In (λ y. eq x y && m y) xs x mem (ground arith) ∙ sym holds
    | inr fails ↦ any_none (λ y. eq x y && m y) xs (none_of xs fails) ∙ sym fails
  ]
    where
      none_of : (ys : List A) → m x ≡ false → All (λ y. (eq x y && m y) ≡ false) ys
      none_of = elim [ [] ↦ λ f. tt | y ∷ (ys → ih) ↦ λ f. (ground (arith, c y), ih f) ]

module _ {A : Type 0} (eq same_key : A → A → Bool) (key : A → String) (equiv : IsEquivalence eq)
    (respects : (a b n : A) → eq a b ≡ true → same_key a n ≡ same_key b n) (olds news : List A)
    (no_duplicates : Pairwise eq equiv olds) (distinct : DistinctTexts (map key olds)) where
  -- It has the key fields of a new one that is equal to no old one.
  abbrev pub has_match : A → Bool
  has_match o = any (λ n. same_key o n) (new_or_changed eq same_key key olds news)

  abbrev is_gone : A → Bool
  is_gone o = not (elem eq o (set_of eq news))

  has_match_congr :
      (ns : List A) (a b : A) → eq a b ≡ true → any (same_key a) ns ≡ any (same_key b) ns
  has_match_congr [] a b h = refl
  has_match_congr (n ∷ ns) a b h = ground (arith, respects a b n h, has_match_congr ns a b h)

  gone : List A
  gone = keep is_gone olds

  old_or_changed-gone : old_or_changed eq same_key key olds news ≡ gone
  unfolding gone
  old_or_changed-gone = ap (keep is_gone) (set_of-distinct eq equiv olds no_duplicates)

  abbrev incoming : List A
  incoming = new_or_changed eq same_key key olds news

  abbrev start : Matched A
  start = no_match eq same_key key

  set_aside :
      (x : A)
      → In x gone
      → elem eq x (match_all eq same_key key start gone incoming).old_to_remove ≡ has_match x
  set_aside x m =
      old-match_all eq same_key key equiv x start gone incoming
      ∙ any_equal eq has_match x gone (equiv.reflexive x) (λ y e. has_match_congr incoming x y e) m

  only_old-keep : only_old eq same_key key olds news ≡ keep (λ o. not (has_match o)) gone
  only_old-keep = rw old_or_changed-gone (keep_congr _ _ gone (λ x m. ap not (set_aside x m)))

  has-changed :
      (k : String)
      → has k (changed_by_id eq same_key key olds news)
        ≡ any (λ o. seq (key o) k && has_match o) gone
  unfolding get
  has-changed k =
      ap (λ os. has k (match_all eq same_key key start os incoming).changed) old_or_changed-gone
      ∙ changed-match_all eq same_key key k start gone incoming

  has-only_old :
      (k : String)
      → has k (index_by key [] (only_old eq same_key key olds news))
        ≡ any (λ o. seq (key o) k) (keep (λ o. not (has_match o)) gone)
  unfolding get
  has-only_old k = rw only_old-keep (has-index_by key k [] _)

  elem-news : (o : A) → elem eq o (set_of eq news) ≡ elem eq o news
  elem-news o = elem-add_all eq equiv o [] news

  module _ (o : A) (mem : In o olds) where
    abbrev one : (A → Bool) → A → Bool
    one g x = is_gone x && g x

    gone_only :
        (g : A → Bool)
        → ((x : A) → seq (key x) (key o) ≡ false → g x ≡ false)
        → any g gone ≡ (is_gone o && g o)
    unfolding gone
    gone_only g h =
        any-keep g is_gone olds
        ∙ any_only key (one g) o olds (λ x n. ground (arith, h x n)) distinct mem

    changed_at :
        has (key o) (changed_by_id eq same_key key olds news)
        ≡ (not (elem eq o news) && has_match o)
    changed_at =
        has-changed (key o)
        ∙ gone_only (λ x. seq (key x) (key o) && has_match x) (λ x n. rw n)
        ∙ ground (arith, elem-news o, eq_refl (key o))

    only_old_at :
        has (key o) (index_by key [] (only_old eq same_key key olds news))
        ≡ (not (elem eq o news) && not (has_match o))
    only_old_at =
        has-only_old (key o)
        ∙ any-keep (λ x. seq (key x) (key o)) (λ x. not (has_match x)) gone
        ∙ gone_only (λ x. not (has_match x) && seq (key x) (key o)) (λ x n. ground (arith, n))
        ∙ ground (arith, elem-news o, eq_refl (key o))

    stored : has (key o) (index_by key [] olds) ≡ true
    unfolding get
    stored =
        has-index_by key (key o) [] olds
        ∙ any-of_In (λ x. seq (key x) (key o)) olds o mem (eq_refl (key o))

    listed-only_old :
        listed (map key (only_old eq same_key key olds news)) (key o)
        ≡ (not (elem eq o news) && not (has_match o))
    unfolding get
    listed-only_old =
        listed-map key (only_old eq same_key key olds news) (key o)
        ∙ sym (has-index_by key (key o) [] (only_old eq same_key key olds news))
        ∙ only_old_at

  -- Where an old definition goes: by its id it is in one of the three dicts and in no other. It is
  -- unchanged if it is equal to a new one, changed if it is not but has a match, and old otherwise.
  pub record Goes (d : Diff A) (o : A) : Type 0 where
    pub unchanged : has (key o) d.unchanged ≡ elem eq o news
    pub changed : has (key o) d.changed ≡ (not (elem eq o news) && has_match o)
    pub old : has (key o) d.old ≡ (not (elem eq o news) && not (has_match o))

  In-keep : (q : A → Bool) (xs : List A) (a : A) → In a (keep q xs) → In a xs
  unfolding keep
  In-keep q [] a m = m
  In-keep q (x ∷ xs) a m = elim (Bool-cases (q x)) [
    | inl kept ↦ elim (rw (kept, keep) at m) [ inl e ↦ inl e | inr n ↦ inr (In-keep q xs a n) ]
    | inr dropped ↦ inr (In-keep q xs a (rw (dropped, keep) at m))
  ]

  In-gone : (o : A) → In o gone → In o olds
  unfolding gone
  In-gone o m = In-keep is_gone olds o m

  old_ids_there :
      All (λ j. has j (index_by key [] olds) ≡ true) (map key (only_old eq same_key key olds news))
  old_ids_there = All-of_listed _ _ λ j h.
      let (x, m, e) =
        any-In (λ x. seq (key x) j) (only_old eq same_key key olds news)
          (sym (listed-map key (only_old eq same_key key olds news) j) ∙ h) in
      let member =
        In-gone x (In-keep (λ o. not (has_match o)) gone x (subst (In x) only_old-keep m)) in
      subst (λ k. has k (index_by key [] olds) ≡ true) ((eq_iff (key x) j).0 e) (stored x member)

  changed_ids_there :
      (d : Dict A)
      → Leaves (map key (only_old eq same_key key olds news)) (index_by key [] olds) d
      → All (λ j. has j d ≡ true) (keys (changed_by_id eq same_key key olds news))
  changed_ids_there d leaves = All-of_listed _ _ λ j h.
      let (o, m, g) =
        any-In (λ o. seq (key o) j && has_match o) gone
          (sym (has-changed j)
            ∙ sym (listed-keys (changed_by_id eq same_key key olds news) j)
            ∙ h) in
      let member = In-gone o m in
      let there : has (key o) d ≡ true =
        ground (arith, leaves (key o), listed-only_old o member, stored o member) in
      subst (λ k. has k d ≡ true) ((eq_iff (key o) j).0 (ground arith)) there

  old_ids_distinct : DistinctTexts (map key (only_old eq same_key key olds news))
  unfolding gone
  old_ids_distinct = rw only_old-keep (
      DistinctTexts-keep key (λ o. not (has_match o)) gone
        (DistinctTexts-keep key is_gone olds distinct))

  abbrev sorted_into : (String → A → A) → (ℕ → String) → Dict A → Diff A
  sorted_into set_id fresh unchanged = record {
    old = index_by key [] (only_old eq same_key key olds news);
    changed = changed_by_id eq same_key key olds news;
    new =
        index_by key []
          (with_ids eq same_key key set_id fresh 0 (only_new eq same_key key olds news));
    unchanged = unchanged;
  }

  diff_steps :
      (set_id : String → A → A) (fresh : ℕ → String) (kept unchanged : Dict A)
      → del_all (map key (only_old eq same_key key olds news)) (index_by key [] olds) ≡ ok kept
      → del_all (keys (changed_by_id eq same_key key olds news)) kept ≡ ok unchanged
      → diff eq same_key key set_id fresh olds news ≡ ok (sorted_into set_id fresh unchanged)
  diff_steps set_id fresh kept unchanged done done' = unfold diff in rw (done, done')

  -- Deleting from the copy of the old dict raises no `KeyError`, so the sorting succeeds, and every
  -- old definition goes to the one dict that it belongs to: unchanged if it is equal to a new one,
  -- changed if it is not and shares the key fields with a new one that is equal to no old one, and
  -- old otherwise. The old ones have distinct ids, and no two of them are equal.
  pub diff-Goes :
      (set_id : String → A → A) (fresh : ℕ → String)
      → (d : Diff A) × (diff eq same_key key set_id fresh olds news ≡ ok d)
        × ((o : A) → In o olds → Goes d o)
  diff-Goes set_id fresh =
      let changed_ids = keys (changed_by_id eq same_key key olds news) in
      let (kept, done, leaves) =
        del_all_outcome (map key (only_old eq same_key key olds news)) (index_by key [] olds)
          old_ids_distinct old_ids_there in
      let (unchanged, done', leaves') =
        del_all_outcome changed_ids kept
          (changed_keys-match_all eq same_key key start (old_or_changed eq same_key key olds news)
            incoming tt)
          (changed_ids_there kept leaves) in
      (
        sorted_into set_id fresh unchanged,
        diff_steps set_id fresh kept unchanged done done',
        λ o m. record {
          unchanged = ground (
            arith,
            leaves' (key o),
            leaves (key o),
            listed-only_old o m,
            stored o m,
            listed-keys (changed_by_id eq same_key key olds news) (key o),
            changed_at o m,
          );
          changed = changed_at o m;
          old = only_old_at o m;
        },
      )
