-- ===== src/AlarmDefinitions/Diff/Loops.antt =====
-- What the two loops over the old and the new definitions collect.
use monasca_api.Prelude.{
  ◌≡◌, Bool, ◌&&◌, ◌||◌, String, List, [], ◌∷◌, arith, has, keys, any, seq, IsEquivalence,
  if◌then◌else◌,
}
use monasca_api.AlarmDefinitions.Diff.{elem, Matched, note, match_new, match_all}
use monasca_api.AlarmDefinitions.Diff.Keys.{DistinctTexts-put}
use monasca_api.AlarmDefinitions.Diff.Sets.{elem-set_add, has-put, DistinctTexts}

module _ {A : Type 0} (eq same_key : A → A → Bool) (key : A → String) where
  abbrev new_step : A → A → Matched A → Matched A
  new_step o n m = if same_key o n then note eq same_key key o n m else m

  changed-match_new :
      (o : A) (k : String) (m : Matched A) (ns : List A)
      → has k (match_new eq same_key key o m ns).changed
        ≡ (has k m.changed || seq (key o) k && any (same_key o) ns)
  unfolding match_new
  changed-match_new o k m [] = ground arith
  changed-match_new o k m (n ∷ ns) =
      ground (arith, changed-match_new o k (new_step o n m) ns, has-put (key o) k n m.changed)

  -- The keys of the changed ones are those of the old ones with a match.
  pub changed-match_all :
      (k : String) (m : Matched A) (os ns : List A)
      → has k (match_all eq same_key key m os ns).changed
        ≡ (has k m.changed || any (λ o. seq (key o) k && any (same_key o) ns) os)
  unfolding match_all
  changed-match_all k m [] ns = ground arith
  changed-match_all k m (o ∷ os) ns = ground (
    arith,
    changed-match_all k (match_new eq same_key key o m ns) os ns,
    changed-match_new o k m ns,
  )

  changed_keys-match_new :
      (o : A) (m : Matched A) (ns : List A)
      → DistinctTexts (keys m.changed)
      → DistinctTexts (keys (match_new eq same_key key o m ns).changed)
  unfolding match_new
  changed_keys-match_new o m [] d = d
  changed_keys-match_new o m (n ∷ ns) d =
      changed_keys-match_new o (new_step o n m) ns
        (ground (arith, DistinctTexts-put (key o) n m.changed d))

  pub changed_keys-match_all :
      (m : Matched A) (os ns : List A)
      → DistinctTexts (keys m.changed)
      → DistinctTexts (keys (match_all eq same_key key m os ns).changed)
  unfolding match_all
  changed_keys-match_all m [] ns d = d
  changed_keys-match_all m (o ∷ os) ns d =
      changed_keys-match_all (match_new eq same_key key o m ns) os ns
        (changed_keys-match_new o m ns d)

  module _ (equiv : IsEquivalence eq) where
    old-match_new :
        (x o : A) (m : Matched A) (ns : List A)
        → elem eq x (match_new eq same_key key o m ns).old_to_remove
          ≡ (elem eq x m.old_to_remove || eq x o && any (same_key o) ns)
    unfolding match_new
    old-match_new x o m [] = ground arith
    old-match_new x o m (n ∷ ns) =
        ground
          (arith, old-match_new x o (new_step o n m) ns, elem-set_add eq equiv x o m.old_to_remove)

    -- The old ones that are set aside are those with a match.
    pub old-match_all :
        (x : A) (m : Matched A) (os ns : List A)
        → elem eq x (match_all eq same_key key m os ns).old_to_remove
          ≡ (elem eq x m.old_to_remove || any (λ o. eq x o && any (same_key o) ns) os)
    unfolding match_all
    old-match_all x m [] ns = ground arith
    old-match_all x m (o ∷ os) ns =
        ground
          (arith, old-match_all x (match_new eq same_key key o m ns) os ns, old-match_new x o m ns)

    new-match_new :
        (x o : A) (m : Matched A) (ns : List A)
        → elem eq x (match_new eq same_key key o m ns).new_to_remove
          ≡ (elem eq x m.new_to_remove || any (λ n. eq x n && same_key o n) ns)
    unfolding match_new
    new-match_new x o m [] = ground arith
    new-match_new x o m (n ∷ ns) =
        ground
          (arith, new-match_new x o (new_step o n m) ns, elem-set_add eq equiv x n m.new_to_remove)

    -- The new ones that are set aside are those that are equal to a match.
    pub new-match_all :
        (x : A) (m : Matched A) (os ns : List A)
        → elem eq x (match_all eq same_key key m os ns).new_to_remove
          ≡ (elem eq x m.new_to_remove || any (λ o. any (λ n. eq x n && same_key o n) ns) os)
    unfolding match_all
    new-match_all x m [] ns = ground arith
    new-match_all x m (o ∷ os) ns =
        ground
          (arith, new-match_all x (match_new eq same_key key o m ns) os ns, new-match_new x o m ns)
