-- ===== src/AlarmDefinitions/Diff/Values.antt =====
-- What holds of all the definitions that go into the sorting holds of all that come out.
use monasca_api.Prelude.{
  ◌≡◌, ap, subst, ℕ, suc, Bool, true, false, String, List, [], ◌∷◌, map, arith, Dict, put, remove,
  has, keys, All, All-append, All-keep, Bool-cases, inl, inr, if◌then◌else◌,
}
use monasca_api.Errors.{Result, ok, err}
use monasca_api.Errors.Outcomes.{returned_steps}
use monasca_api.AlarmDefinitions.Diff.{
  set_add, add_all, set_of, del_all, index_by, Matched, Diff, note, match_new, match_all, no_match,
  with_ids, old_or_changed, new_or_changed, only_old, only_new, changed_by_id, diff,
}

module _ {A : Type 0} (P : A → Type 0) where
  abbrev pub AllValues : Dict A → Type 0
  AllValues d = All (λ e. P e.1) d

  pub AllValues-put : (k : String) (a : A) (d : Dict A) → P a → AllValues d → AllValues (put k a d)
  unfolding put
  AllValues-put k a [] p h = (p, tt)
  AllValues-put k a ((j, b) ∷ d) p (q, h) = ground (arith, AllValues-put k a d p h)

  AllValues-remove : (k : String) (d : Dict A) → AllValues d → AllValues (remove k d)
  unfolding remove
  AllValues-remove k [] h = tt
  AllValues-remove k ((j, b) ∷ d) (q, h) = ground (arith, AllValues-remove k d h)

  AllValues-del_all :
      (ks : List String) (d d' : Dict A) → AllValues d → del_all ks d ≡ ok d' → AllValues d'
  unfolding del_all
  AllValues-del_all [] d d' h e = ground arith
  AllValues-del_all (k ∷ ks) d d' h e = elim (Bool-cases (has k d)) [
    | inl there ↦ AllValues-del_all ks (remove k d) d' (AllValues-remove k d h) (ground arith)
    | inr missing ↦ absurd (ground arith)
  ]

  AllValues-index_by :
      (key : A → String) (d : Dict A) (xs : List A)
      → AllValues d
      → All P xs
      → AllValues (index_by key d xs)
  unfolding index_by
  AllValues-index_by key d [] h k = h
  AllValues-index_by key d (x ∷ xs) h (p, k) =
      AllValues-index_by key (put (key x) x d) xs (AllValues-put (key x) x d p h) k

  module _ (eq same_key : A → A → Bool) (key : A → String) where
    All-set_add : (x : A) (s : List A) → P x → All P s → All P (set_add eq x s)
    unfolding set_add
    All-set_add x s p h = ground (arith, All-append P s (x ∷ []) h (p, tt))

    All-add_all : (s xs : List A) → All P s → All P xs → All P (add_all eq s xs)
    unfolding add_all
    All-add_all s [] h k = h
    All-add_all s (x ∷ xs) h (p, k) = All-add_all (set_add eq x s) xs (All-set_add x s p h) k

    changed-noted :
        (o n : A) (m : Matched A) (same : Bool)
        → P n
        → AllValues m.changed
        → AllValues (if same then note eq same_key key o n m else m).changed
    changed-noted o n m true p h = AllValues-put (key o) n m.changed p h
    changed-noted o n m false p h = h

    changed-match_new :
        (o : A) (m : Matched A) (ns : List A)
        → AllValues m.changed
        → All P ns
        → AllValues (match_new eq same_key key o m ns).changed
    unfolding match_new
    changed-match_new o m [] h k = h
    changed-match_new o m (n ∷ ns) h (p, k) =
        changed-match_new o (if same_key o n then note eq same_key key o n m else m) ns
          (changed-noted o n m (same_key o n) p h) k

    changed-match_all :
        (m : Matched A) (os ns : List A)
        → AllValues m.changed
        → All P ns
        → AllValues (match_all eq same_key key m os ns).changed
    unfolding match_all
    changed-match_all m [] ns h k = h
    changed-match_all m (o ∷ os) ns h k =
        changed-match_all (match_new eq same_key key o m ns) os ns (changed-match_new o m ns h k) k

    All-with_ids :
        (set_id : String → A → A) (fresh : ℕ → String) (n : ℕ) (xs : List A)
        → ((i : String) (a : A) → P a → P (set_id i a))
        → All P xs
        → All P (with_ids eq same_key key set_id fresh n xs)
    All-with_ids set_id fresh n [] keep_id h = tt
    All-with_ids set_id fresh n (x ∷ xs) keep_id (p, h) =
        (keep_id (fresh n) x p, All-with_ids set_id fresh (suc n) xs keep_id h)

    abbrev changed_in : Result (Diff A) → Dict A
    changed_in (ok d) = d.changed
    changed_in (err e) = []

    module _ (olds news : List A) where
      new_or_changed-All : All P news → All P (new_or_changed eq same_key key olds news)
      new_or_changed-All h = All-keep P _ (set_of eq news) (All-add_all [] news tt h)

      -- the changed ones are new definitions
      pub changed_by_id-AllValues : All P news → AllValues (changed_by_id eq same_key key olds news)
      changed_by_id-AllValues h =
          changed-match_all (no_match eq same_key key) (old_or_changed eq same_key key olds news)
            (new_or_changed eq same_key key olds news) tt (new_or_changed-All h)

      only_old-All : All P olds → All P (only_old eq same_key key olds news)
      only_old-All h =
          All-keep P _ (old_or_changed eq same_key key olds news)
            (All-keep P _ (set_of eq olds) (All-add_all [] olds tt h))

      only_new-All : All P news → All P (only_new eq same_key key olds news)
      only_new-All h =
          All-keep P _ (new_or_changed eq same_key key olds news) (new_or_changed-All h)

      pub diff-AllValues :
          (set_id : String → A → A) (fresh : ℕ → String) (d : Diff A)
          → ((i : String) (a : A) → P a → P (set_id i a))
          → All P olds
          → All P news
          → diff eq same_key key set_id fresh olds news ≡ ok d
          → AllValues d.old × AllValues d.changed × AllValues d.new × AllValues d.unchanged
      unfolding diff
      diff-AllValues set_id fresh d keep_id o n sorted =
          let (kept, deleted, next) = returned_steps _ _ sorted in
          let (unchanged, deleted', result) = returned_steps _ _ next in
          let kept-AllValues : AllValues kept =
            AllValues-del_all (map key (only_old eq same_key key olds news)) (index_by key [] olds)
              kept (AllValues-index_by key [] olds tt o) deleted in
          let unchanged-AllValues : AllValues unchanged =
            AllValues-del_all (keys (changed_by_id eq same_key key olds news)) kept unchanged
              kept-AllValues deleted' in
          let old_same : index_by key [] (only_old eq same_key key olds news) ≡ d.old = cc in
          let changed_same : changed_by_id eq same_key key olds news ≡ d.changed = cc in
          let unchanged_same : unchanged ≡ d.unchanged = cc in
          let new_same : index_by key []
                (with_ids eq same_key key set_id fresh 0 (only_new eq same_key key olds news))
              ≡ d.new =
            cc in
          (
            subst AllValues old_same (AllValues-index_by key [] _ tt (only_old-All o)),
            subst AllValues changed_same (changed_by_id-AllValues n),
            subst AllValues new_same (
                AllValues-index_by key [] _ tt
                  (All-with_ids set_id fresh 0 _ keep_id (only_new-All n))),
            subst AllValues unchanged_same unchanged-AllValues,
          )

      -- the changed ones alone are all new definitions, as they were before they got ids
      pub diff_changed-AllValues :
          (set_id : String → A → A) (fresh : ℕ → String) (d : Diff A)
          → All P news
          → diff eq same_key key set_id fresh olds news ≡ ok d
          → AllValues d.changed
      unfolding diff
      diff_changed-AllValues set_id fresh d n sorted =
          let (kept, _, next) =
            returned_steps
              (del_all (map key (only_old eq same_key key olds news)) (index_by key [] olds)) _
              sorted in
          let (unchanged, _, result) =
            returned_steps (del_all (keys (changed_by_id eq same_key key olds news)) kept) _ next in
          let changed_same : changed_by_id eq same_key key olds news ≡ d.changed =
            ap changed_in result in
          subst AllValues changed_same (changed_by_id-AllValues n)
