-- ===== src/AlarmDefinitions/Diff.antt =====
-- How an update sorts the sub alarm definitions into old, changed, new and unchanged ones, in
-- `update_or_patch_alarm_definition` of
-- monasca/common/repositories/mysql/alarm_definitions_repository.py. A Python set is the list of its
-- elements in the order in which it is walked; `eq` is `__eq__`, which a set goes by.
pub mod Sets
pub mod Keys
pub mod Loops
pub mod Partition
pub mod Values
use monasca_api.Prelude.{
  ◌≡◌, ℕ, zero, suc, Bool, true, false, not, String, List, [], ◌∷◌, ◌++◌, map, Option, none, some,
  Dict, get, put, remove, has, keys, any, keep, if◌then◌else◌,
}
use monasca_api.Errors.{Result, ok, err, ◌>>=◌, python}

module _ {A : Type 0} (eq : A → A → Bool) where
  -- `x in s`
  abbrev pub elem : A → List A → Bool
  elem x s = any (eq x) s

  -- `s.add(x)`
  unfoldable pub set_add : A → List A → List A
  set_add x s = if elem x s then s else s ++ x ∷ []

  -- `s.add(x)` for each x; `set(xs)` from the empty set
  unfoldable pub add_all : List A → List A → List A
  unfolding set_add
  add_all s [] = s
  add_all s (x ∷ xs) = add_all (set_add x s) xs

  abbrev pub set_of : List A → List A
  set_of xs = add_all [] xs

  -- `a - b`
  abbrev pub difference : List A → List A → List A
  difference a b = keep (λ x. not (elem x b)) a

-- `del d[k]` for each k
unfoldable pub del_all : {V : Type 0} → List String → Dict V → Result (Dict V)
unfolding remove
del_all [] d = ok d
del_all (k ∷ ks) d = if has k d then del_all ks (remove k d) else err (python "KeyError")

-- `d[x.id] = x` for each x
unfoldable pub index_by : {V : Type 0} → (V → String) → Dict V → List V → Dict V
unfolding put
index_by key d [] = d
index_by key d (x ∷ xs) = index_by key (put (key x) x d) xs

pub record Matched (A : Type 0) : Type 0 where
  pub old_to_remove : List A
  pub new_to_remove : List A
  pub changed : Dict A

pub record Diff (A : Type 0) : Type 0 where
  pub old : Dict A
  pub changed : Dict A
  pub new : Dict A
  pub unchanged : Dict A

module _ {A : Type 0} (eq same_key : A → A → Bool) (key : A → String) where
  -- the body of the two loops
  abbrev pub note : A → A → Matched A → Matched A
  note o n m = record {
    old_to_remove = set_add eq o m.old_to_remove;
    new_to_remove = set_add eq n m.new_to_remove;
    changed = put (key o) n m.changed;
  }

  -- the inner loop, over the new or changed ones
  unfoldable pub match_new : A → Matched A → List A → Matched A
  unfolding set_add put
  match_new o m [] = m
  match_new o m (n ∷ ns) = match_new o (if same_key o n then note o n m else m) ns

  -- the outer loop, over the old or changed ones
  unfoldable pub match_all : Matched A → List A → List A → Matched A
  unfolding match_new
  match_all m [] ns = m
  match_all m (o ∷ os) ns = match_all (match_new o m ns) os ns

  abbrev pub no_match : Matched A
  no_match = record { old_to_remove = []; new_to_remove = []; changed = [] }

  -- `new_sub_alarm_def.id = generate_uuid()` for each, from the n-th generated id on
  abbrev pub with_ids : (String → A → A) → (ℕ → String) → ℕ → List A → List A
  with_ids set_id fresh n [] = []
  with_ids set_id fresh n (x ∷ xs) = set_id (fresh n) x ∷ with_ids set_id fresh (suc n) xs

  abbrev pub old_or_changed : List A → List A → List A
  old_or_changed olds news = difference eq (set_of eq olds) (set_of eq news)

  abbrev pub new_or_changed : List A → List A → List A
  new_or_changed olds news = difference eq (set_of eq news) (set_of eq olds)

  -- the old ones that are to be removed: `olds` are the values of the dict by id
  abbrev pub only_old : List A → List A → List A
  only_old olds news =
      difference eq (old_or_changed olds news)
        (match_all no_match (old_or_changed olds news) (new_or_changed olds news)).old_to_remove

  abbrev pub only_new : List A → List A → List A
  only_new olds news =
      difference eq (new_or_changed olds news)
        (match_all no_match (old_or_changed olds news) (new_or_changed olds news)).new_to_remove

  abbrev pub changed_by_id : List A → List A → Dict A
  changed_by_id olds news =
      (match_all no_match (old_or_changed olds news) (new_or_changed olds news)).changed

  unfoldable pub diff : (String → A → A) → (ℕ → String) → List A → List A → Result (Diff A)
  unfolding match_all add_all keep del_all index_by
  diff set_id fresh olds news = do
    kept ← del_all (map key (only_old olds news)) (index_by key [] olds)
    unchanged ← del_all (keys (changed_by_id olds news)) kept
    ok (record {
      old = index_by key [] (only_old olds news);
      changed = changed_by_id olds news;
      new = index_by key [] (with_ids set_id fresh 0 (only_new olds news));
      unchanged = unchanged;
    })
