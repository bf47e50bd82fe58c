-- ===== src/Paging/Links.antt =====
-- The next link of a page carries the offset of its last row and keeps the other parameters.
use monasca_api.Prelude.{
  ◌≡◌, refl, ◌≤◌, Bool, true, false, not, String, List, [], ◌∷◌, none, some, arith, leb, length,
  keep, All, All-keep, last_or, split, split-join, split-NoCode, NoCode, NoCode-append, lower,
  append, Bool-cases, inl, inr,
}
use monasca_api.Errors.{ok}
use monasca_api.Http.{Uri}
use monasca_api.Paging.{
  page_limit, wrapped, Link, self_link, build_base_uri, kept_params, is_offset, offset_param,
  next_query, next_href, next_offset, paginate,
}

-- a query parameter with one `=`
abbrev pub IsParam : String → Type 0
IsParam q = (n : String) × (v : String) × (split b'=' q ≡ n ∷ v ∷ [])

abbrev name_of : List String → String
name_of [] = ""
name_of (n ∷ r) = n

-- the parameter is not an offset, in whatever case it is written
abbrev pub is_other : String → Bool
is_other q = not (is_offset (lower (name_of (split b'=' q))))

abbrev pub others : List String → List String
others qs = keep is_other qs

kept_params_pairs : (qs : List String) → All IsParam qs → kept_params is_offset qs ≡ ok (others qs)
unfolding kept_params keep
kept_params_pairs [] h = refl
kept_params_pairs (q ∷ qs) ((n, v, e), h) =
    rw (e, kept_params, kept_params_pairs qs h)
      (elim (Bool-cases (is_offset (lower n))) [ inl offset ↦ rw offset | inr other ↦ rw other ])

module _ {A : Type 0} (key : A → String) where
  pub next_offset_full :
      (x : A) (xs : List A)
      → leb page_limit (length (x ∷ xs)) ≡ true
      → next_offset key (x ∷ xs) ≡ some (key (last_or x xs))
  unfolding next_offset
  next_offset_full x xs h = rw h

  pub next_offset_short :
      (x : A) (xs : List A)
      → leb page_limit (length (x ∷ xs)) ≡ false
      → next_offset key (x ∷ xs) ≡ none
  unfolding next_offset
  next_offset_short x xs h = rw h

module _ {A : Type 0} (key : A → String) (uri : Uri) where
  paginate_full :
      (x : A) (xs : List A) (offset : String)
      → page_limit ≤ length (x ∷ xs)
      → All IsParam (split b'&' uri.query)
      → paginate key (x ∷ xs) uri (some offset)
        ≡ ok (
            wrapped
              (self_link uri
                ∷ record {
                  href = next_href uri (key (last_or x xs)) (others (split b'&' uri.query));
                  rel = some "next";
                }
                ∷ [])
              (x ∷ xs))
  paginate_full x xs offset full params =
      unfold paginate in
      rw (next_offset_full key x xs (ground arith), kept_params_pairs (split b'&' uri.query) params)

  -- For a full page whose query holds parameters of the form `name=value` alone, and whose last id
  -- holds no ampersand, the answer wraps the rows with two links, the request's own and the next one.
  -- The query of the next one is the last id as `offset` and behind it all parameters of the request
  -- but its offsets, in their order.
  pub paginate_next :
      (x : A) (xs : List A) (offset : String)
      → page_limit ≤ length (x ∷ xs)
      → All IsParam (split b'&' uri.query)
      → NoCode b'&' (key (last_or x xs))
      → (next : Link) × (paginate key (x ∷ xs) uri (some offset)
          ≡ ok (wrapped (self_link uri ∷ next ∷ []) (x ∷ xs)))
        × (query : String) × (next.href ≡ append (build_base_uri uri) (append "?" query))
        × (split b'&' query ≡ offset_param (key (last_or x xs)) ∷ others (split b'&' uri.query))
  paginate_next x xs offset full params clean = (
    record {
      href = next_href uri (key (last_or x xs)) (others (split b'&' uri.query));
      rel = some "next";
    },
    paginate_full x xs offset full params,
    next_query (key (last_or x xs)) (others (split b'&' uri.query)),
    refl,
    unfold next_query in
        split-join "&" (offset_param (key (last_or x xs)) ∷ others (split b'&' uri.query)) (cc) (
          NoCode-append b'&' "offset=" _ (omega arith) clean,
          All-keep (NoCode b'&') is_other _ (split-NoCode b'&' uri.query),
        ),
  )
