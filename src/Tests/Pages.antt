-- ===== src/Tests/Pages.antt =====
-- Pages of a listing, by the binary order of the ids.
use monasca_api.Prelude.{
  ◌≡◌, refl, lower, keep, ℕ, zero, suc, String, List, [], ◌∷◌, some, arith, append, split,
}
use monasca_api.Errors.{ok}
use monasca_api.Http.{Uri}
use monasca_api.Paging.{Link, wrapped, self_link, build_base_uri, paginate}
use monasca_api.Paging.Links.{paginate_next}

abbrev pub uri : Uri
uri = record {
  href = "http://host/v2.0/alarms?offset=1&name=cpu";
  scheme = "http";
  netloc = "host";
  path = "/v2.0/alarms";
  query = "offset=1&name=cpu";
}

abbrev same : String → String
same s = s

abbrev copies : ℕ → List String
copies zero = []
copies (suc n) = "i" ∷ copies n

paginate_next_example :
    (next : Link) × (paginate same ("i" ∷ copies 49) uri (some "1")
      ≡ ok (wrapped (self_link uri ∷ next ∷ []) ("i" ∷ copies 49)))
    × (query : String) × (next.href ≡ append (build_base_uri uri) (append "?" query))
    × (split b'&' query ≡ "offset=i" ∷ "name=cpu" ∷ [])
unfolding split lower keep
paginate_next_example =
    paginate_next same uri "i" (copies 49) "1" (omega arith)
      (("offset", "1", refl), (("name", "cpu", refl), tt)) (ground arith)
