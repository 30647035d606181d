-- ===== src/Http/FieldList/Tests.antt =====
-- The list elements of src/http/field_list.hpp at a concrete value.
use carafe.Base.{◌≡◌, refl, [], ◌∷◌, codes}
use carafe.Http.FieldList.{list_elements}
use carafe.Http.FieldList.Split.{split, trimmed, list_elements-split}

gzip_chunked : list_elements (codes "gzip ,, chunked") ≡ codes "gzip" ∷ codes "chunked" ∷ []
unfolding list_elements
gzip_chunked = refl

list_elements-split_example :
    list_elements (codes "gzip ,, chunked") ≡ trimmed (split (codes "gzip ,, chunked"))
list_elements-split_example = list_elements-split (codes "gzip ,, chunked")
