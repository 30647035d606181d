-- ===== src/Http/Headers/Tests.antt =====
-- Header lookup of src/http/headers.cpp at concrete fields.
use carafe.Base.{some, [], ◌≡◌, refl, codes}
use carafe.Http.Ascii.{ascii_lower, ascii_equals_lowered}
use carafe.Http.Headers.{HeaderField, get, add}

abbrev host : HeaderField
host = record { name = codes "Host"; value = codes "h" }

host_found : get (add [] host) (codes "hOST") ≡ some (codes "h")
unfolding get add ascii_equals_lowered ascii_lower
host_found = refl
