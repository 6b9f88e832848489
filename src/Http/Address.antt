-- ===== src/Http/Address.antt =====
-- What the constructor of `http_client` makes of an address.
use slicksocket.Base.{◌≡◌, refl, ℕ, some, List, ◌++◌, false}
use slicksocket.Url.{no_port}
use slicksocket.Http.{https_text, http_text, contains, strip, parse}

-- Of an address that starts with "https://" the port is 443 and all the rest is the host, also a
-- port that stands there.
pub parse-https :
    (rest : List ℕ) → parse (https_text ++ rest) ≡ some (record { address = rest; port = 443 })
unfolding parse strip
parse-https rest = refl

-- Of an address that starts with "http://", and nowhere has "https://", all the rest is the host,
-- and the port stays unset, at -1.
pub parse-http :
    (rest : List ℕ)
    → contains https_text (http_text ++ rest) ≡ false
    → parse (http_text ++ rest) ≡ some (record { address = rest; port = no_port })
unfolding parse strip
parse-http rest secure = rw secure refl
