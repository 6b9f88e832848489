-- ===== src/WebSocket/Client/Parsing.antt =====
-- What the constructor of `websocket_client` makes of a URL.
use mathlib.Core.Option
use slicksocket.Base.{
  ℕ, suc, ◌+◌, ◌%◌, ◌^◌, ◌≤◌, ◌<◌, ◌≡◌, ◌≢◌, refl, ap, ◌∙◌, true, false, ◌||◌, Option, none, some,
  List, ◌∷◌, ◌++◌, arith, ◌==◌, length,
}
use slicksocket.Url.{find_char, int16_of, int_of, no_port, colon, slash, to_string}
use slicksocket.Url.Decimal.{to_string-IsDecimal, stoi-to_string}
use slicksocket.Url.Search.{
  find_char-append, find_char-behind, find_char-digits, take-append, drop-append, drop-behind,
}
use slicksocket.WebSocket.Client.{
  Parts, Target, root, separator, wss_text, ws_text, cut_path, split_path, split, with_default,
  whole, cut_port, take_port, parse,
}

split_path-flat :
    (protocol t : List ℕ)
    → find_char slash t ≡ none
    → split_path protocol t ≡ record { protocol = protocol; address = t; path = root }
unfolding split_path
split_path-flat protocol t flat = ap (cut_path protocol t) flat

take_port-plain : (p : Parts) → find_char colon p.address ≡ none → take_port p ≡ some (whole p)
unfolding take_port
take_port-plain p plain = ap (cut_port p) plain

take_port-short :
    (p : Parts) (i : ℕ)
    → find_char colon p.address ≡ some i
    → (i == 3 || i == 4) ≡ true
    → take_port p ≡ some (whole p)
unfolding take_port
take_port-short p i at short = ap (cut_port p) at ∙ rw short

abbrev flat_parts : List ℕ → List ℕ → Parts
flat_parts protocol t = record { protocol = protocol; address = t; path = root }

-- The URL of a host alone, without a path and without a colon, after "ws://" and after "wss://": the
-- host is the address, "/" the path, and the port is 80 and 443.
pub parse-host :
    (host : List ℕ)
    → find_char slash host ≡ none
    → find_char colon host ≡ none
    → (parse (ws_text ++ separator ++ host)
        ≡ some (record { address = host; path = root; port = 80 }))
      × (parse (wss_text ++ separator ++ host)
          ≡ some (record { address = host; path = root; port = 443 }))
unfolding parse split
parse-host host flat plain = (
  ap take_port (split_path-flat ws_text host flat)
      ∙ take_port-plain (flat_parts ws_text host) plain,
  ap take_port (split_path-flat wss_text host flat)
      ∙ take_port-plain (flat_parts wss_text host) plain,
)

-- The same URLs with a port behind a host of 3 or 4 characters: the port stays in the address, and
-- the default port is taken.
pub parse-short_host :
    (i : ℕ) (address : List ℕ)
    → find_char slash address ≡ none
    → find_char colon address ≡ some i
    → (i == 3 || i == 4) ≡ true
    → (parse (ws_text ++ separator ++ address)
        ≡ some (record { address = address; path = root; port = 80 }))
      × (parse (wss_text ++ separator ++ address)
          ≡ some (record { address = address; path = root; port = 443 }))
unfolding parse split
parse-short_host i address flat at short = (
  ap take_port (split_path-flat ws_text address flat)
      ∙ take_port-short (flat_parts ws_text address) i at short,
  ap take_port (split_path-flat wss_text address flat)
      ∙ take_port-short (flat_parts wss_text address) i at short,
)

-- An address with a port.
abbrev with_port : List ℕ → ℕ → List ℕ
with_port host n = host ++ colon ∷ to_string n

with_port-flat :
    (host : List ℕ) (n : ℕ)
    → n < 2 ^ 64
    → find_char slash host ≡ none
    → find_char slash (with_port host n) ≡ none
with_port-flat host n bound flat =
    find_char-append slash host (colon ∷ to_string n) flat
    ∙ ap (λ o. Option.map (λ i. length host + i) (Option.map suc o))
        (find_char-digits slash (to_string n) refl (to_string-IsDecimal n bound).digits)

split_path-at :
    (protocol address rest : List ℕ)
    → find_char slash address ≡ none
    → split_path protocol (address ++ slash ∷ rest)
      ≡ record { protocol = protocol; address = address; path = slash ∷ rest }
unfolding split_path
split_path-at protocol address rest flat =
    ap (cut_path protocol (address ++ slash ∷ rest)) (find_char-behind slash address rest flat)
    ∙ rw (take-append address (slash ∷ rest), drop-append address (slash ∷ rest))

-- The port of an address with one, in an `int16_t`.
take_port-at :
    (protocol path host : List ℕ) (n : ℕ)
    → n < 2 ^ 31
    → find_char colon host ≡ none
    → length host ≢ 3
    → length host ≢ 4
    → take_port (record { protocol = protocol; address = with_port host n; path = path })
      ≡ some (record { address = host; path = path; port = with_default protocol (int16_of n) })
unfolding take_port
take_port-at protocol path host n bound plain ne3 ne4 =
    ap (cut_port (record { protocol = protocol; address = with_port host n; path = path }))
      (find_char-behind colon host (to_string n) plain)
    ∙ rw other (
        rw
          (
            take-append host (colon ∷ to_string n),
            drop-behind host colon (to_string n),
            stoi-to_string n bound,
          )
          refl)
  where
    other : (length host == 3 || length host == 4) ≡ false
    other = ground arith

-- A host of which the constructor finds the port: no slash and no colon in it, and not 3 or 4
-- characters.
pub record IsHost (host : List ℕ) : Type 0 where
  pub flat : find_char slash host ≡ none
  pub plain : find_char colon host ≡ none
  pub not_three : length host ≢ 3
  pub not_four : length host ≢ 4

-- A URL as it is written.
abbrev pub print : List ℕ → List ℕ → ℕ → List ℕ → List ℕ
print protocol host n rest = protocol ++ separator ++ with_port host n ++ slash ∷ rest

abbrev parsed : List ℕ → List ℕ → ℕ → List ℕ → Option Target
parsed protocol host n rest =
    some (record { address = host; path = slash ∷ rest; port = with_default protocol (int16_of n) })

split_path-print :
    (protocol host : List ℕ) (n : ℕ) (rest : List ℕ)
    → IsHost host
    → n < 2 ^ 31
    → take_port (split_path protocol (with_port host n ++ slash ∷ rest))
      ≡ parsed protocol host n rest
split_path-print protocol host n rest h bound =
    ap take_port
      (split_path-at protocol (with_port host n) rest (with_port-flat host n (omega arith) h.flat))
    ∙ take_port-at protocol (slash ∷ rest) host n bound h.plain h.not_three h.not_four

parse-print :
    (host : List ℕ) (n : ℕ) (rest : List ℕ)
    → IsHost host
    → n < 2 ^ 31
    → (parse (print ws_text host n rest) ≡ parsed ws_text host n rest)
      × (parse (print wss_text host n rest) ≡ parsed wss_text host n rest)
unfolding parse split
parse-print host n rest h bound =
    (split_path-print ws_text host n rest h bound, split_path-print wss_text host n rest h bound)

with_default-kept :
    (protocol : List ℕ) (n : ℕ) → n < 2 ^ 15 → with_default protocol (int16_of n) ≡ n
with_default-kept protocol n small =
    let same : n % 2 ^ 16 ≡ n = omega arith in
    let set : (n == no_port) ≡ false = ground arith in rw (same, set) refl

-- A URL with a port below 32768, after "ws://" or "wss://", and with a host that has no slash and no
-- colon and not 3 or 4 characters, is taken apart into what it was made of: the host, the path and
-- the port.
pub parse-url :
    (host : List ℕ) (n : ℕ) (rest : List ℕ)
    → IsHost host
    → n < 2 ^ 15
    → (parse (print ws_text host n rest)
        ≡ some (record { address = host; path = slash ∷ rest; port = n }))
      × (parse (print wss_text host n rest)
          ≡ some (record { address = host; path = slash ∷ rest; port = n }))
parse-url host n rest h small =
    let (plain, secure) = parse-print host n rest h (omega arith) in
    (
      plain
          ∙ ap (λ p. some (record { address = host; path = slash ∷ rest; port = p }))
              (with_default-kept ws_text n small),
      secure
          ∙ ap (λ p. some (record { address = host; path = slash ∷ rest; port = p }))
              (with_default-kept wss_text n small),
    )

-- From 32768 on, a port of such a URL is not the one that the client connects to.
pub parse-large_port :
    (host : List ℕ) (n : ℕ) (rest : List ℕ)
    → IsHost host
    → 2 ^ 15 ≤ n
    → n < 2 ^ 31
    → (t : Target) × (parse (print ws_text host n rest) ≡ some t) × (int_of t.port ≢ n)
parse-large_port host n rest h large bound = (_, (parse-print host n rest h bound).0, ground arith)
