-- ===== src/Http/Headers.antt =====
-- The headers of an `http_request`: what `add_header` leaves to be read.
use slicksocket.Base.{
  ℕ, ◌≡◌, refl, ◌⊎◌, true, false, Option, none, some, List, [], ◌∷◌, ◌++◌, if◌then◌else◌,
  Bool-cases, inl, inr,
}
use slicksocket.Url.{same_text, colon}
use slicksocket.Url.Search.{same_text_refl}
use slicksocket.Request.{HttpRequest}
use slicksocket.Http.{last_is_colon, has_key, header_name, add_header}

abbrev pub Headers : Type 0
Headers = List (List ℕ × List ℕ)

-- `unordered_map::find`.
abbrev pub lookup : List ℕ → Headers → Option (List ℕ)
lookup k [] = none
lookup k ((j, v) ∷ l) = if same_text j k then some v else lookup k l

abbrev pub or_else : Option (List ℕ) → List ℕ → Option (List ℕ)
or_else none v = some v
or_else (some u) v = some u

-- All names end with a colon, as `http_callback` needs them to.
abbrev pub AllNamed : Headers → Type 0
AllNamed [] = Unit {0}
AllNamed ((k, v) ∷ l) = (last_is_colon k ≡ true) × AllNamed l

append-last_is_colon : (k : List ℕ) → last_is_colon (k ++ colon ∷ []) ≡ true
append-last_is_colon [] = refl
append-last_is_colon (c ∷ []) = refl
append-last_is_colon (c ∷ d ∷ cs) = append-last_is_colon (d ∷ cs)

header_name-last : (k : List ℕ) → last_is_colon (header_name k) ≡ true
header_name-last k = elim (Bool-cases (last_is_colon k)) [
  | inl e ↦ rw e e
  | inr e ↦ rw e (append-last_is_colon k)
]

has_key-lookup :
    (k : List ℕ) (l : Headers)
    → ((has_key k l ≡ true) × (v : List ℕ) × (lookup k l ≡ some v))
      ⊎ ((has_key k l ≡ false) × (lookup k l ≡ none))
has_key-lookup k [] = inr (refl, refl)
has_key-lookup k ((j, v) ∷ l) = elim (Bool-cases (same_text j k)) [
  | inl e ↦ inl (rw e refl, v, rw e refl)
  | inr e ↦ rw e (has_key-lookup k l)
]

-- A header, under its name with the colon, reads back as the first value that was given for it; the
-- other headers, of name q, are as they were, and every name has its colon.
pub add_header-lookup :
    (r : HttpRequest) (c : ℕ) (cs value q : List ℕ)
    → AllNamed r.headers
    → same_text (header_name (c ∷ cs)) q ≡ false
    → (lookup (header_name (c ∷ cs)) (add_header r (c ∷ cs) value).headers
        ≡ or_else (lookup (header_name (c ∷ cs)) r.headers) value)
      × (lookup q (add_header r (c ∷ cs) value).headers ≡ lookup q r.headers)
      × AllNamed (add_header r (c ∷ cs) value).headers
unfolding add_header
add_header-lookup r c cs value q named other =
    elim (has_key-lookup (header_name (c ∷ cs)) r.headers) [
      | inl (there, v, found) ↦ rw there (rw found refl, refl, named)
      | inr (new, missing) ↦ rw new (
        rw (same_text_refl (header_name (c ∷ cs)), missing) refl,
        rw other refl,
        (header_name-last (c ∷ cs), named),
      )
    ]
