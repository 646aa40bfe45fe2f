-- ===== src/Http/Rebuild.antt =====
-- kwikhttp/protocol.go: headers that are added one by one make the same map again.
use kwik.Prelude.{
  ◌≡◌, ◌≢◌, refl, sym, ap, ◌∙◌, List, [], ◌∷◌, ◌++◌, append_assoc, append-nil, true, false, none,
  some, if_true, if_false, Bool-cases, inl, inr, arith,
}
use kwik.Http.Text.{Text, same, to_lower}
use kwik.Http.Headers.{Headers, add, find, store, get_all, values_of}

-- The headers one by one.
abbrev pub pairs_of : Text → List Text → List (Text × Text)
pairs_of key [] = []
pairs_of key (value ∷ values) = (key, value) ∷ pairs_of key values

abbrev pub pairs : Headers → List (Text × Text)
pairs [] = []
pairs (entry ∷ h) = pairs_of entry.0 entry.1 ++ pairs h

unfoldable pub add_pairs : List (Text × Text) → Headers → Headers
add_pairs [] h = h
add_pairs (p ∷ ps) h = add_pairs ps (add p.0 p.1 h)

-- Keys that are in lower case and stand once each, with values, behind those of `h`.
abbrev pub IsMapBehind : Headers → Headers → Type 0
IsMapBehind h [] = Unit
IsMapBehind h (entry ∷ more) =
    (entry.1 ≢ [])
    × (to_lower entry.0 ≡ entry.0)
    × (find entry.0 h ≡ none)
    × IsMapBehind (h ++ (entry ∷ [])) more

-- What a Go map of headers is that was made by Add and Set.
abbrev pub IsMap : Headers → Type 0
IsMap h = IsMapBehind [] h

pub same_self : (s : Text) → same s s ≡ true
unfolding same
same_self [] = refl
same_self (c ∷ s) = ground (arith, same_self s)

find-skip :
    (key : Text) (entry : Text × List Text) (h : Headers)
    → find key (entry ∷ h) ≡ none
    → (same entry.0 key ≡ false) × (find key h ≡ none)
unfolding find
find-skip key entry h e = elim (Bool-cases (same entry.0 key)) [
  | inl s ↦ let found : some entry.1 ≡ none = rw s at e in cc found
  | inr s ↦ (s, rw s at e)
]

find-last :
    (key : Text) (values : List Text) (h : Headers)
    → find key h ≡ none
    → find key (h ++ ((key, values) ∷ [])) ≡ some values
unfolding find
find-last key values [] e = if_true (same key key) _ _ (same_self key)
find-last key values (entry ∷ h) e =
    let skip = find-skip key entry h e in
    if_false (same entry.0 key) _ _ skip.0 ∙ find-last key values h skip.1

store-new :
    (key : Text) (values : List Text) (h : Headers)
    → find key h ≡ none
    → store key values h ≡ h ++ ((key, values) ∷ [])
unfolding find store
store-new key values [] e = refl
store-new key values (entry ∷ h) e =
    let skip = find-skip key entry h e in
    if_false (same entry.0 key) _ _ skip.0 ∙ ap (◌∷◌ entry) (store-new key values h skip.1)

store-last :
    (key : Text) (old values : List Text) (h : Headers)
    → find key h ≡ none
    → store key values (h ++ ((key, old) ∷ [])) ≡ h ++ ((key, values) ∷ [])
unfolding find store
store-last key old values [] e = if_true (same key key) _ _ (same_self key)
store-last key old values (entry ∷ h) e =
    let skip = find-skip key entry h e in
    if_false (same entry.0 key) _ _ skip.0 ∙ ap (◌∷◌ entry) (store-last key old values h skip.1)

-- The first value of a new key.
add-new :
    (key value : Text) (h : Headers)
    → to_lower key ≡ key
    → find key h ≡ none
    → add key value h ≡ h ++ ((key, value ∷ []) ∷ [])
unfolding add get_all
add-new key value h low e =
    ap (λ k. store k (values_of (find k h) ++ (value ∷ [])) h) low
    ∙ ap (λ o. store key (values_of o ++ (value ∷ [])) h) e
    ∙ store-new key (value ∷ []) h e

-- A further value of the last key.
add-last :
    (key value : Text) (old : List Text) (h : Headers)
    → to_lower key ≡ key
    → find key h ≡ none
    → add key value (h ++ ((key, old) ∷ [])) ≡ h ++ ((key, old ++ (value ∷ [])) ∷ [])
unfolding add get_all
add-last key value old h low e =
    let all : Headers = h ++ ((key, old) ∷ []) in
    ap (λ k. store k (values_of (find k all) ++ (value ∷ [])) all) low
    ∙ ap (λ o. store key (values_of o ++ (value ∷ [])) all) (find-last key old h e)
    ∙ store-last key old (old ++ (value ∷ [])) h e

add_pairs-values :
    (key : Text) (old values : List Text) (ps : List (Text × Text)) (h : Headers)
    → to_lower key ≡ key
    → find key h ≡ none
    → add_pairs (pairs_of key values ++ ps) (h ++ ((key, old) ∷ []))
      ≡ add_pairs ps (h ++ ((key, old ++ values) ∷ []))
unfolding add_pairs
add_pairs-values key old [] ps h low e =
    ap (λ vs. add_pairs ps (h ++ ((key, vs) ∷ []))) (sym (append-nil old))
add_pairs-values key old (value ∷ values) ps h low e =
    ap (add_pairs (pairs_of key values ++ ps)) (add-last key value old h low e)
    ∙ add_pairs-values key (old ++ (value ∷ [])) values ps h low e
    ∙ ap (λ vs. add_pairs ps (h ++ ((key, vs) ∷ []))) (append_assoc old (value ∷ []) values)

pub add_pairs-pairs : (h more : Headers) → IsMapBehind h more → add_pairs (pairs more) h ≡ h ++ more
unfolding add_pairs
add_pairs-pairs h [] m = sym (append-nil h)
add_pairs-pairs h ((key, []) ∷ more) m = absurd (m.0 refl)
add_pairs-pairs h ((key, value ∷ values) ∷ more) m =
    ap (add_pairs (pairs_of key values ++ pairs more)) (add-new key value h m.1 m.2)
    ∙ add_pairs-values key (value ∷ []) values (pairs more) h m.1 m.2
    ∙ add_pairs-pairs (h ++ ((key, value ∷ values) ∷ [])) more m.3
    ∙ append_assoc h ((key, value ∷ values) ∷ []) more
