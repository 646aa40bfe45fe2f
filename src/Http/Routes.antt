-- ===== src/Http/Routes.antt =====
-- kwikhttp/server.go: which handler findHandler chooses.
use kwik.Prelude.{
  ◌≡◌, refl, sym, ap, ◌∙◌, List, [], ◌∷◌, ◌++◌, Bool-cases, Option-cases, inl, inr, true, false,
  All, arith, ◌==◌, Option, none, some,
}
use kwik.Http.Text.{Text}
use kwik.Http.Server.{
  has_prefix, without_star, behind, matches, handler_of, first_match, find_handler,
}

-- A path that a pattern with a wildcard stands for.
pub record IsBelow (pattern path : Text) : Type 0 where
  pub prefix : Text
  pub rest : Text
  pub wildcard : pattern ≡ prefix ++ (b'*' ∷ [])
  pub begins : path ≡ prefix ++ rest

has_prefix-append : (p s : Text) → has_prefix (p ++ s) p ≡ true
unfolding has_prefix
has_prefix-append [] s = refl
has_prefix-append (c ∷ p) s = ground (arith, has_prefix-append p s)

has_prefix-eq : (s p : Text) → has_prefix s p ≡ true → (rest : Text) × (s ≡ p ++ rest)
unfolding has_prefix
has_prefix-eq s [] h = (s, refl)
has_prefix-eq [] (d ∷ p) h = cc
has_prefix-eq (c ∷ s) (d ∷ p) h = elim (Bool-cases (c == d)) [
  | inl e ↦
      let (rest, shape) = has_prefix-eq s p (rw e at h) in
      let same_byte : c ≡ d = ground (arith, e) in (rest, cc)
  | inr e ↦ let gone : false ≡ true = rw e at h in cc gone
]

without_star-append : (p : Text) → without_star (p ++ (b'*' ∷ [])) ≡ some p
unfolding without_star
without_star-append [] = refl
without_star-append (c ∷ []) = refl
without_star-append (c ∷ d ∷ p) = ap (behind c) (without_star-append (d ∷ p))

without_star-eq : (s p : Text) → without_star s ≡ some p → s ≡ p ++ (b'*' ∷ [])
unfolding without_star
without_star-eq [] p h = cc
without_star-eq (c ∷ []) p h = elim (Bool-cases (c == b'*')) [
  | inl e ↦
      let star : c ≡ b'*' = ground (arith, e) in let nothing : some [] ≡ some p = rw e at h in cc
  | inr e ↦ let gone : none ≡ some p = rw e at h in cc gone
]
without_star-eq (c ∷ d ∷ s) p h = elim (Option-cases (without_star (d ∷ s))) [
  | inl e ↦ let gone : none ≡ some p = sym (ap (behind c) e) ∙ h in cc gone
  | inr (q, e) ↦
      let shape = without_star-eq (d ∷ s) q e in
      let parts : some (c ∷ q) ≡ some p = sym (ap (behind c) e) ∙ h in
      let front : c ∷ q ≡ p = cc parts in ap (◌∷◌ c) shape ∙ ap (λ x. x ++ (b'*' ∷ [])) front
]

matches-IsBelow :
    (pattern path : Text) → matches (without_star pattern) path ≡ true → IsBelow pattern path
matches-IsBelow pattern path h = elim (Option-cases (without_star pattern)) [
  | inl e ↦ let gone : false ≡ true = sym (ap (λ o. matches o path) e) ∙ h in cc gone
  | inr (p, e) ↦
      let (rest, begins) = has_prefix-eq path p (sym (ap (λ o. matches o path) e) ∙ h) in
      record { prefix = p; rest = rest; wildcard = without_star-eq pattern p e; begins = begins }
]

IsBelow-matches :
    (pattern path : Text) → IsBelow pattern path → matches (without_star pattern) path ≡ true
IsBelow-matches pattern path b =
    ap (λ s. matches (without_star s) path) b.wildcard
    ∙ ap (λ o. matches o path) (without_star-append b.prefix)
    ∙ ap (λ s. has_prefix s b.prefix) b.begins
    ∙ has_prefix-append b.prefix b.rest

module _ {ℓ} {H : Type ℓ} where
  -- A handler of a pattern that the path is below.
  pub record IsRouted (path : Text) (routes : List (Text × H)) (h : H) : Type ℓ where
    pub before : List (Text × H)
    pub after : List (Text × H)
    pub pattern : Text
    pub there : routes ≡ before ++ ((pattern, h) ∷ after)
    pub below : IsBelow pattern path

  -- What a request for a path gets.
  pub data Choice (path : Text) (routes : List (Text × H)) : Option H → Type ℓ where
    exact : (h : H) → handler_of path routes ≡ some h → Choice path routes (some h)
    wildcard :
        (h : H)
        → handler_of path routes ≡ none
        → IsRouted path routes h
        → Choice path routes (some h)
    not_found :
        handler_of path routes ≡ none
        → All (λ route. ¬ IsBelow route.0 path) routes
        → Choice path routes none

  first_match-IsRouted :
      (path : Text) (routes : List (Text × H)) (h : H)
      → first_match path routes ≡ some h
      → IsRouted path routes h
  unfolding first_match
  first_match-IsRouted path [] h e = cc
  first_match-IsRouted path ((pattern, g) ∷ routes) h e =
      elim (Bool-cases (matches (without_star pattern) path)) [
        | inl m ↦
            let found : some g ≡ some h = rw m at e in
            let same_handler : g ≡ h = cc found in
            record {
              before = [];
              after = routes;
              pattern = pattern;
              there = ap (λ x. (pattern, x) ∷ routes) same_handler;
              below = matches-IsBelow pattern path m;
            }
        | inr m ↦
            let later = first_match-IsRouted path routes h (rw m at e) in
            record {
              before = (pattern, g) ∷ later.before;
              after = later.after;
              pattern = later.pattern;
              there = ap (◌∷◌ (pattern, g)) later.there;
              below = later.below;
            }
      ]

  first_match-none :
      (path : Text) (routes : List (Text × H))
      → first_match path routes ≡ none
      → All (λ route. ¬ IsBelow route.0 path) routes
  unfolding first_match
  first_match-none path [] e = tt
  first_match-none path ((pattern, g) ∷ routes) e =
      elim (Bool-cases (matches (without_star pattern) path)) [
        | inl m ↦ let gone : some g ≡ none = rw m at e in cc gone
        | inr m ↦ (
          λ b. let clash : true ≡ false = sym (IsBelow-matches pattern path b) ∙ m in cc clash,
          first_match-none path routes (rw m at e),
        )
      ]

  -- findHandler gives the handler of the path itself where there is one, else the handler of a
  -- pattern with a wildcard that the path is below, and nothing only where there is neither, in
  -- whatever order the map is walked.
  pub find_handler-Choice :
      (path : Text) (routes : List (Text × H)) → Choice path routes (find_handler path routes)
  unfolding find_handler
  find_handler-Choice path routes = elim (Option-cases (handler_of path routes)) [
    | inr (h, e) ↦ rw e (exact h e)
    | inl e ↦ elim (Option-cases (first_match path routes)) [
      | inr (h, m) ↦ rw (e, m) (wildcard h e (first_match-IsRouted path routes h m))
      | inl m ↦ rw (e, m) (not_found e (first_match-none path routes m))
    ]
  ]
