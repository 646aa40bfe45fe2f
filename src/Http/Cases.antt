-- ===== src/Http/Cases.antt =====
-- kwikhttp/protocol.go: the keys of headers are found in any case.
use kwik.Prelude.{
  ◌≡◌, refl, sym, ap, ◌∙◌, List, [], ◌∷◌, ◌++◌, Bool, true, false, Option, none, some,
  if◌then◌else◌, Bool-cases, inl, inr, arith, if_true, if_false,
}
use kwik.Prelude.Map.{is_some}
use kwik.Http.Text.{Text, same, to_lower}
use kwik.Http.Rebuild.{same_self}
use kwik.Http.Headers.{Headers, find, store, erase, get_all, add, set, del, has_header, values_of}

same-eq : (s t : Text) → same s t ≡ true → s ≡ t
unfolding same
same-eq [] [] h = refl
same-eq [] (d ∷ t) h = cc
same-eq (c ∷ s) [] h = cc
same-eq (c ∷ s) (d ∷ t) h = ground (arith, h, same-eq s t)

-- Two texts that differ from a third in one case and not in the other.
apart : (s t u : Text) → same s t ≡ false → same s u ≡ true → same t u ≡ false
apart s t u h e = elim (Bool-cases (same t u)) [
  | inr f ↦ f
  | inl f ↦
      let su : s ≡ u = same-eq s u e in
      let tu : t ≡ u = same-eq t u f in
      let clash : true ≡ false = sym (same_self s) ∙ ap (same s) (su ∙ sym tu) ∙ h in cc clash
]

find-store_hit :
    (j k : Text) (values old : List Text) (h : Headers)
    → find j ((k, values) ∷ h) ≡ (if same k j then some values else find j ((k, old) ∷ h))
unfolding find
find-store_hit j k values old h = elim (Bool-cases (same k j)) [
  | inl e ↦ rw e refl
  | inr e ↦ rw e refl
]

find-store :
    (j k : Text) (values : List Text) (h : Headers)
    → find j (store k values h) ≡ (if same k j then some values else find j h)
unfolding find store
find-store j k values [] = refl
find-store j k values ((key, old) ∷ h) = elim (Bool-cases (same key k)) [
  | inl e ↦
      let key_is : key ≡ k = same-eq key k e in
      ap (find j) (if_true (same key k) _ _ e)
      ∙ find-store_hit j k values old h
      ∙ ap (λ x. if same k j then some values else find j ((x, old) ∷ h)) (sym key_is)
  | inr e ↦ ap (find j) (if_false (same key k) _ _ e) ∙ elim (Bool-cases (same key j)) [
    | inl f ↦ rw (f, apart key k j e f) refl
    | inr f ↦ rw f (find-store j k values h)
  ]
]

find-erase : (j k : Text) (h : Headers) → find j (erase k h) ≡ (if same k j then none else find j h)
unfolding find erase
find-erase j k [] = elim (Bool-cases (same k j)) [ inl e ↦ rw e refl | inr e ↦ rw e refl ]
find-erase j k ((key, old) ∷ h) = elim (Bool-cases (same key k)) [
  | inl e ↦
      let key_is : key ≡ k = same-eq key k e in
      ap (find j) (if_true (same key k) _ _ e) ∙ find-erase j k h ∙ elim (Bool-cases (same k j)) [
        | inl f ↦ rw f refl
        | inr f ↦
            let other : same key j ≡ false = ap (λ x. same x j) key_is ∙ f in rw (f, other) refl
      ]
  | inr e ↦ ap (find j) (if_false (same key k) _ _ e) ∙ elim (Bool-cases (same key j)) [
    | inl f ↦ rw (f, apart key k j e f) refl
    | inr f ↦ rw f (find-erase j k h)
  ]
]

values_of-if :
    (b : Bool) (x : List Text) (o : Option (List Text))
    → values_of (if b then some x else o) ≡ (if b then x else values_of o)
values_of-if true x o = refl
values_of-if false x o = refl

has-if :
    (b : Bool) (o : Option (List Text))
    → is_some (if b then none else o) ≡ (if b then false else is_some o)
has-if true o = refl
has-if false o = refl

-- Add puts a value behind those of its key, Set makes it the only one, and Del removes the key;
-- keys are the same when they are so in lower case, and other keys keep their values.
get_all-add :
    (j k value : Text) (h : Headers)
    → (get_all j (add k value h)
        ≡ (if same (to_lower k) (to_lower j) then get_all k h ++ (value ∷ []) else get_all j h))
      × (get_all j (set k value h)
          ≡ (if same (to_lower k) (to_lower j) then value ∷ [] else get_all j h))
      × (has_header j (del k h)
          ≡ (if same (to_lower k) (to_lower j) then false else has_header j h))
unfolding get_all add set del has_header
get_all-add j k value h = (
  ap values_of (find-store (to_lower j) (to_lower k) (get_all k h ++ (value ∷ [])) h)
      ∙ values_of-if (same (to_lower k) (to_lower j)) _ (find (to_lower j) h),
  ap values_of (find-store (to_lower j) (to_lower k) (value ∷ []) h)
      ∙ values_of-if (same (to_lower k) (to_lower j)) (value ∷ []) (find (to_lower j) h),
  ap is_some (find-erase (to_lower j) (to_lower k) h)
      ∙ has-if (same (to_lower k) (to_lower j)) (find (to_lower j) h),
)
