-- ===== src/Transport/Acks/Ranges.antt =====
-- The ranges of GetAckRanges hold the recorded sequence numbers and no other.
use kwik.Prelude.{
  ℕ, ◌+◌, ◌^◌, ◌≤◌, ◌<◌, ◌≡◌, refl, ap, ◌∙◌, List, [], ◌∷◌, false, ◌==◌, leb, ◌&&◌, ◌||◌, arith,
  IsU64, All,
}
use kwik.Protocol.Frame.{AckRange}
use kwik.Transport.Acks.{
  contains, insert_sorted, sort, group, group_sorted, get_ack_ranges, in_ranges,
}

contains-insert_sorted :
    (n x : ℕ) (xs : List ℕ) → contains n (insert_sorted x xs) ≡ (x == n || contains n xs)
unfolding contains insert_sorted
contains-insert_sorted n x [] = refl
contains-insert_sorted n x (y ∷ ys) = ground (arith, contains-insert_sorted n x ys)

contains-sort : (n : ℕ) (xs : List ℕ) → contains n (sort xs) ≡ contains n xs
unfolding sort contains
contains-sort n [] = refl
contains-sort n (x ∷ xs) =
    contains-insert_sorted n x (sort xs) ∙ ap (λ b. x == n || b) (contains-sort n xs)

-- The numbers ascend from `low` on.
abbrev pub Ascends : ℕ → List ℕ → Type 0
Ascends low [] = Unit
Ascends low (x ∷ xs) = (low ≤ x) × Ascends x xs

insert_sorted-Ascends :
    (low x : ℕ) (xs : List ℕ) → low ≤ x → Ascends low xs → Ascends low (insert_sorted x xs)
unfolding insert_sorted
insert_sorted-Ascends low x [] h a = (h, tt)
insert_sorted-Ascends low x (y ∷ ys) h a = ground (arith, insert_sorted-Ascends y x ys)

sort-Ascends : (xs : List ℕ) → Ascends 0 (sort xs)
unfolding sort
sort-Ascends [] = tt
sort-Ascends (x ∷ xs) = insert_sorted-Ascends 0 x (sort xs) (omega arith) (sort-Ascends xs)

in_ranges-group :
    (n start prev : ℕ) (ss : List ℕ)
    → start ≤ prev
    → Ascends prev ss
    → All IsU64 ss
    → in_ranges n (group start prev ss) ≡ (leb start n && leb n prev || contains n ss)
unfolding in_ranges group contains
in_ranges-group n start prev [] h a u = refl
in_ranges-group n start prev (s ∷ ss) h a u = ground (
  arith,
  in_ranges-group n start s ss (omega arith) a.1 u.1,
  in_ranges-group n s s ss (omega arith) a.1 u.1,
)

insert_sorted-below :
    (b x : ℕ) (xs : List ℕ) → x < b → All (λ n. n < b) xs → All (λ n. n < b) (insert_sorted x xs)
unfolding insert_sorted
insert_sorted-below b x [] h u = (h, tt)
insert_sorted-below b x (y ∷ ys) h u = ground (arith, insert_sorted-below b x ys h u.1)

pub sort-below : (b : ℕ) (xs : List ℕ) → All (λ n. n < b) xs → All (λ n. n < b) (sort xs)
unfolding sort
sort-below b [] u = tt
sort-below b (x ∷ xs) u = insert_sorted-below b x (sort xs) u.0 (sort-below b xs u.1)

group-below :
    (b start prev : ℕ) (ss : List ℕ)
    → prev < b
    → All (λ n. n < b) ss
    → All (λ r. r.largest < b) (group start prev ss)
unfolding group
group-below b start prev [] h u = (h, tt)
group-below b start prev (s ∷ ss) h u =
    ground (arith, group-below b start s ss u.0 u.1, group-below b s s ss u.0 u.1)

group_sorted-below :
    (b : ℕ) (ss : List ℕ) → All (λ n. n < b) ss → All (λ r. r.largest < b) (group_sorted ss)
unfolding group_sorted
group_sorted-below b [] u = tt
group_sorted-below b (s ∷ ss) u = group-below b s s ss u.0 u.1

pub get_ack_ranges-below :
    (b : ℕ) (seqs : List ℕ) → All (λ n. n < b) seqs → All (λ r. r.largest < b) (get_ack_ranges seqs)
unfolding get_ack_ranges
get_ack_ranges-below b seqs h = group_sorted-below b (sort seqs) (sort-below b seqs h)

in_ranges-group_sorted :
    (n : ℕ) (ss : List ℕ)
    → Ascends 0 ss
    → All IsU64 ss
    → in_ranges n (group_sorted ss) ≡ contains n ss
unfolding group_sorted in_ranges contains
in_ranges-group_sorted n [] a u = refl
in_ranges-group_sorted n (s ∷ ss) a u =
    ground (arith, in_ranges-group n s s ss (omega arith) a.1 u.1)

-- A number lies in one of the ranges of GetAckRanges exactly if it is recorded.
pub in_ranges-get_ack_ranges :
    (n : ℕ) (seqs : List ℕ) → All IsU64 seqs → in_ranges n (get_ack_ranges seqs) ≡ contains n seqs
unfolding get_ack_ranges
in_ranges-get_ack_ranges n seqs u =
    in_ranges-group_sorted n (sort seqs) (sort-Ascends seqs) (sort-below (2 ^ 64) seqs u)
    ∙ contains-sort n seqs

-- No number is recorded twice, as in a map.
abbrev pub AreDistinct : List ℕ → Type 0
AreDistinct [] = Unit
AreDistinct (x ∷ xs) = (contains x xs ≡ false) × AreDistinct xs

abbrev StrictlyAscends : ℕ → List ℕ → Type 0
StrictlyAscends low [] = Unit
StrictlyAscends low (x ∷ xs) = (low < x) × StrictlyAscends x xs

-- The ranges are not empty, ascend from `low` on, and leave a gap between one and the next.
abbrev pub AreSeparate : ℕ → List AckRange → Type 0
AreSeparate low [] = Unit
AreSeparate low (r ∷ rs) =
    (low ≤ r.smallest) × (r.smallest ≤ r.largest) × AreSeparate (r.largest + 2) rs

-- Numbers in ascending order, the first one unbounded.
abbrev IsStrict : List ℕ → Type 0
IsStrict [] = Unit
IsStrict (x ∷ xs) = StrictlyAscends x xs

insert_sorted-StrictlyAscends :
    (low x : ℕ) (xs : List ℕ)
    → low < x
    → contains x xs ≡ false
    → StrictlyAscends low xs
    → StrictlyAscends low (insert_sorted x xs)
unfolding insert_sorted contains
insert_sorted-StrictlyAscends low x [] h c a = (h, tt)
insert_sorted-StrictlyAscends low x (y ∷ ys) h c a =
    ground (arith, insert_sorted-StrictlyAscends y x ys)

insert_sorted-IsStrict :
    (x : ℕ) (xs : List ℕ) → contains x xs ≡ false → IsStrict xs → IsStrict (insert_sorted x xs)
unfolding insert_sorted contains
insert_sorted-IsStrict x [] c a = tt
insert_sorted-IsStrict x (y ∷ ys) c a = ground (arith, insert_sorted-StrictlyAscends y x ys)

sort-IsStrict : (xs : List ℕ) → AreDistinct xs → IsStrict (sort xs)
unfolding sort
sort-IsStrict [] d = tt
sort-IsStrict (x ∷ xs) d =
    insert_sorted-IsStrict x (sort xs) (contains-sort x xs ∙ d.0) (sort-IsStrict xs d.1)

group-AreSeparate :
    (low start prev : ℕ) (ss : List ℕ)
    → low ≤ start
    → start ≤ prev
    → StrictlyAscends prev ss
    → All IsU64 ss
    → AreSeparate low (group start prev ss)
unfolding group
group-AreSeparate low start prev [] k h a u = (k, h, tt)
group-AreSeparate low start prev (s ∷ ss) k h a u = ground (
  arith,
  group-AreSeparate low start s ss k (omega arith) a.1 u.1,
  group-AreSeparate (prev + 2) s s ss,
)

group_sorted-AreSeparate :
    (ss : List ℕ) → IsStrict ss → All IsU64 ss → AreSeparate 0 (group_sorted ss)
unfolding group_sorted
group_sorted-AreSeparate [] a u = tt
group_sorted-AreSeparate (s ∷ ss) a u = group-AreSeparate 0 s s ss (omega arith) (omega arith) a u.1

-- The ranges of GetAckRanges are nonempty and ascend, and no two of them touch or overlap.
pub get_ack_ranges-AreSeparate :
    (seqs : List ℕ) → All IsU64 seqs → AreDistinct seqs → AreSeparate 0 (get_ack_ranges seqs)
unfolding get_ack_ranges
get_ack_ranges-AreSeparate seqs u d =
    group_sorted-AreSeparate (sort seqs) (sort-IsStrict seqs d) (sort-below (2 ^ 64) seqs u)
