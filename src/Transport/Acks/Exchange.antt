-- ===== src/Transport/Acks/Exchange.antt =====
-- An acknowledgement from the receiver's record to the sender's pending packets.
use kwik.Prelude.{
  ℕ, suc, ◌-◌, ◌^◌, ◌≤◌, ◌<◌, ◌≡◌, refl, ap, ◌∙◌, List, [], ◌∷◌, true, false, none, some, ◌==◌,
  if◌then◌else◌, ◌||◌, arith, IsU64, All, Bool-cases, inl, inr, Option-cases, subst,
}
use kwik.Prelude.Map.{lookup, lookup-delete}
use kwik.Protocol.Frame.{AckRange}
use kwik.Transport.Acks.{
  contains, add_seq, remove_seq, get_ack_ranges, in_ranges, ranges_loop, AckState, ack_one, on_ack,
  cleanup_acked,
}
use kwik.Transport.Acks.Ranges.{
  get_ack_ranges-below, in_ranges-get_ack_ranges, AreDistinct, AreSeparate,
  get_ack_ranges-AreSeparate,
}
use kwik.Transport.Acks.Loop.{seq_loop_diverges, ranges_loop_removes}

ack_one-removes {ℓ} :
    {V : Type ℓ} (n seq : ℕ) (s : AckState V)
    → lookup n (ack_one seq s).pending ≡ (if seq == n then none else lookup n s.pending)
unfolding ack_one
ack_one-removes n seq s = elim (Option-cases (lookup seq s.pending)) [
  | inl e ↦ ground (arith, e)
  | inr (packet, e) ↦ ground (arith, e, lookup-delete n seq s.pending)
]

remove_seq-removes :
    (n seq : ℕ) (xs : List ℕ)
    → contains n (remove_seq seq xs) ≡ (if seq == n then false else contains n xs)
unfolding contains remove_seq
remove_seq-removes n seq [] = ground arith
remove_seq-removes n seq (x ∷ xs) = ground (arith, remove_seq-removes n seq xs)

-- OnAck removes exactly the pending packets whose numbers lie in the ranges, if no range goes up to
-- the largest uint64; it ends as soon as its fuel is above the numbers in the ranges.
pub on_ack-removes {ℓ} :
    {V : Type ℓ} (fuel : ℕ) (rs : List AckRange) (s : AckState V)
    → All (λ r. r.largest < 2 ^ 64 - 1) rs
    → All (λ r. r.largest < fuel) rs
    → (s' : AckState V) × (on_ack (suc fuel) rs s ≡ some s')
      × ((n : ℕ) → lookup n s'.pending ≡ (if in_ranges n rs then none else lookup n s.pending))
unfolding on_ack
on_ack-removes fuel rs s =
    ranges_loop_removes (λ n t. lookup n t.pending) none ack_one ack_one-removes fuel rs s

-- An ACK frame with a range up to the largest uint64 keeps OnAck in its loop for good.
pub on_ack_diverges {ℓ} :
    {V : Type ℓ} (fuel smallest : ℕ) (rs : List AckRange) (s : AckState V)
    → IsU64 smallest
    → on_ack fuel (record { smallest = smallest; largest = 2 ^ 64 - 1 } ∷ rs) s ≡ none
unfolding on_ack
on_ack_diverges fuel smallest rs s h = rw (seq_loop_diverges ack_one fuel smallest s h, ranges_loop)

-- The received packets, in any order and again and again, are recorded.
unfoldable pub record_all : List ℕ → List ℕ
record_all [] = []
record_all (n ∷ ns) = add_seq n (record_all ns)

contains-add_seq : (n m : ℕ) (xs : List ℕ) → contains n (add_seq m xs) ≡ (m == n || contains n xs)
unfolding add_seq contains
contains-add_seq n m xs = elim (Bool-cases (contains m xs)) [
  | inl old ↦ rw old (known n m xs old)
  | inr new ↦ rw new
]
  where
    known :
        (n m : ℕ) (xs : List ℕ) → contains m xs ≡ true → contains n xs ≡ (m == n || contains n xs)
    known n m xs h = elim (Bool-cases (m == n)) [
      | inl e ↦
          ground (arith, subst (λ (k : ℕ). contains k xs ≡ true) {x = m} {y = n} (ground arith) h)
      | inr e ↦ rw e
    ]

contains-record_all : (n : ℕ) (ns : List ℕ) → contains n (record_all ns) ≡ contains n ns
unfolding record_all contains
contains-record_all n [] = refl
contains-record_all n (m ∷ ns) =
    contains-add_seq n m (record_all ns) ∙ ap (λ b. m == n || b) (contains-record_all n ns)

record_all-AreDistinct : (ns : List ℕ) → AreDistinct (record_all ns)
unfolding record_all add_seq
record_all-AreDistinct [] = tt
record_all-AreDistinct (n ∷ ns) = elim (Bool-cases (contains n (record_all ns))) [
  | inl old ↦ rw old (record_all-AreDistinct ns)
  | inr new ↦ rw new (new, record_all-AreDistinct ns)
]

record_all-below : (b : ℕ) (ns : List ℕ) → All (λ n. n < b) ns → All (λ n. n < b) (record_all ns)
unfolding record_all add_seq
record_all-below b [] h = tt
record_all-below b (n ∷ ns) h = ground (arith, record_all-below b ns h.1)

-- A record that holds no number is empty.
contains-none : (xs : List ℕ) → ((n : ℕ) → contains n xs ≡ false) → xs ≡ []
unfolding contains
contains-none [] h = refl
contains-none (x ∷ xs) h = ground (arith, h x)

pub All-weaken {ℓ κ μ} :
    {A : Type ℓ} {P : A → Type κ} {Q : A → Type μ} (xs : List A)
    → ((a : A) → P a → Q a)
    → All P xs
    → All Q xs
All-weaken [] k h = tt
All-weaken (x ∷ xs) k h = (k x h.0, All-weaken xs k h.1)

-- The ranges made of the received packets hold these and no other, whatever the order in which they
-- came and however often; they are not empty, ascend, and do not touch or overlap.
pub get_ack_ranges-record_all :
    (ns : List ℕ)
    → All IsU64 ns
    → ((n : ℕ) → in_ranges n (get_ack_ranges (record_all ns)) ≡ contains n ns)
      × AreSeparate 0 (get_ack_ranges (record_all ns))
get_ack_ranges-record_all ns u = (
  λ n.
      in_ranges-get_ack_ranges n (record_all ns) (record_all-below (2 ^ 64) ns u)
      ∙ contains-record_all n ns,
  get_ack_ranges-AreSeparate (record_all ns) (record_all-below (2 ^ 64) ns u)
      (record_all-AreDistinct ns),
)

-- When the sender is told the ranges of what was received, below some bound that is no more than
-- the largest uint64, it forgets exactly the pending packets that were received.
pub on_ack-get_ack_ranges {ℓ} :
    {V : Type ℓ} (b : ℕ) (ns : List ℕ) (s : AckState V)
    → b ≤ 2 ^ 64 - 1
    → All (λ n. n < b) ns
    → (s' : AckState V) × (on_ack (suc b) (get_ack_ranges (record_all ns)) s ≡ some s')
      × ((n : ℕ) → lookup n s'.pending ≡ (if contains n ns then none else lookup n s.pending))
on_ack-get_ack_ranges b ns s hb h =
    let seqs = record_all ns in
    let below = get_ack_ranges-below b seqs (record_all-below b ns h) in
    let (s', e, seen) =
      on_ack-removes b (get_ack_ranges seqs) s
        (All-weaken (get_ack_ranges seqs) (λ r k. omega arith) below) below in
    let u = All-weaken ns (λ n k. omega arith) h in
    (
      s',
      e,
      λ n.
          subst (λ t. lookup n s'.pending ≡ (if t then none else lookup n s.pending))
            ((get_ack_ranges-record_all ns u).0 n) (seen n),
    )

-- When the ranges made of a record have been sent, the record is emptied, if its numbers are below
-- some bound that is no more than the largest uint64.
pub cleanup_acked-get_ack_ranges :
    (b : ℕ) (seqs : List ℕ)
    → b ≤ 2 ^ 64 - 1
    → All (λ n. n < b) seqs
    → cleanup_acked (suc b) (get_ack_ranges seqs) seqs ≡ some []
unfolding cleanup_acked
cleanup_acked-get_ack_ranges b seqs hb h =
    let below = get_ack_ranges-below b seqs h in
    let (left, e, seen) =
      ranges_loop_removes contains false remove_seq remove_seq-removes b (get_ack_ranges seqs) seqs
        (All-weaken (get_ack_ranges seqs) (λ r k. omega arith) below) below in
    let u = All-weaken seqs (λ n k. omega arith) h in
    e ∙ ap some (contains-none left λ n. seen n ∙ cleared n (in_ranges-get_ack_ranges n seqs u))
  where
    cleared :
        (n : ℕ)
        → in_ranges n (get_ack_ranges seqs) ≡ contains n seqs
        → (if in_ranges n (get_ack_ranges seqs) then false else contains n seqs) ≡ false
    cleared n e = ground (arith, e)
