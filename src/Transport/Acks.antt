-- ===== src/Transport/Acks.antt =====
-- Acknowledgements: the sequence numbers that internal/transport/multiplexer.go records, the ranges
-- that it makes of them, and what OnAck of internal/transport/packer.go does with such ranges. A
-- set of sequence numbers is a list, in the order of the iteration.
pub mod Ranges
pub mod Loop
pub mod Exchange
use kwik.Prelude.{
  ℕ, zero, suc, ◌+◌, List, [], ◌∷◌, Bool, true, false, Option, none, some, ◌==◌, leb, ltb,
  if◌then◌else◌, add64, ◌&&◌, ◌||◌,
}
use kwik.Prelude.Map.{Map, lookup, insert, delete}
use kwik.Protocol.Frame.{AckRange}

unfoldable pub contains : ℕ → List ℕ → Bool
contains n [] = false
contains n (x ∷ xs) = x == n || contains n xs

-- received[path][seq] = struct{}{}
unfoldable pub add_seq : ℕ → List ℕ → List ℕ
unfolding contains
add_seq n xs = if contains n xs then xs else n ∷ xs

-- delete(received[path], seq)
unfoldable pub remove_seq : ℕ → List ℕ → List ℕ
remove_seq n [] = []
remove_seq n (x ∷ xs) = if x == n then remove_seq n xs else x ∷ remove_seq n xs

-- sort.Slice by <
unfoldable pub insert_sorted : ℕ → List ℕ → List ℕ
insert_sorted n [] = n ∷ []
insert_sorted n (x ∷ xs) = if leb n x then n ∷ x ∷ xs else x ∷ insert_sorted n xs

unfoldable pub sort : List ℕ → List ℕ
unfolding insert_sorted
sort [] = []
sort (x ∷ xs) = insert_sorted x (sort xs)

-- The loop of GetAckRanges: the range from `start` to `prev` is open.
unfoldable pub group : ℕ → ℕ → List ℕ → List AckRange
group start prev [] = record { smallest = start; largest = prev } ∷ []
group start prev (s ∷ ss) =
    let joined = group start s ss in
    let split = record { smallest = start; largest = prev } ∷ group s s ss in
    if s == add64 prev 1 then joined else split

unfoldable pub group_sorted : List ℕ → List AckRange
unfolding group
group_sorted [] = []
group_sorted (s ∷ ss) = group s s ss

-- GetAckRanges on the set of a path.
unfoldable pub get_ack_ranges : List ℕ → List AckRange
unfolding group_sorted sort
get_ack_ranges seqs = group_sorted (sort seqs)

abbrev pub in_range : ℕ → AckRange → Bool
in_range n r = leb r.smallest n && leb n r.largest

unfoldable pub in_ranges : ℕ → List AckRange → Bool
in_ranges n [] = false
in_ranges n (r ∷ rs) = in_range n r || in_ranges n rs

-- for seq := r.Smallest; seq <= r.Largest; seq++ with a uint64 counter, on fuel; `none` means that
-- the fuel ran out.
unfoldable pub seq_loop {ℓ} : {S : Type ℓ} → (ℕ → S → S) → ℕ → ℕ → ℕ → S → Option S
seq_loop body zero seq largest s = none
seq_loop body (suc fuel) seq largest s = elim (leb seq largest) [
  | true ↦ seq_loop body fuel (add64 seq 1) largest (body seq s)
  | false ↦ some s
]

-- for _, r := range ranges
unfoldable pub ranges_loop {ℓ} : {S : Type ℓ} → (ℕ → S → S) → ℕ → List AckRange → S → Option S
ranges_loop body fuel [] s = some s
ranges_loop body fuel (r ∷ rs) s = elim (seq_loop body fuel r.smallest r.largest s) [
  | none ↦ none
  | some s' ↦ ranges_loop body fuel rs s'
]

-- The pending packets of a path and the counter of acknowledged packets.
pub record AckState {ℓ} (V : Type ℓ) : Type ℓ where
  pub pending : Map V
  pub acked_count : ℕ

-- The body of OnAck's loop.
unfoldable pub ack_one {ℓ} : {V : Type ℓ} → ℕ → AckState V → AckState V
ack_one seq s = elim (lookup seq s.pending) [
  | none ↦ s
  | some packet ↦ record { pending = delete seq s.pending; acked_count = s.acked_count + 1 }
]

-- OnAck on the pending packets of a path.
unfoldable pub on_ack {ℓ} : {V : Type ℓ} → ℕ → List AckRange → AckState V → Option (AckState V)
unfolding ranges_loop seq_loop ack_one
on_ack fuel ranges s = ranges_loop ack_one fuel ranges s

-- cleanupAckedPackets on the set of a path.
unfoldable pub cleanup_acked : ℕ → List AckRange → List ℕ → Option (List ℕ)
unfolding ranges_loop seq_loop remove_seq
cleanup_acked fuel ranges seqs = ranges_loop remove_seq fuel ranges seqs
