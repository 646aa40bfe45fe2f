-- ===== src/Transport/Tests.antt =====
-- The theorems on the transport at concrete data.
use kwik.Prelude.{ℕ, ◌^◌, ◌-◌, some, none, if◌then◌else◌, ◌≡◌, refl, List, [], ◌∷◌, arith}
use kwik.Protocol.Bytes.{be_bytes}
use kwik.Prelude.Map.{lookup}
use kwik.Protocol.Frame.{AckRange}
use kwik.Transport.Acks.{AckState, contains, get_ack_ranges, on_ack}
use kwik.Transport.Acks.Exchange.{on_ack_diverges, record_all, on_ack-get_ack_ranges}
use kwik.Transport.Wire.{waits, read_chunks, wire}
use kwik.Transport.Wire.Sent.{read_chunks-wire}

abbrev pieces : List (List ℕ)
pieces = (0 ∷ 0 ∷ []) ∷ (0 ∷ 2 ∷ 7 ∷ []) ∷ (8 ∷ 0 ∷ 0 ∷ 0 ∷ 1 ∷ []) ∷ (9 ∷ []) ∷ []

read_chunks-wire_example :
    read_chunks (waits [] []) pieces ≡ waits ((7 ∷ 8 ∷ []) ∷ (9 ∷ []) ∷ []) []
unfolding wire be_bytes
read_chunks-wire_example = read_chunks-wire ((7 ∷ 8 ∷ []) ∷ (9 ∷ []) ∷ []) pieces (omega arith) refl

abbrev pending_packets : AckState ℕ
pending_packets = record { pending = (1, 10) ∷ (2, 20) ∷ (5, 50) ∷ []; acked_count = 0 }

abbrev ranges : List AckRange
ranges = record { smallest = 2; largest = 3 } ∷ record { smallest = 5; largest = 5 } ∷ []

on_ack_diverges_example :
    on_ack 1000 (record { smallest = 7; largest = 2 ^ 64 - 1 } ∷ ranges) pending_packets ≡ none
on_ack_diverges_example = on_ack_diverges 1000 7 ranges pending_packets (omega arith)

abbrev received : List ℕ
received = 5 ∷ 2 ∷ 3 ∷ 2 ∷ []

on_ack-get_ack_ranges_example :
    (s : AckState ℕ) × (on_ack 10 (get_ack_ranges (record_all received)) pending_packets ≡ some s)
    × ((n : ℕ)
        → lookup n s.pending
          ≡ (if contains n received then none else lookup n pending_packets.pending))
on_ack-get_ack_ranges_example =
    on_ack-get_ack_ranges 9 received pending_packets (omega arith)
      (omega arith, (omega arith, (omega arith, (omega arith, tt))))
