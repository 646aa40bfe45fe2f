-- ===== src/Transport/Relay/Tests.antt =====
-- The theorem on the Relay at concrete data.
use kwik.Prelude.{ℕ, arith, ◌≡◌, refl, [], ◌∷◌, ◌++◌, true, false, none, some}
use kwik.Prelude.Map.{lookup}
use kwik.Protocol.Errors.{err, frame_too_large}
use kwik.Protocol.Frame.{StreamFrame, stream}
use kwik.Transport.Packer.{Packer, Call, new_packer, enc_size, queue_of}
use kwik.Transport.Packer.Submit.{IsStuck, assemble_too_large}
use kwik.Transport.Relay.{
  Relay, Route, new_relay, send_raw_data, copies, raw_frame, send_raw_data-IsStuck,
}

abbrev calls : ℕ → Call
calls i = record { quic_stream = 0; now = i; reply = none }

-- Its encoding is longer than a packet of 20 bytes.
abbrev large : StreamFrame
large = record { stream_id = 4; offset = 0; fin = false; payload = 1 ∷ 2 ∷ [] }

abbrev packer : Packer
packer = record (new_packer 20) { paths = (1, tt) ∷ []; queues = (1, stream large ∷ []) ∷ [] }

abbrev route : Route
route = record { id = 1; has_packer = true }

abbrev relay : Relay
relay = new_relay (some route) (127 ∷ []) 6

relay-IsStuck : IsStuck 1 (frame_too_large (enc_size large) 20) packer
unfolding lookup enc_size new_packer
relay-IsStuck = assemble_too_large 20 large (omega arith)

send_raw_data-IsStuck_example :
    let s = send_raw_data calls (8 ∷ 9 ∷ []) 4 relay packer in
    (s.result ≡ err (frame_too_large (enc_size large) 20))
    × (s.writes ≡ [])
    × (queue_of 1 s.packer ≡ queue_of 1 packer ++ copies 3 (raw_frame (8 ∷ 9 ∷ []) 4 relay))
unfolding new_relay lookup new_packer
send_raw_data-IsStuck_example =
    send_raw_data-IsStuck calls (8 ∷ 9 ∷ []) 4 route relay packer
      (frame_too_large (enc_size large) 20) refl refl refl relay-IsStuck
