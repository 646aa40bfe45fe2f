-- ===== src/Streams/Manager.antt =====
-- stream_manager.go: the streams of a session. `P` is the type of a path object, and `W` that of all
-- path objects, which CloseStream of a path changes.
use kwik.Prelude.{ℕ, [], ◌∷◌, Option, none, some, ◌==◌, leb, if◌then◌else◌, add64, length}
use kwik.Prelude.Map.{Map, lookup, insert, delete, has}
use kwik.Protocol.Errors.{Error, path_not_exists, stream_not_exists}
use kwik.Stream.Recv.{RecvStream}
use kwik.Stream.Send.{SendStream}
use kwik.Streams.StreamImpl.{StreamImpl, new_stream}

pub record StreamManager {ℓ} (P : Type ℓ) : Type ℓ where
  pub streams : Map (StreamImpl P)
  pub next_stream_id : ℕ

module _ {ℓ} {P : Type ℓ} where
  unfoldable pub new_stream_manager : StreamManager P
  new_stream_manager = record { streams = []; next_stream_id = 1 }

  -- CreateStream
  unfoldable pub create_stream : StreamManager P → StreamImpl P × StreamManager P
  create_stream m =
      let s = new_stream m.next_stream_id in
      (
        s,
        record {
          streams = insert m.next_stream_id s m.streams;
          next_stream_id = add64 m.next_stream_id 1;
        },
      )

  unfoldable pub get_stream : ℕ → StreamManager P → Option (StreamImpl P)
  get_stream sid m = lookup sid m.streams

  abbrev pub recv_of : Option (StreamImpl P) → Option RecvStream
  recv_of none = none
  recv_of (some s) = some s.recv

  -- GetStreamFrameHandler
  unfoldable pub get_stream_frame_handler : ℕ → StreamManager P → Option RecvStream
  get_stream_frame_handler sid m = recv_of (lookup sid m.streams)

  abbrev pub send_of : Option (StreamImpl P) → Option SendStream
  send_of none = none
  send_of (some s) = some s.send

  -- GetSendStreamProvider
  unfoldable pub get_send_stream_provider : ℕ → StreamManager P → Option SendStream
  get_send_stream_provider sid m = send_of (lookup sid m.streams)

  -- The first path of a stream becomes its primary path, here judged by the number of its paths.
  unfoldable pub join_path : ℕ → P → StreamImpl P → StreamImpl P
  join_path pid path s = record s {
    paths = insert pid path s.paths;
    primary_path_id = if length s.paths == 0 then pid else s.primary_path_id;
  }

  unfoldable pub raise_next : ℕ → StreamManager P → StreamManager P
  raise_next sid m =
      if leb m.next_stream_id sid then record m { next_stream_id = add64 sid 1 } else m

  -- addStream
  unfoldable pub add_stream : StreamImpl P → StreamManager P → StreamManager P
  unfolding raise_next
  add_stream s m = raise_next s.id (record m { streams = insert s.id s m.streams })

  abbrev pub add_path_to :
      ℕ → ℕ × P → Option (StreamImpl P) → StreamManager P → Option Error × StreamManager P
  add_path_to sid entry none m = (some (stream_not_exists entry.0 sid), m)
  add_path_to sid entry (some s) m = if has entry.0 s.paths then (none, m) else (
    none,
    raise_next sid (record m { streams = insert sid (join_path entry.0 entry.1 s) m.streams }),
  )

  -- AddPathToStream, where `none` is a nil path.
  unfoldable pub add_path_to_stream :
      ℕ → Option (ℕ × P) → StreamManager P → Option Error × StreamManager P
  add_path_to_stream sid none m = (some (path_not_exists 0), m)
  add_path_to_stream sid (some entry) m = add_path_to sid entry (lookup sid m.streams) m

  module _ {κ} {W : Type κ} (close_on : P → ℕ → W → Option Error × W) where
    -- The loop of CloseStream over the paths of the stream: the first error ends it.
    unfoldable pub close_on_paths : ℕ → Map P → W → Option Error × W
    close_on_paths sid [] w = (none, w)
    close_on_paths sid (entry ∷ ps) w =
        let (e, w') = close_on entry.1 sid w in
        let rest = close_on_paths sid ps w' in
        elim e [ none ↦ rest | some failure ↦ (some failure, w') ]

    abbrev pub forget_stream :
        ℕ → Option Error × W → StreamManager P → Option Error × (StreamManager P × W)
    forget_stream sid (none, w) m = (none, (record m { streams = delete sid m.streams }, w))
    forget_stream sid (some e, w) m = (some e, (m, w))

    abbrev pub close_found :
        ℕ → Option (StreamImpl P) → StreamManager P → W → Option Error × (StreamManager P × W)
    close_found sid none m w = (none, (m, w))
    close_found sid (some s) m w = forget_stream sid (close_on_paths sid s.paths w) m

    -- CloseStream
    unfoldable pub close_stream : ℕ → StreamManager P → W → Option Error × (StreamManager P × W)
    close_stream sid m w = close_found sid (lookup sid m.streams) m w

    -- CloseAllStreams, which ignores errors.
    unfoldable pub close_each : ℕ → Map P → W → W
    close_each sid [] w = w
    close_each sid (entry ∷ ps) w = close_each sid ps (close_on entry.1 sid w).1

    unfoldable pub close_streams : Map (StreamImpl P) → W → W
    close_streams [] w = w
    close_streams (entry ∷ ss) w = close_streams ss (close_each entry.1.id entry.1.paths w)

    unfoldable pub close_all_streams : StreamManager P → W → StreamManager P × W
    close_all_streams m w = (record m { streams = [] }, close_streams m.streams w)
