-- ===== src/Streams/Tests.antt =====
-- The theorems on streams and their manager at concrete data.
use kwik.Prelude.{
  ℕ, ◌≡◌, refl, List, [], ◌∷◌, ◌++◌, true, none, some, arith, concat, replicate, ◌⊎◌, inl,
  if◌then◌else◌, ◌==◌,
}
use kwik.Prelude.Map.{lookup, insert}
use kwik.Protocol.Errors.{submit_failed, Error, err, path_not_exists}
use kwik.Stream.Send.{SendStream}
use kwik.Streams.StreamImpl.{StreamImpl, Submission, new_stream, add_path, attach, write, write_on}
use kwik.Streams.Attached
use kwik.Streams.Attached.{Step, adds, sets_primary, removes, writes_with, write-run}
use kwik.Streams.Writes.{try_writes, write_refused}
use kwik.Streams.Manager.{StreamManager, new_stream_manager, create_stream, close_stream}
use kwik.Streams.Numbers
use kwik.Streams.Numbers.{create_stream-run}
use kwik.Streams.Stuck.{World, close_on_path, close_times, close_times-stuck}
use kwik.Transport.PathImpl.{PathImpl, not_ready, submit_send_stream}
use kwik.Transport.PathImpl.Lifecycle.{initial_path}

-- A path that is not ready yet.
abbrev early_path : PathImpl
early_path = initial_path 2 true

-- SubmitSendStream of a path that is not ready does not reach the packer.
abbrev submit : PathImpl → SendStream → Submission
submit path s = record { failure = (submit_send_stream none s.stream_id path).0; left = s }

abbrev ops : List (Attached.Step PathImpl)
ops =
    adds (some (2, early_path))
    ∷ adds (some (3, early_path))
    ∷ sets_primary 3
    ∷ writes_with submit (7 ∷ [])
    ∷ removes 0 2
    ∷ []

write-run_example :
    let s = Attached.run (new_stream 4) ops in
    ((s.paths ≡ []) × (write submit (1 ∷ 2 ∷ []) s ≡ (err (path_not_exists 0), s)))
    ⊎ ((path : PathImpl) × (lookup s.primary_path_id s.paths ≡ some path)
        × (write submit (1 ∷ 2 ∷ []) s ≡ write_on submit (1 ∷ 2 ∷ []) path s))
unfolding new_stream add_path attach lookup insert Attached.step initial_path
write-run_example = write-run 4 ops submit 1 (2 ∷ []) (refl, tt)

abbrev early_stream : StreamImpl PathImpl
early_stream = attach 2 early_path (new_stream 4)

write_refused_example :
    let t = try_writes submit (1 ∷ 2 ∷ []) 3 early_stream in
    ((write submit (1 ∷ 2 ∷ []) early_stream).0 ≡ err (submit_failed not_ready))
    × (concat t.send.send_buffer
        ≡ concat early_stream.send.send_buffer ++ concat (replicate 3 (1 ∷ 2 ∷ [])))
    × (t.write_offset ≡ early_stream.write_offset)
unfolding attach new_stream initial_path lookup insert submit_send_stream
write_refused_example =
    write_refused submit 1 (2 ∷ []) early_path not_ready 3 early_stream refl (λ s. refl)

abbrev manager_ops : List (Numbers.Step ℕ)
manager_ops =
    Numbers.creates ∷ Numbers.creates ∷ Numbers.adds_path 1 (some (2, 2)) ∷ Numbers.closes 1 ∷ []

create_stream-run_example :
    let m = (Numbers.run close_on_path (new_stream_manager, []) manager_ops).0 in
    let (s, m') = create_stream m in
    (lookup s.id m.streams ≡ none)
    × (lookup 2 m'.streams ≡ (if s.id == 2 then some s else lookup 2 m.streams))
create_stream-run_example = create_stream-run close_on_path [] manager_ops 2 (omega arith)

abbrev one_stream : StreamImpl ℕ
one_stream = attach 2 2 (new_stream 4)

abbrev manager : StreamManager ℕ
manager = record { streams = (4, one_stream) ∷ []; next_stream_id = 5 }

abbrev world : World
world = (2, early_path) ∷ []

close_times-stuck_example :
    let (m', w') = close_times 2 4 manager world in
    (m' ≡ manager) × ((e : Error) × ((close_stream close_on_path 4 m' w').0 ≡ some e))
unfolding attach new_stream initial_path lookup insert
close_times-stuck_example =
    close_times-stuck 2 2 4 one_stream manager world refl (inl refl) (early_path, refl, refl)
