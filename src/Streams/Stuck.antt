-- ===== src/Streams/Stuck.antt =====
-- stream_manager.go over path.go: CloseStream on a stream one of whose paths does not know it.
use kwik.Prelude.{
  ℕ, zero, suc, ◌≡◌, refl, sym, ◌∙◌, [], ◌∷◌, Option, none, some, ◌==◌, arith, if_true, if_false,
  Bool-cases, Option-cases, inl, inr, ◌⊎◌,
}
use kwik.Prelude.Map.{Map, lookup, insert, lookup-insert}
use kwik.Protocol.Errors.{Error, stream_not_exists}
use kwik.Streams.StreamImpl.{StreamImpl}
use kwik.Streams.Manager.{StreamManager, close_on_paths, forget_stream, close_stream}
use kwik.Transport.PathImpl
use kwik.Transport.PathImpl.{PathImpl, remove_stream}

-- All path objects, by their numbers; a stream refers to a path by its number.
abbrev pub World : Type 0
World = Map PathImpl

abbrev pub store : ℕ → Option Error × PathImpl → World → Option Error × World
store pid r w = (r.0, insert pid r.1 w)

abbrev pub close_stored : ℕ → ℕ → Option PathImpl → World → Option Error × World
close_stored pid sid none w = (none, w)
close_stored pid sid (some p) w = store pid (PathImpl.close_stream sid p) w

-- CloseStream of the path with this number; a nil path is passed over.
unfoldable pub close_on_path : ℕ → ℕ → World → Option Error × World
close_on_path pid sid w = close_stored pid sid (lookup pid w) w

-- The path is there and does not have the stream.
abbrev pub Lacks : ℕ → ℕ → World → Type 0
Lacks pid sid w = (p : PathImpl) × (lookup pid w ≡ some p) × (lookup sid p.streams ≡ none)

fails_on :
    (pid sid : ℕ) (w : World)
    → Lacks pid sid w
    → (e : Error) × ((close_on_path pid sid w).0 ≡ some e)
unfolding close_on_path PathImpl.close_stream
fails_on pid sid w (p, there, gone) = (stream_not_exists p.id sid, rw (there, gone) refl)

close_stream-Lacks :
    (sid : ℕ) (p : PathImpl)
    → lookup sid p.streams ≡ none
    → lookup sid (PathImpl.close_stream sid p).1.streams ≡ none
unfolding PathImpl.close_stream
close_stream-Lacks sid p gone = rw (gone, PathImpl.close_stream) gone

close_on_path-Lacks :
    (q pid sid : ℕ) (w : World) → Lacks pid sid w → Lacks pid sid (close_on_path q sid w).1
unfolding close_on_path
close_on_path-Lacks q pid sid w (p, there, gone) = elim (Bool-cases (q == pid)) [
  | inl e ↦
      let same : q ≡ pid = ground (arith, e) in
      let found : lookup q w ≡ some p = rw same there in
      (
        (PathImpl.close_stream sid p).1,
        rw (found, close_on_path)
            (lookup-insert pid q (PathImpl.close_stream sid p).1 w ∙ if_true (q == pid) _ _ e),
        close_stream-Lacks sid p gone,
      )
  | inr e ↦ elim (Option-cases (lookup q w)) [
    | inl none_there ↦ (p, rw (none_there, close_on_path) there, gone)
    | inr (other, o) ↦ (
      p,
      rw (o, close_on_path)
          (lookup-insert pid q (PathImpl.close_stream sid other).1 w
            ∙ if_false (q == pid) _ _ e
            ∙ there),
      gone,
    )
  ]
]

-- The path is one of the paths of a stream.
abbrev pub Uses : ℕ → Map ℕ → Type 0
Uses pid [] = ⊥
Uses pid (entry ∷ ps) = (entry.1 ≡ pid) ⊎ Uses pid ps

-- The loop of CloseStream fails, and the path still lacks the stream.
record Fails (pid sid : ℕ) (r : Option Error × World) : Type 0 where
  error : (e : Error) × (r.0 ≡ some e)
  lacking : Lacks pid sid r.1

close_on_paths-Fails :
    (pid sid : ℕ) (ps : Map ℕ) (w : World)
    → Uses pid ps
    → Lacks pid sid w
    → Fails pid sid (close_on_paths close_on_path sid ps w)
unfolding close_on_paths
close_on_paths-Fails pid sid [] w u l = absurd u
close_on_paths-Fails pid sid (entry ∷ ps) w u l =
    let next = close_on_path-Lacks entry.1 pid sid w l in
    elim (Option-cases (close_on_path entry.1 sid w).0) [
      | inr (e, failed) ↦ rw (failed, close_on_paths) (record { error = (e, refl); lacking = next })
      | inl fine ↦ elim u [
        | inl same ↦
            let failure = fails_on pid sid w l in
            let none_failed : (close_on_path pid sid w).0 ≡ none = rw same at fine in
            let clash : some failure.0 ≡ none = sym failure.1 ∙ none_failed in cc clash
        | inr behind ↦
            rw (fine, close_on_paths)
              (close_on_paths-Fails pid sid ps (close_on_path entry.1 sid w).1 behind next)
      ]
    ]

-- CloseStream, called `n` times.
unfoldable pub close_times : ℕ → ℕ → StreamManager ℕ → World → StreamManager ℕ × World
close_times zero sid m w = (m, w)
close_times (suc n) sid m w =
    let (m', w') = (close_stream close_on_path sid m w).1 in close_times n sid m' w'

record Stays (pid sid : ℕ) (m : StreamManager ℕ) (r : Option Error × (StreamManager ℕ × World))
    : Type 0 where
  error : (e : Error) × (r.0 ≡ some e)
  manager : r.1.0 ≡ m
  lacking : Lacks pid sid r.1.1

forget_stream-Stays :
    (pid sid : ℕ) (m : StreamManager ℕ) (r : Option Error × World)
    → Fails pid sid r
    → Stays pid sid m (forget_stream close_on_path sid r m)
forget_stream-Stays pid sid m (none, w) f = let clash = f.error.1 in cc clash
forget_stream-Stays pid sid m (some e, w) f = record {
  error = (e, refl);
  manager = refl;
  lacking = f.lacking;
}

close_stream-Stays :
    (pid sid : ℕ) (s : StreamImpl ℕ) (m : StreamManager ℕ) (w : World)
    → lookup sid m.streams ≡ some s
    → Uses pid s.paths
    → Lacks pid sid w
    → Stays pid sid m (close_stream close_on_path sid m w)
unfolding close_stream
close_stream-Stays pid sid s m w there u l =
    rw (there, close_stream)
      (forget_stream-Stays pid sid m (close_on_paths close_on_path sid s.paths w)
        (close_on_paths-Fails pid sid s.paths w u l))

-- A stream that has a path on which it is not open, as when that path has been closed or an earlier
-- CloseStream got no further than behind it, cannot be closed: however often CloseStream is called,
-- it returns an error, and the manager keeps the stream.
pub close_times-stuck :
    (n pid sid : ℕ) (s : StreamImpl ℕ) (m : StreamManager ℕ) (w : World)
    → lookup sid m.streams ≡ some s
    → Uses pid s.paths
    → Lacks pid sid w
    → let (m', w') = close_times n sid m w in
      (m' ≡ m) × ((e : Error) × ((close_stream close_on_path sid m' w').0 ≡ some e))
unfolding close_times
close_times-stuck zero pid sid s m w there u l =
    (refl, (close_stream-Stays pid sid s m w there u l).error)
close_times-stuck (suc n) pid sid s m w there u l =
    let one = close_stream-Stays pid sid s m w there u l in
    rw (close_times, one.manager)
      (close_times-stuck n pid sid s m (close_stream close_on_path sid m w).1.1 there u one.lacking)
