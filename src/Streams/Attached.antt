-- ===== src/Streams/Attached.antt =====
-- stream.go: the primary path of a stream, behind any operations on its paths.
use kwik.Prelude.{
  ℕ, suc, ◌≡◌, refl, List, [], ◌∷◌, true, false, Option, none, some, ◌==◌, ==_self, if◌then◌else◌,
  if_false, arith, ◌⊎◌, inl, inr, Bool-cases, Option-cases, length,
}
use kwik.Prelude.Map.{Map, lookup, insert, delete, has, lookup-insert, lookup-delete}
use kwik.Protocol.Errors.{err, path_not_exists}
use kwik.Stream.Send.{SendStream, has_buffered}
use kwik.Streams.StreamImpl.{
  StreamImpl, Submission, new_stream, set_primary_path, add_path, attach, remove_path, write,
  write_bytes, write_on, finish_write, flush, flush_to, flush_on,
}
use kwik.Streams.Manager.{join_path}
use kwik.Transport.Paths.{choose_primary}
use kwik.Transport.Paths.Steps.{has-first_key}

-- What can happen to the paths of a stream: AddPath, the end of AddPathToStream with a path that is
-- new to the stream, RemovePath, SetPrimaryPath, and writes and flushes.
pub data Step {ℓ} (P : Type ℓ) : Type ℓ where
  adds : Option (ℕ × P) → Step P
  joins : ℕ → P → Step P
  removes : (start pid : ℕ) → Step P
  sets_primary : ℕ → Step P
  writes_with : (P → SendStream → Submission) → List ℕ → Step P
  flushes_with : (P → SendStream → Submission) → Step P

module _ {ℓ} {P : Type ℓ} where
  unfoldable pub step : Step P → StreamImpl P → StreamImpl P
  step (adds entry) s = (add_path entry s).1.1
  step (joins pid path) s = if has pid s.paths then s else join_path pid path s
  step (removes start pid) s = remove_path start pid s
  step (sets_primary pid) s = set_primary_path pid s
  step (writes_with submit p) s = (write submit p s).1
  step (flushes_with submit) s = (flush submit s).1

  unfoldable pub run : StreamImpl P → List (Step P) → StreamImpl P
  run s [] = s
  run s (op ∷ ops) = run (step op s) ops

  -- SetPrimaryPath, which takes any number, gets one of the paths that the stream has then.
  abbrev pub SetsOwn : StreamImpl P → List (Step P) → Type 0
  SetsOwn s [] = Unit
  SetsOwn s (sets_primary pid ∷ ops) =
      (has pid s.paths ≡ true) × SetsOwn (step (sets_primary pid) s) ops
  SetsOwn s (op ∷ ops) = SetsOwn (step op s) ops

  -- There is no path, or the primary path is one of the paths.
  abbrev IsPrimary : ℕ → Map P → Type ℓ
  IsPrimary pid m = ((m ≡ []) × (pid ≡ 0)) ⊎ (has pid m ≡ true)

  abbrev IsAttached : StreamImpl P → Type ℓ
  IsAttached s = IsPrimary s.primary_path_id s.paths

  has-insert_self : (pid : ℕ) (path : P) (m : Map P) → has pid (insert pid path m) ≡ true
  has-insert_self pid path m = rw (lookup-insert pid pid path m, ==_self pid) refl

  has-insert :
      (k pid : ℕ) (path : P) (m : Map P) → has k m ≡ true → has k (insert pid path m) ≡ true
  has-insert k pid path m h = elim (Bool-cases (pid == k)) [
    | inl e ↦ rw (lookup-insert k pid path m, e) refl
    | inr e ↦ rw (lookup-insert k pid path m, e) h
  ]

  attach-IsAttached :
      (pid : ℕ) (path : P) (s : StreamImpl P) → IsAttached s → IsAttached (attach pid path s)
  unfolding attach
  attach-IsAttached pid path s v = elim (Bool-cases (s.primary_path_id == 0)) [
    | inl e ↦ inr (rw e (has-insert_self pid path s.paths))
    | inr e ↦ inr (elim v [
      | inl h ↦ absurd (ground (arith, e, h.1))
      | inr h ↦ rw e (has-insert s.primary_path_id pid path s.paths h)
    ])
  ]

  joined_primary :
      (pid old : ℕ) (path : P) (m : Map P)
      → IsPrimary old m
      → has (if length m == 0 then pid else old) (insert pid path m) ≡ true
  joined_primary pid old path [] v = has-insert_self pid path []
  joined_primary pid old path (entry ∷ m) (inl h) = cc
  joined_primary pid old path (entry ∷ m) (inr h) =
      rw (if_false (suc (length m) == 0) pid old (ground arith))
        (has-insert old pid path (entry ∷ m) h)

  join_path-IsAttached :
      (pid : ℕ) (path : P) (s : StreamImpl P) → IsAttached s → IsAttached (join_path pid path s)
  unfolding join_path
  join_path-IsAttached pid path s v = inr (joined_primary pid s.primary_path_id path s.paths v)

  choose_primary-IsPrimary : (start : ℕ) (m : Map P) → IsPrimary (choose_primary start m) m
  choose_primary-IsPrimary start [] = inl (refl, refl)
  choose_primary-IsPrimary start (entry ∷ m) = inr (has-first_key start entry m)

  has-delete :
      (k pid : ℕ) (m : Map P) → (k == pid) ≡ false → has k m ≡ true → has k (delete pid m) ≡ true
  has-delete k pid m other h =
      rw (lookup-delete k pid m, if_false (pid == k) none (lookup k m) (ground (arith, other))) h

  removed-IsPrimary :
      (start pid old : ℕ) (m : Map P)
      → has pid m ≡ true
      → IsPrimary old m
      → IsPrimary (if old == pid then choose_primary start (delete pid m) else old) (delete pid m)
  unfolding lookup
  removed-IsPrimary start pid old m there v = elim (Bool-cases (old == pid)) [
    | inl e ↦ rw e (choose_primary-IsPrimary start (delete pid m))
    | inr e ↦ rw e (elim v [
      | inl h ↦ let gone : has {V = P} pid [] ≡ true = rw h.0 at there in cc gone
      | inr h ↦ inr (has-delete old pid m e h)
    ])
  ]

  remove_path-IsAttached :
      (start pid : ℕ) (s : StreamImpl P) → IsAttached s → IsAttached (remove_path start pid s)
  unfolding remove_path
  remove_path-IsAttached start pid s v = elim (Bool-cases (has pid s.paths)) [
    | inl e ↦ rw (e, remove_path) (removed-IsPrimary start pid s.primary_path_id s.paths e v)
    | inr e ↦ rw (e, remove_path) v
  ]

  -- What leaves the paths alone.
  record Kept (s t : StreamImpl P) : Type ℓ where
    paths : t.paths ≡ s.paths
    primary : t.primary_path_id ≡ s.primary_path_id

  Kept-IsAttached : (s t : StreamImpl P) → Kept s t → IsAttached s → IsAttached t
  Kept-IsAttached s t k v = rw (k.paths, k.primary) v

  finish_write-Kept : (n : ℕ) (s : StreamImpl P) (r : Submission) → Kept s (finish_write n s r).1
  unfolding finish_write
  finish_write-Kept n s r = elim (Option-cases r.failure) [
    | inl e ↦ rw (e, finish_write) (record { paths = refl; primary = refl })
    | inr (failure, e) ↦ rw (e, finish_write) (record { paths = refl; primary = refl })
  ]

  write-Kept :
      (submit : P → SendStream → Submission) (p : List ℕ) (s : StreamImpl P)
      → Kept s (write submit p s).1
  unfolding write write_bytes write_on
  write-Kept submit [] s = record { paths = refl; primary = refl }
  write-Kept submit (b ∷ p) s = elim (Option-cases (lookup s.primary_path_id s.paths)) [
    | inl e ↦ rw (e, write_bytes) (record { paths = refl; primary = refl })
    | inr (path, e) ↦ rw (e, write_bytes) (finish_write-Kept _ s _)
  ]

  flush_on-Kept :
      (submit : P → SendStream → Submission) (path : P) (s : StreamImpl P)
      → Kept s (flush_on submit path s).1
  unfolding flush_on
  flush_on-Kept submit path s = elim (Bool-cases (has_buffered s.send)) [
    | inl e ↦ rw (e, flush_on) (record { paths = refl; primary = refl })
    | inr e ↦ rw (e, flush_on) (record { paths = refl; primary = refl })
  ]

  flush-Kept : (submit : P → SendStream → Submission) (s : StreamImpl P) → Kept s (flush submit s).1
  unfolding flush flush_to
  flush-Kept submit s = elim (Option-cases (lookup s.primary_path_id s.paths)) [
    | inl e ↦ rw (e, flush_to) (record { paths = refl; primary = refl })
    | inr (path, e) ↦ rw (e, flush_to) (flush_on-Kept submit path s)
  ]

  abbrev IsOwn : Step P → StreamImpl P → Type 0
  IsOwn (sets_primary pid) s = has pid s.paths ≡ true
  IsOwn op s = Unit

  SetsOwn-IsOwn :
      (op : Step P) (ops : List (Step P)) (s : StreamImpl P)
      → SetsOwn s (op ∷ ops)
      → IsOwn op s × SetsOwn (step op s) ops
  SetsOwn-IsOwn (adds entry) ops s h = (tt, h)
  SetsOwn-IsOwn (joins pid path) ops s h = (tt, h)
  SetsOwn-IsOwn (removes start pid) ops s h = (tt, h)
  SetsOwn-IsOwn (sets_primary pid) ops s h = h
  SetsOwn-IsOwn (writes_with submit p) ops s h = (tt, h)
  SetsOwn-IsOwn (flushes_with submit) ops s h = (tt, h)

  step-IsAttached :
      (op : Step P) (s : StreamImpl P) → IsOwn op s → IsAttached s → IsAttached (step op s)
  unfolding step add_path set_primary_path
  step-IsAttached (adds none) s own v = v
  step-IsAttached (adds (some entry)) s own v = elim (Bool-cases (has entry.0 s.paths)) [
    | inl e ↦ rw (e, step, add_path) v
    | inr e ↦ rw (e, step, add_path) (attach-IsAttached entry.0 entry.1 s v)
  ]
  step-IsAttached (joins pid path) s own v = elim (Bool-cases (has pid s.paths)) [
    | inl e ↦ rw (e, step) v
    | inr e ↦ rw (e, step) (join_path-IsAttached pid path s v)
  ]
  step-IsAttached (removes start pid) s own v = remove_path-IsAttached start pid s v
  step-IsAttached (sets_primary pid) s own v = inr own
  step-IsAttached (writes_with submit p) s own v = Kept-IsAttached s _ (write-Kept submit p s) v
  step-IsAttached (flushes_with submit) s own v = Kept-IsAttached s _ (flush-Kept submit s) v

  run-IsAttached :
      (ops : List (Step P)) (s : StreamImpl P)
      → SetsOwn s ops
      → IsAttached s
      → IsAttached (run s ops)
  unfolding run
  run-IsAttached [] s own v = v
  run-IsAttached (op ∷ ops) s own v =
      let (this, rest) = SetsOwn-IsOwn op ops s own in
      run-IsAttached ops (step op s) rest (step-IsAttached op s this v)

  -- A new stream has been through any operations on its paths, writes and flushes, where each call of
  -- SetPrimaryPath names a path that the stream has at that time. Then either it
  -- has no path, and a write of data fails with the error for the path 0 and changes nothing, or its
  -- primary path is one of its paths, and such a write goes to that path.
  pub write-run :
      (id : ℕ) (ops : List (Step P)) (submit : P → SendStream → Submission) (b : ℕ) (p : List ℕ)
      → SetsOwn (new_stream id) ops
      → let s = run (new_stream id) ops in
        ((s.paths ≡ []) × (write submit (b ∷ p) s ≡ (err (path_not_exists 0), s)))
        ⊎ ((path : P) × (lookup s.primary_path_id s.paths ≡ some path)
            × (write submit (b ∷ p) s ≡ write_on submit (b ∷ p) path s))
  unfolding new_stream write write_bytes lookup
  write-run id ops submit b p own =
      let s : StreamImpl P = run (new_stream id) ops in
      elim (run-IsAttached ops (new_stream id) own (inl (refl, refl))) [
        | inl h ↦ inl (h.0, rw (h.0, h.1) refl)
        | inr h ↦ elim (Option-cases (lookup s.primary_path_id s.paths)) [
          | inl e ↦ let gone : false ≡ true = rw e at h in cc gone
          | inr (path, e) ↦ inr (path, e, rw e refl)
        ]
      ]
