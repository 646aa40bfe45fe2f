-- ===== src/Streams/Numbers.antt =====
-- stream_manager.go: the numbers of the streams, behind any operations of the manager.
use kwik.Prelude.{
  ℕ, suc, ◌+◌, ◌^◌, ◌≤◌, ◌<◌, ◌≡◌, refl, subst, List, [], ◌∷◌, false, Option, none, some, ◌==◌,
  add64, length, arith, leb, if◌then◌else◌, Bool-cases, Option-cases, inl, inr,
}
use kwik.Prelude.Map.{
  lookup, has, Every, Every-insert, Every-delete, Every-lookup, Every-weaken, lookup-insert,
}
use kwik.Protocol.Errors.{Error}
use kwik.Streams.StreamImpl.{StreamImpl, new_stream}
use kwik.Streams.Manager.{
  StreamManager, new_stream_manager, create_stream, add_path_to, add_path_to_stream, join_path,
  raise_next, close_stream, close_found, forget_stream, close_on_paths, close_all_streams,
}

-- What can happen to a stream manager.
pub data Step {ℓ} (P : Type ℓ) : Type ℓ where
  creates : Step P
  adds_path : ℕ → Option (ℕ × P) → Step P
  closes : ℕ → Step P
  closes_all : Step P

module _ {ℓ κ} {P : Type ℓ} {W : Type κ} (close_on : P → ℕ → W → Option Error × W) where
  unfoldable pub step : Step P → StreamManager P × W → StreamManager P × W
  step creates (m, w) = ((create_stream m).1, w)
  step (adds_path sid entry) (m, w) = ((add_path_to_stream sid entry m).1, w)
  step (closes sid) (m, w) = (close_stream close_on sid m w).1
  step closes_all (m, w) = close_all_streams close_on m w

  unfoldable pub run : StreamManager P × W → List (Step P) → StreamManager P × W
  run mw [] = mw
  run mw (op ∷ ops) = run (step op mw) ops

  -- A stream stands under its number, which is below the next one.
  abbrev IsBelow : ℕ → ℕ → StreamImpl P → Type 0
  IsBelow next sid s = (s.id ≡ sid) × (1 ≤ sid) × (sid < next)

  -- No number has come round: at most `n` streams have been created.
  record IsNumbered (n : ℕ) (m : StreamManager P) : Type ℓ where
    numbers : Every (IsBelow m.next_stream_id) m.streams
    first : 1 ≤ m.next_stream_id
    few : m.next_stream_id ≤ suc n

  create_stream-IsNumbered :
      (n : ℕ) (m : StreamManager P)
      → suc (suc n) < 2 ^ 64
      → IsNumbered n m
      → IsNumbered (suc n) (create_stream m).1
  unfolding create_stream new_stream
  create_stream-IsNumbered n m short v =
      let next : add64 m.next_stream_id 1 ≡ suc m.next_stream_id = omega (arith, v.few) in
      let old : Every (IsBelow (suc m.next_stream_id)) m.streams =
        Every-weaken m.streams (λ sid s b. (b.0, b.1, omega (arith, b.2))) v.numbers in
      rw next (record {
        numbers =
            Every-insert (IsBelow (suc m.next_stream_id)) m.next_stream_id
              (new_stream m.next_stream_id) m.streams (refl, v.first, omega arith) old;
        first = omega arith;
        few = omega (arith, v.few);
      })

  -- AddPathToStream never has to raise the next number.
  add_path_to-IsNumbered :
      (n sid : ℕ) (entry : ℕ × P) (found : Option (StreamImpl P)) (m : StreamManager P)
      → lookup sid m.streams ≡ found
      → IsNumbered n m
      → IsNumbered n (add_path_to sid entry found m).1
  unfolding raise_next join_path
  add_path_to-IsNumbered n sid entry none m there v = v
  add_path_to-IsNumbered n sid entry (some s) m there v =
      let b : IsBelow m.next_stream_id sid s =
        Every-lookup (IsBelow m.next_stream_id) sid s m.streams v.numbers there in
      let low : leb m.next_stream_id sid ≡ false = ground (arith, b.2) in
      elim (Bool-cases (has entry.0 s.paths)) [
        | inl e ↦ rw e v
        | inr e ↦
            rw (e, raise_next, low)
              (record {
                numbers =
                    Every-insert (IsBelow m.next_stream_id) sid (join_path entry.0 entry.1 s)
                      m.streams b v.numbers;
                first = v.first;
                few = v.few;
              })
      ]

  forget_stream-IsNumbered :
      (n sid : ℕ) (r : Option Error × W) (m : StreamManager P)
      → IsNumbered n m
      → IsNumbered n (forget_stream close_on sid r m).1.0
  forget_stream-IsNumbered n sid (none, w) m v = record {
    numbers = Every-delete (IsBelow m.next_stream_id) sid m.streams v.numbers;
    first = v.first;
    few = v.few;
  }
  forget_stream-IsNumbered n sid (some e, w) m v = v

  close_found-IsNumbered :
      (n sid : ℕ) (found : Option (StreamImpl P)) (m : StreamManager P) (w : W)
      → IsNumbered n m
      → IsNumbered n (close_found close_on sid found m w).1.0
  close_found-IsNumbered n sid none m w v = v
  close_found-IsNumbered n sid (some s) m w v =
      forget_stream-IsNumbered n sid (close_on_paths close_on sid s.paths w) m v

  more : (n : ℕ) (m : StreamManager P) → IsNumbered n m → IsNumbered (suc n) m
  more n m v = record { numbers = v.numbers; first = v.first; few = omega (arith, v.few) }

  step-IsNumbered :
      (n : ℕ) (op : Step P) (mw : StreamManager P × W)
      → suc (suc n) < 2 ^ 64
      → IsNumbered n mw.0
      → IsNumbered (suc n) (step op mw).0
  unfolding step close_stream close_all_streams add_path_to_stream
  step-IsNumbered n creates (m, w) short v = create_stream-IsNumbered n m short v
  step-IsNumbered n (adds_path sid none) (m, w) short v = more n m v
  step-IsNumbered n (adds_path sid (some entry)) (m, w) short v =
      more n _ (add_path_to-IsNumbered n sid entry (lookup sid m.streams) m refl v)
  step-IsNumbered n (closes sid) (m, w) short v =
      more n _ (close_found-IsNumbered n sid (lookup sid m.streams) m w v)
  step-IsNumbered n closes_all (m, w) short v = record {
    numbers = tt;
    first = v.first;
    few = omega (arith, v.few);
  }

  run-IsNumbered :
      (n : ℕ) (ops : List (Step P)) (mw : StreamManager P × W)
      → suc n + length ops < 2 ^ 64
      → IsNumbered n mw.0
      → IsNumbered (n + length ops) (run mw ops).0
  unfolding run
  run-IsNumbered n [] mw short v = subst (λ (k : ℕ). IsNumbered k mw.0) (omega arith) v
  run-IsNumbered n (op ∷ ops) mw short v =
      subst (λ (k : ℕ). IsNumbered k (run (step op mw) ops).0) (omega arith)
        (run-IsNumbered (suc n) ops (step op mw) (omega arith)
          (step-IsNumbered n op mw (omega arith) v))

  -- A number that is not below the next one is free.
  free :
      (k : ℕ) (m : StreamManager P)
      → Every (IsBelow m.next_stream_id) m.streams
      → m.next_stream_id ≤ k
      → lookup k m.streams ≡ none
  free k m v high = elim (Option-cases (lookup k m.streams)) [
    | inl e ↦ e
    | inr (s, e) ↦
        let b = Every-lookup (IsBelow m.next_stream_id) k s m.streams v e in
        absurd (omega (arith, b.2))
  ]

  -- After fewer than 2 ^ 64 - 2 operations of a new manager, whatever the paths answer when streams
  -- are closed, CreateStream gives a stream with a number that no stream of the manager has, and
  -- stores it there; what stands under every other number is left alone.
  pub create_stream-run :
      (w : W) (ops : List (Step P)) (k : ℕ)
      → suc (suc (length ops)) < 2 ^ 64
      → let m = (run (new_stream_manager, w) ops).0 in
        let (s, m') = create_stream m in
        (lookup s.id m.streams ≡ none)
        × (lookup k m'.streams ≡ (if s.id == k then some s else lookup k m.streams))
  unfolding create_stream new_stream new_stream_manager
  create_stream-run w ops k short =
      let m = (run (new_stream_manager, w) ops).0 in
      let v : IsNumbered (0 + length ops) m =
        run-IsNumbered 0 ops (new_stream_manager, w) (omega arith)
          (record { numbers = tt; first = omega arith; few = omega arith }) in
      (
        free m.next_stream_id m v.numbers (omega arith),
        lookup-insert k m.next_stream_id (new_stream m.next_stream_id) m.streams,
      )
