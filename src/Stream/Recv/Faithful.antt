-- ===== src/Stream/Recv/Faithful.antt =====
-- Safety of RecvStream: whatever arrives, the reader sees a prefix of what was sent.
use kwik.Prelude.{
  ℕ, zero, suc, ◌+◌, ◌≤◌, ◌≡◌, refl, sym, ap, ◌∙◌, List, [], ◌∷◌, ◌++◌, Bool, true, false, some,
  ltb, ◌==◌, ==_iff, if◌then◌else◌, length, take, drop, add64, arith, Option-cases, Bool-cases, inl,
  inr, IsU64, append_assoc, subst, ◌⊎◌, take-append-drop,
}
use kwik.Prelude.Map.{lookup, lookup-insert, lookup-delete}
use kwik.Protocol.Frame.{StreamFrame}
use kwik.Stream.Recv.{
  RecvStream, take_chunk, append_data, set_fin, notify, buffer_chunk, poll_read, ReadOutcome, got,
  end_of_stream, blocked,
}
use kwik.Stream.Recv.Reorder.{drain_once, drain_once-none, drain_once-some, deliver}

-- `bytes` is the part of `sent` that begins at the offset.
abbrev pub IsSlice : List ℕ → ℕ → List ℕ → Type 0
IsSlice sent offset bytes =
    (offset + length bytes ≤ length sent) × (bytes ≡ take (length bytes) (drop offset sent))

-- `seen` is what Read has returned so far.
pub record IsFaithful (sent seen : List ℕ) (s : RecvStream) : Type 0 where
  pub within : s.expected_offset ≤ length sent
  pub prefix : seen ++ s.read_buf ≡ take s.expected_offset sent
  pub chunks : (k : ℕ) (bytes : List ℕ) → lookup k s.buffered ≡ some bytes → IsSlice sent k bytes

take-nil : (n : ℕ) → take {A = ℕ} n [] ≡ []
take-nil zero = refl
take-nil (suc n) = refl

take-append-take-drop : (m n : ℕ) (xs : List ℕ) → take m xs ++ take n (drop m xs) ≡ take (m + n) xs
take-append-take-drop zero n xs = ap (λ k. take k xs) (omega arith)
take-append-take-drop (suc m) n [] = rw (take-nil n, take-nil (suc m + n))
take-append-take-drop (suc m) n (x ∷ xs) =
    let e : suc (m + n) ≡ suc m + n = omega arith in
    ap (◌∷◌ x) (take-append-take-drop m n xs) ∙ ap (λ k. take k (x ∷ xs)) e

-- What a reader has seen after a round of Read.
abbrev pub seen_after : List ℕ → ReadOutcome → List ℕ
seen_after seen (got bytes) = seen ++ bytes
seen_after seen end_of_stream = seen
seen_after seen blocked = seen

module _ (sent : List ℕ) (short : IsU64 (length sent)) where
  -- Delivered bytes at the expected offset lengthen the prefix.
  pub extend_prefix :
      (seen read_buf bytes : List ℕ) (offset : ℕ)
      → seen ++ read_buf ≡ take offset sent
      → IsSlice sent offset bytes
      → seen ++ (read_buf ++ bytes) ≡ take (add64 offset (length bytes)) sent
  extend_prefix seen read_buf bytes offset e slice =
      sym (append_assoc seen read_buf bytes)
      ∙ ap (λ xs. xs ++ bytes) e
      ∙ ap (λ xs. take offset sent ++ xs) slice.1
      ∙ take-append-take-drop offset (length bytes) sent
      ∙ ap (λ n. take n sent) (omega (arith, slice.0))

  append_data-IsFaithful :
      (seen bytes : List ℕ) (s : RecvStream)
      → IsFaithful sent seen s
      → IsSlice sent s.expected_offset bytes
      → IsFaithful sent seen (append_data s bytes)
  unfolding append_data
  append_data-IsFaithful seen bytes s v slice = record {
    within = omega (arith, slice.0);
    prefix = extend_prefix seen s.read_buf bytes s.expected_offset v.prefix slice;
    chunks = v.chunks;
  }

  take_chunk-IsFaithful :
      (seen bytes : List ℕ) (s : RecvStream)
      → IsFaithful sent seen s
      → IsSlice sent s.expected_offset bytes
      → IsFaithful sent seen (take_chunk s bytes)
  unfolding take_chunk
  take_chunk-IsFaithful seen bytes s v slice = record {
    within = omega (arith, slice.0);
    prefix = extend_prefix seen s.read_buf bytes s.expected_offset v.prefix slice;
    chunks = λ k found e.
        v.chunks k found
          (ground (arith, lookup-delete k (add64 s.expected_offset (length bytes)) s.buffered, e));
  }

  drain_once-IsFaithful :
      (seen : List ℕ) (s : RecvStream)
      → IsFaithful sent seen s
      → IsFaithful sent seen (drain_once s)
  unfolding drain_once
  drain_once-IsFaithful seen s v = elim (Option-cases (lookup s.expected_offset s.buffered)) [
    | inl e ↦ subst (IsFaithful sent seen) (sym (drain_once-none s e)) v
    | inr (bytes, e) ↦
        subst (IsFaithful sent seen) (sym (drain_once-some s bytes e))
          (take_chunk-IsFaithful seen bytes s v (v.chunks s.expected_offset bytes e))
  ]

  buffer_chunk-IsFaithful :
      (seen bytes : List ℕ) (offset : ℕ) (s : RecvStream)
      → IsFaithful sent seen s
      → IsSlice sent offset bytes
      → IsFaithful sent seen (buffer_chunk s offset bytes)
  unfolding buffer_chunk
  buffer_chunk-IsFaithful seen bytes offset s v slice = record {
    within = v.within;
    prefix = v.prefix;
    chunks = λ k found e.
        inserted k found (rw (lookup-insert k offset bytes s.buffered) at e)
          (Bool-cases (offset == k));
  }
    where
      inserted :
          (k : ℕ) (found : List ℕ)
          → (if offset == k then some bytes else lookup k s.buffered) ≡ some found
          → ((offset == k) ≡ true) ⊎ ((offset == k) ≡ false)
          → IsSlice sent k found
      inserted k found e (inl hit) =
          let e' : some bytes ≡ some found = rw hit at e in
          let same : bytes ≡ found = cc in
          subst (λ (n : ℕ). IsSlice sent n found) ((==_iff offset k).0 hit)
            (subst (IsSlice sent offset) same slice)
      inserted k found e (inr miss) = v.chunks k found (rw miss at e)

  notify-IsFaithful :
      (seen : List ℕ) (s : RecvStream) → IsFaithful sent seen s → IsFaithful sent seen (notify s)
  unfolding notify
  notify-IsFaithful seen s v = record { within = v.within; prefix = v.prefix; chunks = v.chunks }

  set_fin-IsFaithful :
      (fin : Bool) (seen : List ℕ) (s : RecvStream)
      → IsFaithful sent seen s
      → IsFaithful sent seen (set_fin fin s)
  unfolding set_fin
  set_fin-IsFaithful true seen s v = record {
    within = v.within;
    prefix = v.prefix;
    chunks = v.chunks;
  }
  set_fin-IsFaithful false seen s v = v

  -- A frame with a slice of what was sent, at any offset, keeps what the reader has seen, followed
  -- by what it can read, a prefix of what was sent, and the buffered chunks slices of it.
  pub deliver-IsFaithful :
      (seen : List ℕ) (s : RecvStream) (f : StreamFrame)
      → IsFaithful sent seen s
      → IsSlice sent f.offset f.payload
      → IsFaithful sent seen (deliver s f)
  unfolding deliver
  deliver-IsFaithful seen s f v slice = elim (Bool-cases (f.offset == s.expected_offset)) [
    | inl here ↦ rw here (
        notify-IsFaithful seen _ (
          set_fin-IsFaithful f.fin seen _ (
            drain_once-IsFaithful seen _ (
              append_data-IsFaithful seen f.payload s v (
                subst (λ (n : ℕ). IsSlice sent n f.payload)
                  ((==_iff f.offset s.expected_offset).0 here) slice)))))
    | inr away ↦ rw away (elim (Bool-cases (ltb s.expected_offset f.offset)) [
      | inl ahead ↦
          rw ahead
            (notify-IsFaithful seen _ (buffer_chunk-IsFaithful seen f.payload f.offset s v slice))
      | inr behind ↦ rw behind (notify-IsFaithful seen s v)
    ])
  ]

  read_some :
      (n : ℕ) (seen : List ℕ) (s : RecvStream)
      → IsFaithful sent seen s
      → IsFaithful sent
          (seen ++ take n s.read_buf)
          (record s { read_buf = drop n s.read_buf; read_active = false })
  read_some n seen s v = record {
    within = v.within;
    prefix =
        append_assoc seen (take n s.read_buf) (drop n s.read_buf)
        ∙ ap (λ xs. seen ++ xs) (take-append-drop n s.read_buf)
        ∙ v.prefix;
    chunks = v.chunks;
  }

  -- A round of Read keeps the invariant, with what it returned behind what was seen before.
  pub poll_read-IsFaithful :
      (n : ℕ) (seen : List ℕ) (s : RecvStream)
      → IsFaithful sent seen s
      → IsFaithful sent (seen_after seen (poll_read n s).0) (poll_read n s).1
  unfolding poll_read
  poll_read-IsFaithful n seen s v = elim (Bool-cases (ltb 0 (length s.read_buf))) [
    | inl some_left ↦ rw some_left (read_some n seen s v)
    | inr none_left ↦ rw none_left (elim (Bool-cases s.fin_received) [
      | inl fin ↦ simp fin (record { within = v.within; prefix = v.prefix; chunks = v.chunks })
      | inr open_end ↦
          simp open_end (record { within = v.within; prefix = v.prefix; chunks = v.chunks })
    ])
  ]
