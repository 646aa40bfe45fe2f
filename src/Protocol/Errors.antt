-- ===== src/Protocol/Errors.antt =====
-- internal/protocol/errors.go, with the io errors that the parsers pass on. A panic is an outcome
-- of its own.
use kwik.Prelude.{ℕ, Bool, true, false, ◌≡◌, refl}

pub data Error : Type 0 where
  -- io.EOF and io.ErrUnexpectedEOF
  eof unexpected_eof : Error
  -- fmt.Errorf in ParseFrame and DeserializePacket
  unknown_frame_type unreasonable_frame_count : ℕ → Error
  -- NewPathNotExistsError and NewInvalidPathIDError
  path_not_exists invalid_path_id : ℕ → Error
  control_stream_failed : ℕ → Error
  -- NewExistStreamError and NewNotExistStreamError: path and stream
  stream_exists stream_not_exists : ℕ → ℕ → Error
  -- NewFrameTooLargeError: the size and the maximum
  frame_too_large : ℕ → ℕ → Error
  invalid_session_id : ℕ → Error
  -- fmt.Errorf with %w around the error of a path, in Write and in Flush of stream.go
  submit_failed flush_failed : Error → Error
  -- any other error of a collaborator, by a number
  other : ℕ → Error

-- How a call ends.
pub data Result {u} (A : Type u) : Type u where
  panic : Result A
  err : Error → Result A
  ok : A → Result A

infixl 5 ◌>>=◌ ◌>>◌
abbrev pub ◌>>=◌ {u v} : {A : Type u} {B : Type v} → Result A → (A → Result B) → Result B
panic >>= next = panic
err failure >>= next = err failure
ok a >>= next = next a

abbrev pub ◌>>◌ {v} : {B : Type v} → Result (Unit {0}) → Result B → Result B
first >> second = first >>= λ done. second

-- `if !test { return err }`
abbrev pub guard : Bool → Error → Result (Unit {0})
guard false failure = err failure
guard true failure = ok tt

-- A map over a result, which is what a bind into `ok` is, keeps its outcome.
module _ {u v} {A : Type u} {B : Type v} (g : A → B) where
  pub map-eq-err : (m : Result A) {e : Error} → (m >>= λ a. ok (g a)) ≡ err e → m ≡ err e
  map-eq-err panic h = cc
  map-eq-err (err failure) h = cc
  map-eq-err (ok a) h = cc

  pub map-eq-ok :
      (m : Result A) {b : B} → (m >>= λ a. ok (g a)) ≡ ok b → (a : A) × (m ≡ ok a) × (b ≡ g a)
  map-eq-ok panic h = cc
  map-eq-ok (err failure) h = cc
  map-eq-ok (ok a) h = (a, refl, cc)
