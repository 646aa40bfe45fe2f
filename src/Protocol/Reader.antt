-- ===== src/Protocol/Reader.antt =====
-- Reading from a bytes.Reader: readVarInt and io.ReadFull of internal/protocol/frame.go.
use kwik.Prelude.{
  ℕ, ◌*◌, ◌≡◌, subst, List, [], ◌∷◌, ◌++◌, arith, leb, le→leb, ◌==◌, if◌then◌else◌, length,
  length-append, take, drop, take-length, drop-length, IsU64,
}
use kwik.Protocol.Errors.{eof, unexpected_eof, Result, ok, err, panic}
use kwik.Protocol.Bytes.{be_bytes, be_value, length-be_bytes, be_value-be_bytes}

-- A parser takes the bytes that the bytes.Reader has left, and returns what is left after it.
abbrev pub Reader : Type 0 → Type 0
Reader A = List ℕ → Result (A × List ℕ)

-- The rest of a parser goes on from where its first step ended, if that succeeded.
abbrev pub continue : {A B : Type 0} → Result (A × List ℕ) → (A → Reader B) → Result (B × List ℕ)
continue (ok (a, rest)) f = f a rest
continue (err e) f = err e
continue panic f = panic

infixl 5 ◌>>=◌ ◌>>◌
abbrev pub ◌>>=◌ : {A B : Type 0} → Reader A → (A → Reader B) → Reader B
◌>>=◌ m f src = continue (m src) f

abbrev pub ◌>>◌ : {B : Type 0} → Reader (Unit {0}) → Reader B → Reader B
m >> k = m >>= λ _. k

abbrev pub pure : {A : Type 0} → A → Reader A
pure a src = ok (a, src)

-- r.ReadByte()
unfoldable pub read_byte : Reader ℕ
read_byte [] = err eof
read_byte (b ∷ src) = ok (b, src)

-- io.ReadFull into a buffer of `n` bytes: it reads nothing at n = 0, and tells an empty input from
-- a short one.
unfoldable pub read_full : ℕ → Reader (List ℕ)
read_full n src =
    if leb n (length src)
    then ok (take n src, drop n src)
    else if length src == 0
    then err eof
    else err unexpected_eof

-- writeVarInt: eight bytes, whatever the value.
unfoldable pub write_var_int : ℕ → List ℕ
write_var_int v = be_bytes 8 v

unfoldable pub read_var_int : Reader ℕ
unfolding read_full
read_var_int = do buf ← read_full 8; pure (be_value buf)

-- make([]T, n) for elements of `size` bytes panics beyond the runtime's limit.
unfoldable pub make_slice : ℕ → ℕ → ℕ → Reader (Unit {0})
make_slice max_alloc size n src = if leb (size * n) max_alloc then ok (tt, src) else panic

-- A successful first step of a bind.
pub >>=-ok :
    {A B : Type 0} (m : Reader A) (f : A → Reader B) (src rest : List ℕ) (a : A)
    → m src ≡ ok (a, rest)
    → (m >>= f) src ≡ f a rest
>>=-ok m f src rest a e = rw e

pub read_full-append : (xs rest : List ℕ) → read_full (length xs) (xs ++ rest) ≡ ok (xs, rest)
unfolding read_full
read_full-append xs rest = rw (
  le→leb (length xs) (length (xs ++ rest)) (omega (arith, length-append xs rest)),
  take-length xs rest,
  drop-length xs rest,
)

pub length-write_var_int : (v : ℕ) → length (write_var_int v) ≡ 8
unfolding write_var_int
length-write_var_int v = length-be_bytes 8 v

pub read_var_int-write_var_int :
    (v : ℕ) (rest : List ℕ) → IsU64 v → read_var_int (write_var_int v ++ rest) ≡ ok (v, rest)
unfolding read_var_int write_var_int
read_var_int-write_var_int v rest h =
    let e : read_full 8 (be_bytes 8 v ++ rest) ≡ ok (be_bytes 8 v, rest) =
      subst (λ n. read_full n (be_bytes 8 v ++ rest) ≡ ok (be_bytes 8 v, rest))
        (length-be_bytes 8 v) (read_full-append (be_bytes 8 v) rest) in
    rw (e, be_value-be_bytes 8 v h)
