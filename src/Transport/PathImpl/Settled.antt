-- ===== src/Transport/PathImpl/Settled.antt =====
-- What holds of a path at any time, and the part of its state that this is about.
use kwik.Prelude.{
  ℕ, suc, ◌+◌, ◌≤◌, List, [], ◌∷◌, ◌++◌, Bool, true, false, ◌≡◌, refl, arith, ap, if◌then◌else◌,
  ◌⊎◌,
}
use kwik.Transport.PathImpl.{
  PathImpl, PathState, ready, failed, closed, Call, call, starts_reader, closes_conn,
}

-- How often a call of one kind is in the log.
abbrev is_reader : Call → ℕ
is_reader (starts_reader s) = 1
is_reader _ = 0

abbrev is_conn_close : Call → ℕ
is_conn_close closes_conn = 1
is_conn_close _ = 0

unfoldable pub readers : List Call → ℕ
readers [] = 0
readers (c ∷ cs) = is_reader c + readers cs

unfoldable pub conn_closes : List Call → ℕ
conn_closes [] = 0
conn_closes (c ∷ cs) = is_conn_close c + conn_closes cs

pub readers-append : (xs ys : List Call) → readers (xs ++ ys) ≡ readers xs + readers ys
unfolding readers
readers-append [] ys = omega arith
readers-append (x ∷ xs) ys = omega (arith, readers-append xs ys)

pub conn_closes-append :
    (xs ys : List Call) → conn_closes (xs ++ ys) ≡ conn_closes xs + conn_closes ys
unfolding conn_closes
conn_closes-append [] ys = omega arith
conn_closes-append (x ∷ xs) ys = omega (arith, conn_closes-append xs ys)

-- A path that is closed is not in use, there is no state Recovering, the recoveries are bounded,
-- and each reader but the first has come from one of them.
pub record IsSettled (p : PathImpl) : Type 0 where
  pub few_attempts : p.stream_recovery_attempts ≤ 2
  pub few_readers : readers p.calls ≤ suc p.stream_recovery_attempts
  pub closed_once : conn_closes p.calls ≤ (if p.is_closed then 1 else 0)
  pub not_in_use : p.is_closed ≡ true → (p.state ≡ failed) ⊎ (p.state ≡ closed)
  pub in_use : p.is_closed ≡ false → (p.state ≡ ready) ⊎ (p.state ≡ failed)

pub record Core : Type 0 where
  pub attempts : ℕ
  pub reader_calls : ℕ
  pub close_calls : ℕ
  pub flag : Bool
  pub status : PathState
  pub stream_lock : Bool
  pub recovery_lock : Bool

-- What the invariant is about.
abbrev pub core : PathImpl → Core
core p = record {
  attempts = p.stream_recovery_attempts;
  reader_calls = readers p.calls;
  close_calls = conn_closes p.calls;
  flag = p.is_closed;
  status = p.state;
  stream_lock = p.transport_stream_locked;
  recovery_lock = p.recovery_locked;
}

pub settle : (p q : PathImpl) → core q ≡ core p → IsSettled p → IsSettled q
settle p q h i =
    let a : q.stream_recovery_attempts ≡ p.stream_recovery_attempts = ap (λ c. c.attempts) h in
    let r : readers q.calls ≡ readers p.calls = ap (λ c. c.reader_calls) h in
    let n : conn_closes q.calls ≡ conn_closes p.calls = ap (λ c. c.close_calls) h in
    let f : q.is_closed ≡ p.is_closed = ap (λ c. c.flag) h in
    let s : q.state ≡ p.state = ap (λ c. c.status) h in
    record {
      few_attempts = rw a i.few_attempts;
      few_readers = rw (r, a) i.few_readers;
      closed_once = rw (n, f) i.closed_once;
      not_in_use = rw (f, s) i.not_in_use;
      in_use = rw (f, s) i.in_use;
    }

abbrev IsQuiet : Call → Type 0
IsQuiet c = (is_reader c ≡ 0) × (is_conn_close c ≡ 0)

pub core-call : (c : Call) (p : PathImpl) → IsQuiet c → core (call c p) ≡ core p
unfolding readers conn_closes
core-call c p q =
    let r : readers (p.calls ++ (c ∷ [])) ≡ readers p.calls =
      omega (arith, readers-append p.calls (c ∷ []), q.0) in
    let n : conn_closes (p.calls ++ (c ∷ [])) ≡ conn_closes p.calls =
      omega (arith, conn_closes-append p.calls (c ∷ []), q.1) in
    rw (r, n) refl

pub core-if :
    (b : Bool) (x y p : PathImpl)
    → core x ≡ core p
    → core y ≡ core p
    → core (if b then x else y) ≡ core p
core-if true x y p hx hy = hx
core-if false x y p hx hy = hy

pub core-pair :
    {A : Type 0} (b : Bool) (x y : A × PathImpl) (p : PathImpl)
    → core x.1 ≡ core p
    → core y.1 ≡ core p
    → core (if b then x else y).1 ≡ core p
core-pair true x y p hx hy = hx
core-pair false x y p hx hy = hy
