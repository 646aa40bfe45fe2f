-- ===== src/Transport/PathImpl/Failing.antt =====
-- The invariant of a path behind the errors of its transport stream.
use kwik.Prelude.{
  ℕ, suc, ◌≤◌, ◌<◌, List, [], ◌∷◌, Bool, true, false, Option, none, some, ◌≡◌, refl, arith, ap, ◌∙◌,
  if◌then◌else◌, length, ltb, Bool-cases, inl, inr, leb,
}
use kwik.Transport.PathImpl.{
  PathImpl, failed, call, starts_reader, state_of, reports_failure, closes_transport_stream, writes,
  max_recovery_attempts, Ending, returns, blocks, is_ready,
}
use kwik.Transport.PathImpl.Recovery.{
  counted, close_old, close_path_due_to_fatal_error, reopen, try_recover_transport_stream,
  handle_write_error, handle_read_error, write_stream, write_locked, write_to, unlock, map_ending,
  write_error_text, is_eof,
}
use kwik.Transport.PathImpl.ErrorText.{is_fatal_connection_error}
use kwik.Transport.Wire.{wire}
use kwik.Transport.PathImpl.Settled.{
  readers, conn_closes, readers-append, conn_closes-append, IsSettled, core, settle, core-call,
}

closes_le : (p : PathImpl) → IsSettled p → conn_closes p.calls ≤ 1
closes_le p i = elim (Bool-cases p.is_closed) [
  | inl e ↦ rw e at i.closed_once
  | inr e ↦ let none_yet : conn_closes p.calls ≤ 0 = rw e at i.closed_once in omega arith
]

pub core-close_old : (old : Option ℕ) (p : PathImpl) → core (close_old old p) ≡ core p
core-close_old none p = refl
core-close_old (some s) p = core-call (closes_transport_stream s) p (refl, refl)

pub close_path_due_to_fatal_error-IsSettled :
    (p : PathImpl) → IsSettled p → IsSettled (close_path_due_to_fatal_error p)
unfolding close_path_due_to_fatal_error
close_path_due_to_fatal_error-IsSettled p i =
    let marked : PathImpl = record p { is_closed = true; state = failed } in
    settle marked (close_path_due_to_fatal_error p)
      (core-call reports_failure (close_old p.transport_stream marked) (refl, refl)
        ∙ core-close_old p.transport_stream marked)
      (record {
        few_attempts = i.few_attempts;
        few_readers = i.few_readers;
        closed_once = closes_le p i;
        not_in_use = λ h. inl refl;
        in_use = λ h. cc;
      })

counted-IsSettled :
    (p : PathImpl) → IsSettled p → p.stream_recovery_attempts < 2 → IsSettled (counted p)
counted-IsSettled p i h = record {
  few_attempts = h;
  few_readers = omega (arith, i.few_readers);
  closed_once = i.closed_once;
  not_in_use = i.not_in_use;
  in_use = i.in_use;
}

reopen-IsSettled :
    (opened : Option ℕ) (p : PathImpl)
    → IsSettled p
    → p.stream_recovery_attempts < 2
    → IsSettled (reopen opened (counted p)).1
unfolding reopen readers conn_closes
reopen-IsSettled none p i h =
    settle (counted p) _ (core-close_old p.transport_stream (counted p)) (counted-IsSettled p i h)
reopen-IsSettled (some s) p i h =
    let old : PathImpl = close_old p.transport_stream (counted p) in
    let c : core old ≡ core (counted p) = core-close_old p.transport_stream (counted p) in
    let j : IsSettled old = settle (counted p) old c (counted-IsSettled p i h) in
    let r : readers old.calls ≡ readers p.calls = ap (λ x. x.reader_calls) c in
    let a : old.stream_recovery_attempts ≡ suc p.stream_recovery_attempts =
      ap (λ x. x.attempts) c in
    record {
      few_attempts = j.few_attempts;
      few_readers =
          omega (arith, readers-append old.calls (starts_reader s ∷ []), r, a, i.few_readers);
      closed_once =
          rw (conn_closes-append old.calls (starts_reader s ∷ [])) (omega (arith, j.closed_once));
      not_in_use = j.not_in_use;
      in_use = j.in_use;
    }

-- The locks do not count.
locks-IsSettled :
    (a b : Bool) (p : PathImpl)
    → IsSettled p
    → IsSettled (record p { transport_stream_locked = a; recovery_locked = b })
locks-IsSettled a b p i = record {
  few_attempts = i.few_attempts;
  few_readers = i.few_readers;
  closed_once = i.closed_once;
  not_in_use = i.not_in_use;
  in_use = i.in_use;
}

pub IsSettled-if :
    (b : Bool) (x y : PathImpl) → IsSettled x → IsSettled y → IsSettled (if b then x else y)
IsSettled-if true x y hx hy = hx
IsSettled-if false x y hx hy = hy

pub IsSettled-if_ending :
    {A : Type 0} (b : Bool) (x y : Ending A)
    → (b ≡ true → IsSettled (state_of x))
    → (b ≡ false → IsSettled (state_of y))
    → IsSettled (state_of (if b then x else y))
IsSettled-if_ending true x y hx hy = hx refl
IsSettled-if_ending false x y hx hy = hy refl

try_recover_transport_stream-IsSettled :
    (opened : Option ℕ) (p : PathImpl)
    → IsSettled p
    → IsSettled (state_of (try_recover_transport_stream opened p))
unfolding try_recover_transport_stream
try_recover_transport_stream-IsSettled opened p i =
    IsSettled-if_ending p.fatal_error _ _ (λ h. i)
      λ h.
        IsSettled-if_ending p.recovery_locked _ _ (λ h. i)
          λ h.
            IsSettled-if_ending (leb max_recovery_attempts p.stream_recovery_attempts) _ _
              (λ h. settle p (record p { fatal_error = true }) refl i)
              λ few.
                let below : p.stream_recovery_attempts < 2 = ground (arith, few) in
                IsSettled-if_ending p.transport_stream_locked _ _
                  (λ h.
                    locks-IsSettled p.transport_stream_locked true (counted p)
                      (counted-IsSettled p i below))
                  λ h. reopen-IsSettled opened p i below

IsSettled-map_ending :
    {A B : Type 0} (f : A → B) (e : Ending A)
    → IsSettled (state_of e)
    → IsSettled (state_of (map_ending f e))
IsSettled-map_ending f (returns a p) i = i
IsSettled-map_ending f (blocks p) i = i

IsSettled-unlock : (e : Ending (List ℕ)) → IsSettled (state_of e) → IsSettled (state_of (unlock e))
IsSettled-unlock (returns text p) i = locks-IsSettled false p.recovery_locked p i
IsSettled-unlock (blocks p) i = i

fatal-IsSettled :
    (p : PathImpl)
    → IsSettled p
    → IsSettled (close_path_due_to_fatal_error (record p { fatal_error = true }))
fatal-IsSettled p i =
    let q : PathImpl = record p { fatal_error = true } in
    close_path_due_to_fatal_error-IsSettled q (settle p q refl i)

handle_write_error-IsSettled :
    (opened : Option ℕ) (text : List ℕ) (p : PathImpl)
    → IsSettled p
    → IsSettled (state_of (handle_write_error opened text p))
unfolding handle_write_error
handle_write_error-IsSettled opened text p i =
    IsSettled-if_ending (is_fatal_connection_error text) _ _ (λ h. fatal-IsSettled p i)
      λ h.
        IsSettled-map_ending (write_error_text text) (try_recover_transport_stream opened p)
          (try_recover_transport_stream-IsSettled opened p i)

write_to-IsSettled :
    (answer : Option (List ℕ)) (opened : Option ℕ) (b : List ℕ) (stream : Option ℕ) (p : PathImpl)
    → IsSettled p
    → IsSettled (state_of (write_to answer opened b stream p))
unfolding write_locked
write_to-IsSettled answer opened b none p i = i
write_to-IsSettled none opened b (some s) p i =
    settle p _ (core-call (writes s (wire b)) p (refl, refl)) i
write_to-IsSettled (some text) opened b (some s) p i =
    let locked : PathImpl = record p { transport_stream_locked = true } in
    let q : PathImpl = call (writes s (wire b)) locked in
    IsSettled-unlock (handle_write_error opened text q) (
      handle_write_error-IsSettled opened text q (
        settle locked q (core-call (writes s (wire b)) locked (refl, refl))
          (locks-IsSettled true p.recovery_locked p i)))

pub write_stream-IsSettled :
    (answer : Option (List ℕ)) (opened : Option ℕ) (b : List ℕ) (p : PathImpl)
    → IsSettled p
    → IsSettled (state_of (write_stream answer opened b p))
unfolding write_stream
write_stream-IsSettled answer opened b p i =
    IsSettled-if_ending (ltb (length b) 4) _ _ (λ h. i)
      λ h.
        IsSettled-if_ending (is_ready p.state) _ _
          (λ h.
            IsSettled-if_ending p.transport_stream_locked _ _ (λ h. i)
              λ h. write_to-IsSettled answer opened b p.transport_stream p i)
          λ h. i

pub handle_read_error-IsSettled :
    (opened : Option ℕ) (text : List ℕ) (p : PathImpl)
    → IsSettled p
    → IsSettled (state_of (handle_read_error opened text p))
unfolding handle_read_error
handle_read_error-IsSettled opened text p i =
    IsSettled-if_ending (is_eof text) _ _ (λ h. i)
      λ h.
        IsSettled-if_ending (is_fatal_connection_error text) _ _ (λ h. fatal-IsSettled p i)
          λ h. try_recover_transport_stream-IsSettled opened p i
