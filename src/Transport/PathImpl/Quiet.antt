-- ===== src/Transport/PathImpl/Quiet.antt =====
-- The operations of a path that neither recover its transport stream nor close it.
use kwik.Prelude.{ℕ, Bool, true, false, Option, none, some, ◌≡◌, refl, ◌∙◌, Option-cases, inl, inr}
use kwik.Prelude.Map.{lookup, delete}
use kwik.Protocol.Errors.{Error}
use kwik.Protocol.Frame.{
  Frame, stream, ack, ping, add_path, add_path_resp, relay_data, open_stream, open_stream_resp,
  OpenStreamRespFrame,
}
use kwik.Transport.PathImpl.{
  PathImpl, call, submits, opens_path, handles_add_path_resp, relays, adds_path_to_stream,
  cancels_frames, cleans_stream_buffer, forget_stream, has_stream, remove_stream,
  increment_write_offset, open_stream_now,
}
use kwik.Transport.PathImpl.Control.{
  begin_open_stream, finish_accept_stream, handle_control_frame, handle_ping, open_stream_select,
  closed_in, handle_open_stream_frame, handle_open_stream_resp, ensure_stream,
}
use kwik.Transport.PathImpl.Lifecycle.{health_tick}
use kwik.Transport.PathImpl.Settled.{core, core-call, core-if, core-pair}

-- The steps that neither recover nor close.
pub core-handle_control_frame :
    (now : ℕ) (f : Frame) (p : PathImpl) → core (handle_control_frame now f p) ≡ core p
unfolding handle_control_frame handle_ping handle_open_stream_frame handle_open_stream_resp
core-handle_control_frame now ping p =
    core-if p.is_client _ _ p refl (core-call (submits ping) p (refl, refl))
core-handle_control_frame now (open_stream_resp resp) p =
    elim (Option-cases (lookup resp.stream_id p.open_stream_resp_ch)) [
      | inl e ↦ rw (e, handle_open_stream_resp) refl
      | inr (channel, e) ↦ rw (e, handle_open_stream_resp) refl
    ]
core-handle_control_frame now (open_stream sid) p =
    core-call (submits (open_stream_resp (record { stream_id = sid; success = true }))) p
      (refl, refl)
core-handle_control_frame now (add_path address) p =
    core-if p.is_client _ _ p (core-call (opens_path address) p (refl, refl)) refl
core-handle_control_frame now (add_path_resp resp) p =
    core-if p.is_client _ _ p refl (core-call (handles_add_path_resp resp) p (refl, refl))
core-handle_control_frame now (relay_data f) p =
    core-if p.is_client _ _ p (core-call (relays f) p (refl, refl)) refl
core-handle_control_frame now (stream f) p = refl
core-handle_control_frame now (ack f) p = refl

pub core-forget_stream : (sid : ℕ) (p : PathImpl) → core (forget_stream sid p) ≡ core p
core-forget_stream sid p =
    core-call (cancels_frames sid) (call (cleans_stream_buffer sid) p) (refl, refl)
    ∙ core-call (cleans_stream_buffer sid) p (refl, refl)

pub core-remove_stream : (sid : ℕ) (p : PathImpl) → core (remove_stream sid p) ≡ core p
unfolding remove_stream
core-remove_stream sid p = core-forget_stream sid (record p { streams = delete sid p.streams })

pub core-open_stream_now : (sid : ℕ) (p : PathImpl) → core (open_stream_now sid p).1 ≡ core p
unfolding open_stream_now
core-open_stream_now sid p =
    core-pair (has_stream sid p) _ _ p refl (core-call (submits (open_stream sid)) p (refl, refl))

pub core-begin_open_stream :
    (refused : Option Error) (sid : ℕ) (p : PathImpl)
    → core (begin_open_stream refused sid p).1 ≡ core p
unfolding begin_open_stream
core-begin_open_stream none sid p =
    core-pair (has_stream sid p) _ _ p refl (core-call (submits (open_stream sid)) p (refl, refl))
core-begin_open_stream (some e) sid p =
    core-pair (has_stream sid p) _ _ p refl (core-call (submits (open_stream sid)) p (refl, refl))

pub core-open_stream_select :
    (expired : Bool) (sid : ℕ) (answer : Option OpenStreamRespFrame) (p : PathImpl)
    → core (open_stream_select expired sid answer p).1 ≡ core p
core-open_stream_select true sid answer p = refl
core-open_stream_select false sid (some resp) p = core-pair resp.success _ _ p refl refl
core-open_stream_select false sid none p = refl

pub core-finish_accept_stream :
    (expired : Bool) (sid : ℕ) (p : PathImpl) → core (finish_accept_stream expired sid p).1 ≡ core p
unfolding finish_accept_stream
core-finish_accept_stream expired sid p =
    core-pair expired _ _ p refl
      (core-pair (closed_in (lookup sid p.accept_stream_waiters)) _ _ p refl refl)

pub core-increment_write_offset :
    (sid n : ℕ) (p : PathImpl) → core (increment_write_offset sid n p) ≡ core p
unfolding increment_write_offset
core-increment_write_offset sid n p = elim (Option-cases (lookup sid p.streams)) [
  | inl e ↦ rw (e, increment_write_offset) refl
  | inr (offset, e) ↦ rw (e, increment_write_offset) refl
]

pub core-ensure_stream : (sid : ℕ) (p : PathImpl) → core (ensure_stream sid p) ≡ core p
unfolding ensure_stream
core-ensure_stream sid p = core-if (has_stream sid p) _ _ p refl (
    core-call (adds_path_to_stream sid) (open_stream_now sid p).1 (refl, refl)
    ∙ core-open_stream_now sid p)

pub core-health_tick : (now : ℕ) (p : PathImpl) → core (health_tick now p) ≡ core p
unfolding health_tick
core-health_tick now p = core-if p.is_closed _ _ p refl (core-if _ _ _ p refl refl)
