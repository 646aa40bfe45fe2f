-- ===== src/Transport/PathImpl/Health.antt =====
-- When the health loop of a path takes it for unhealthy.
use kwik.Prelude.{
  ℕ, suc, ◌+◌, ◌*◌, ◌-◌, ◌≤◌, ◌<◌, List, [], ◌∷◌, true, false, ◌≡◌, ◌≢◌, arith, length, All, ltb,
  leb, ◌==◌, ◌||◌, if◌then◌else◌, if_true, if_false, ap, ◌∙◌, sym, ◌⊎◌, inl, inr, refl,
}
use kwik.Protocol.Frame.{ping}
use kwik.Transport.PathImpl.{PathImpl, health_interval_ms, missed_pong_threshold}
use kwik.Transport.PathImpl.Lifecycle.{health_tick}
use kwik.Transport.PathImpl.Control.{handle_control_frame, handle_ping}

-- Rounds of the health loop at these times.
unfoldable pub tick_all : List ℕ → PathImpl → PathImpl
tick_all [] p = p
tick_all (now ∷ nows) p = tick_all nows (health_tick now p)

-- At the time `now` no ping has come for 30 seconds, or none at all.
abbrev pub IsSilent : PathImpl → ℕ → Type 0
IsSilent p now = (p.last_pong_at ≡ 0) ⊎ (p.last_pong_at + 30000 < now)

silent_round :
    (p : PathImpl) (now : ℕ)
    → IsSilent p now
    → ((p.last_pong_at == 0) || ltb (health_interval_ms * 2) (now - p.last_pong_at)) ≡ true
silent_round p now (inl never) = ground (arith, never)
silent_round p now (inr long) = ground (arith, long)

-- A round that no ping has come for.
abbrev missed : PathImpl → PathImpl
missed p = record p {
  pings_sent = suc p.pings_sent;
  missed_pongs = suc p.missed_pongs;
  healthy = if leb missed_pong_threshold (suc p.missed_pongs) then false else p.healthy;
}

-- A round behind a ping.
abbrev fine : PathImpl → PathImpl
fine p = record p { pings_sent = suc p.pings_sent; missed_pongs = 0; healthy = true }

health_tick-missed :
    (now : ℕ) (p : PathImpl) → p.is_closed ≡ false → IsSilent p now → health_tick now p ≡ missed p
unfolding health_tick
health_tick-missed now p open_path silent =
    if_false p.is_closed _ _ open_path ∙ if_true _ (missed p) _ (silent_round p now silent)

health_tick-fine :
    (now : ℕ) (p : PathImpl)
    → p.is_closed ≡ false
    → p.last_pong_at ≢ 0
    → now ≤ p.last_pong_at + 30000
    → health_tick now p ≡ fine p
unfolding health_tick
health_tick-fine now p open_path some_ping soon =
    let heard : ((p.last_pong_at == 0) || ltb (health_interval_ms * 2) (now - p.last_pong_at))
        ≡ false =
      ground (arith, some_ping, soon) in
    if_false p.is_closed _ _ open_path ∙ if_false _ (missed p) _ heard

-- Healthy while fewer than three rounds in a row have been missed.
abbrev pub IsCounted : PathImpl → Type 0
IsCounted p = p.healthy ≡ ltb p.missed_pongs 3

missed-IsCounted : (p : PathImpl) → IsCounted p → IsCounted (missed p)
missed-IsCounted p h = ground (arith, h)

tick_all-missed :
    (nows : List ℕ) (p : PathImpl)
    → p.is_closed ≡ false
    → IsCounted p
    → All (IsSilent p) nows
    → let q = tick_all nows p in
      (q.healthy ≡ ltb (p.missed_pongs + length nows) 3) × (q.is_closed ≡ false)
unfolding tick_all
tick_all-missed [] p open_path counted silent = (ground (arith, counted), open_path)
tick_all-missed (now ∷ nows) p open_path counted silent =
    let one = health_tick-missed now p open_path silent.0 in
    let rest = tick_all-missed nows (missed p) open_path (missed-IsCounted p counted) silent.1 in
    (
      ap (λ x. (tick_all nows x).healthy) one ∙ rest.0 ∙ ap (λ n. ltb n 3) (omega arith),
      ap (λ x. (tick_all nows x).is_closed) one ∙ rest.1,
    )

tick_all-fine :
    (nows : List ℕ) (p : PathImpl)
    → p.is_closed ≡ false
    → p.last_pong_at ≢ 0
    → p.healthy ≡ true
    → p.missed_pongs ≡ 0
    → All (λ now. now ≤ p.last_pong_at + 30000) nows
    → ((tick_all nows p).healthy ≡ true) × ((tick_all nows p).missed_pongs ≡ 0)
unfolding tick_all
tick_all-fine [] p open_path some_ping healthy none soon = (healthy, none)
tick_all-fine (now ∷ nows) p open_path some_ping healthy none soon =
    let one = health_tick-fine now p open_path some_ping soon.0 in
    let rest = tick_all-fine nows (fine p) open_path some_ping refl refl soon.1 in
    (
      ap (λ x. (tick_all nows x).healthy) one ∙ rest.0,
      ap (λ x. (tick_all nows x).missed_pongs) one ∙ rest.1,
    )

-- What a ping leaves.
record Heard (at : ℕ) (p q : PathImpl) : Type 0 where
  healthy : q.healthy ≡ true
  none_missed : q.missed_pongs ≡ 0
  time : q.last_pong_at ≡ at
  still_open : q.is_closed ≡ p.is_closed

handle_ping-Heard : (at : ℕ) (p : PathImpl) → Heard at p (handle_control_frame at ping p)
unfolding handle_control_frame handle_ping
handle_ping-Heard at p = record {
  healthy = ground arith;
  none_missed = ground arith;
  time = ground arith;
  still_open = ground arith;
}

-- On a path that is open and healthy as long as fewer than three rounds of the health loop in a row
-- have been missed, further rounds at times when no ping has come for 30 seconds count as missed:
-- the path is healthy behind them just if fewer than three have been missed by then. A ping at
-- a time other than 0 makes it healthy, and it stays so, with no round missed, over all rounds up to
-- 30 seconds behind it.
pub tick_all-unhealthy :
    (nows laters : List ℕ) (p : PathImpl) (at : ℕ)
    → p.is_closed ≡ false
    → IsCounted p
    → All (IsSilent p) nows
    → at ≢ 0
    → All (λ now. now ≤ at + 30000) laters
    → let q = tick_all nows p in
      let r = tick_all laters (handle_control_frame at ping q) in
      (q.healthy ≡ ltb (p.missed_pongs + length nows) 3) × (r.healthy ≡ true) × (r.missed_pongs ≡ 0)
tick_all-unhealthy nows laters p at open_path counted silent some_time soon =
    let q = tick_all nows p in
    let lost = tick_all-missed nows p open_path counted silent in
    let h = handle_ping-Heard at q in
    let pinged = handle_control_frame at ping q in
    let kept =
      tick_all-fine laters pinged (h.still_open ∙ lost.1) (λ e. some_time (sym h.time ∙ e))
        h.healthy h.none_missed (rw (h.time) soon) in
    (lost.0, kept.0, kept.1)
