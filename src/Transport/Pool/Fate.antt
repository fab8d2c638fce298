-- ===== src/Transport/Pool/Fate.antt =====
-- internal/transport/dispatcher.go: the fates of the dispatched events, as workerLoop counts them.
use mathlib.Core.Option
use edge_telemetry_daemon.Shared.{
  ◌⊎◌, inl, refl, ℕ, ◌+◌, ◌%◌, ◌≡◌, ap, ◌∙◌, Bool, true, false, Option, some, List, [], ◌∷◌, ◌++◌,
  arith, length, length-append, u64_mod, inc64,
}
use edge_telemetry_daemon.Outbox.{Event}
use edge_telemetry_daemon.Transport.{
  DispatcherConfig, Counters, Job, dispatch_with_retry, settle, work,
}
use edge_telemetry_daemon.Transport
use edge_telemetry_daemon.Transport.Pool.{Tally, note_outcome}

-- The sum of the events' weights. With every weight it tells the events, but for their order.
unfoldable pub total : (Event → ℕ) → List Event → ℕ
total w [] = 0
total w (e ∷ es) = w e + total w es

pub total-append :
    (w : Event → ℕ) (xs ys : List Event) → total w (xs ++ ys) ≡ total w xs + total w ys
unfolding total
total-append w [] ys = omega arith
total-append w (x ∷ xs) ys = omega (arith, total-append w xs ys)

-- The events whose fate is known.
abbrev pub settled : (Event → ℕ) → Tally → ℕ
settled w t = total w t.sent + total w t.lost + total w t.cut

-- The counters show the tally, and nothing is cut short before the shutdown.
pub record Shows (done : Bool) (m : Counters) (t : Tally) : Type 0 where
  pub sent : m.dispatched ≡ some (length t.sent % u64_mod)
  pub lost : m.failures ≡ some (length t.lost % u64_mod)
  pub uncut : (done ≡ true) ⊎ (t.cut ≡ [])

pub note_outcome-settled :
    (done : Bool) (out : Transport.Outcome) (e : Event) (t : Tally) (w : Event → ℕ)
    → settled w (note_outcome done out e t) ≡ settled w t + w e
unfolding note_outcome total
note_outcome-settled done Transport.Outcome.delivered e t w =
    omega (arith, total-append w t.sent (e ∷ []))
note_outcome-settled true Transport.Outcome.cancelled e t w =
    omega (arith, total-append w t.cut (e ∷ []))
note_outcome-settled false Transport.Outcome.cancelled e t w =
    omega (arith, total-append w t.lost (e ∷ []))
note_outcome-settled true (Transport.Outcome.exhausted x) e t w =
    omega (arith, total-append w t.cut (e ∷ []))
note_outcome-settled false (Transport.Outcome.exhausted x) e t w =
    omega (arith, total-append w t.lost (e ∷ []))

counted :
    (n : Option ℕ) (es : List Event) (e : Event)
    → n ≡ some (length es % u64_mod)
    → Option.map inc64 n ≡ some (length (es ++ (e ∷ [])) % u64_mod)
counted n es e h = ap (Option.map inc64) h ∙ ap some (omega (arith, length-append es (e ∷ [])))

pub settle-Shows :
    (done : Bool) (out : Transport.Outcome) (e : Event) (m : Counters) (t : Tally)
    → Shows done m t
    → Shows done (settle done out m) (note_outcome done out e t)
unfolding settle note_outcome
settle-Shows done Transport.Outcome.delivered e m t h = record {
  sent = counted m.dispatched t.sent e h.sent;
  lost = h.lost;
  uncut = h.uncut;
}
settle-Shows true Transport.Outcome.cancelled e m t h = record {
  sent = h.sent;
  lost = h.lost;
  uncut = inl refl;
}
settle-Shows false Transport.Outcome.cancelled e m t h = record {
  sent = h.sent;
  lost = counted m.failures t.lost e h.lost;
  uncut = h.uncut;
}
settle-Shows true (Transport.Outcome.exhausted x) e m t h = record {
  sent = h.sent;
  lost = h.lost;
  uncut = inl refl;
}
settle-Shows false (Transport.Outcome.exhausted x) e m t h = record {
  sent = h.sent;
  lost = counted m.failures t.lost e h.lost;
  uncut = h.uncut;
}
