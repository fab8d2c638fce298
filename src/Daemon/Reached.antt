-- ===== src/Daemon/Reached.antt =====
-- cmd/agent/main.go: what holds of the daemon in every state that it reaches, up to the return of main.
use mathlib.Core.Path.{subst}
use edge_telemetry_daemon.Shared.{
  arith, length, length-append, ◌⊎◌, inl, inr, Bool-cases, ◌≡◌, refl, ap, ◌∙◌, Bool, true, false,
  List, ◌∷◌, ◌++◌,
}
use edge_telemetry_daemon.Shared.Time.{Time}
use edge_telemetry_daemon.Shared.Float.{Float}
use edge_telemetry_daemon.Outbox
use edge_telemetry_daemon.Outbox.{Outbox, Event, drop_oldest, new_outbox}
use edge_telemetry_daemon.Outbox.Inv.{close-IsValid}
use edge_telemetry_daemon.Outbox.Open.{close-closed}
use edge_telemetry_daemon.Outbox.Workers.{close-IsCovered, close-Agrees}
use edge_telemetry_daemon.Cgroup.Discover.{Files}
use edge_telemetry_daemon.Config.{Config}
use edge_telemetry_daemon.Config.Valid.{Valid}
use edge_telemetry_daemon.Transport.Pool.{Worker, AllFinished, Resources, Move}
use edge_telemetry_daemon.Transport.Pool.Working.{AllWorking, AllWorking-change, Move-IsWorking}
use edge_telemetry_daemon.Transport.Pool.Account.{
  tokens, Accounted, Move-Accounted, Move-IsLike, Move-accepted, AllFinished-Move,
}
use edge_telemetry_daemon.Agent.Usage.{inject_anomaly}
use edge_telemetry_daemon.Agent.{Host, subscribe, unsubscribe}
use edge_telemetry_daemon.Daemon.Healthy.{
  with_outbox, with_subs, remove-Within, receive-Within, subscribe-Within,
}
use edge_telemetry_daemon.Daemon.{
  dispatcher_config, with_resources, Daemon, draining, returned, is_running, launch, resources,
  Step, ticks, pushes, broadcasts, resets, subscribes, receives, leaves, injects, works, cancels,
  stops, finishes, panics, returns, Reach, here, next,
}
use edge_telemetry_daemon.Daemon.Sound.{
  Sound, is_returned, launch-Sound, with_agent, in_loop, in_loop-open, begin-Sound, push-Sound,
  broadcast-Sound, reset-Sound,
}

pub either_right {ℓ} : {b : Bool} {A : Type ℓ} → b ≡ false → (b ≡ true) ⊎ A → A
either_right miss (inl hit) = absurd cc
either_right miss (inr a) = a

module _ {ℓ} {F : Type ℓ} ⦃f : Float F⦄ (h : Host F) where
  -- A worker that steps before a signal does not return.
  work-alive :
      (d : Daemon F) (ps qs : List Worker) (p q : Worker) (s : Resources)
      → d.workers ≡ ps ++ (p ∷ qs)
      → Move F (dispatcher_config d.agent.cfg) d.cancelled (resources d) p s q
      → Sound h d
      → (d.cancelled ≡ true) ⊎ AllWorking (ps ++ (q ∷ qs))
  unfolding is_returned
  work-alive d ps qs p q s same mv ok = elim (Bool-cases d.cancelled) [
    | inl done ↦ inl done
    | inr live ↦
        let loops : in_loop d.phase ≡ true = either_right live ok.signalled in
        let all : AllWorking d.workers = either_right live ok.alive in
        let opened : d.agent.ob.closed ≡ false = ok.closed ∙ in_loop-open d.phase loops in
        inr (
          AllWorking-change ps p q qs
            (Move-IsWorking
              (subst (λ b. Move F (dispatcher_config d.agent.cfg) b (resources d) p s q) live mv)
              opened ok.accounted.valid.closed_together)
            (subst (λ ws. AllWorking ws) same all))
  ]

  work-Sound :
      (d : Daemon F) (ps qs : List Worker) (p q : Worker) (s : Resources)
      → d.workers ≡ ps ++ (p ∷ qs)
      → Move F (dispatcher_config d.agent.cfg) d.cancelled (resources d) p s q
      → Sound h d
      → Sound h (with_resources s (ps ++ (q ∷ qs)) d)
  work-Sound d ps qs p q s same mv ok =
      let acc : Accounted d.cancelled s (ps ++ (q ∷ qs)) =
        Move-Accounted ps qs mv
          (subst (λ ws. Accounted d.cancelled (resources d) ws) same ok.accounted) in
      let like = Move-IsLike mv in
      record {
        healthy = with_outbox h d.agent s.ob ok.healthy acc.valid;
        accounted = acc;
        every = Move-accepted mv ∙ ok.every;
        drops = like.1 ∙ ok.drops;
        closed = like.0 ∙ ok.closed;
        stopped = ok.stopped;
        idle = elim ok.idle [
          | inl runs ↦ inl runs
          | inr all ↦ absurd (AllFinished-Move ps qs mv (subst (λ ws. AllFinished ws) same all))
        ];
        signalled = ok.signalled;
        alive = work-alive d ps qs p q s same mv ok;
        crew = elim ok.crew [
          | inl rests ↦ inl rests
          | inr three ↦ inr (
              omega (
                arith,
                three,
                ap (λ (ws : List Worker). length ws) same,
                length-append ps (p ∷ qs),
                length-append ps (q ∷ qs),
              ))
        ];
        period = ok.period;
      }

  close-Sound :
      (d : Daemon F)
      → d.phase ≡ draining
      → is_running d.dispatching ≡ false
      → Sound h d
      → Sound h
          (record d { agent = record (d.agent) { ob = Outbox.close d.agent.ob }; phase = returned })
  unfolding is_returned in_loop
  close-Sound d drained rests ok =
      let a = ok.accounted in
      let shut = close-closed d.agent.ob in
      record {
        healthy = with_outbox h d.agent _ ok.healthy (close-IsValid a.valid);
        accounted = record {
          valid = close-IsValid a.valid;
          agrees = close-Agrees a.agrees;
          covered = close-IsCovered d.agent.ob (tokens d.workers) a.covered;
          balance = a.balance;
          shows = a.shows;
        };
        every = ok.every;
        drops = shut.1 ∙ ok.drops;
        closed = shut.0;
        stopped = inr rests;
        idle = ok.idle;
        signalled = elim ok.signalled [
          | inl done ↦ inl done
          | inr loops ↦ absurd (cc (loops, ap in_loop drained))
        ];
        alive = ok.alive;
        crew = ok.crew;
        period = ok.period;
      }

  Step-Sound : {d e : Daemon F} → Step h d e → Sound h d → Sound h e
  unfolding subscribe unsubscribe inject_anomaly is_returned is_running
  Step-Sound {d} (ticks s now e) ok = begin-Sound h d s now ok e
  Step-Sound {d} (pushes e es p) ok = push-Sound h d e es ok p
  Step-Sound {d} (broadcasts e es p) ok = broadcast-Sound h d e es ok p
  Step-Sound {d} (resets p) ok = reset-Sound h d ok p
  Step-Sound {d} subscribes ok =
      with_agent h d _ ok
        (with_subs h d.agent _ _ ok.healthy
          (subscribe-Within d.agent.next_channel d.agent.subs ok.healthy.channels))
        refl refl
  Step-Sound {d} (receives i) ok =
      with_agent h d _ ok
        (with_subs h d.agent _ _ ok.healthy (receive-Within i d.agent.subs ok.healthy.channels))
        refl refl
  Step-Sound {d} (leaves i) ok =
      with_agent h d _ ok
        (with_subs h d.agent _ _ ok.healthy (remove-Within i d.agent.subs ok.healthy.channels)) refl
        refl
  Step-Sound {d} (injects e) ok =
      let a = ok.healthy in
      with_agent h d _ ok
        (record { outbox = a.outbox; channels = a.channels; interval = a.interval }) refl refl
  Step-Sound {d} (works ps qs {p} {q} {s} e mv) ok = work-Sound d ps qs p q s e mv ok
  Step-Sound {d} cancels ok =
      let a = ok.accounted in
      record {
        healthy = ok.healthy;
        accounted = record {
          valid = a.valid;
          agrees = a.agrees;
          covered = a.covered;
          balance = a.balance;
          shows = record { sent = a.shows.sent; lost = a.shows.lost; uncut = inl refl };
        };
        every = ok.every;
        drops = ok.drops;
        closed = ok.closed;
        stopped = ok.stopped;
        idle = ok.idle;
        signalled = inl refl;
        alive = inl refl;
        crew = ok.crew;
        period = ok.period;
      }
  Step-Sound {d} (stops e looped) ok = record {
    healthy = ok.healthy;
    accounted = ok.accounted;
    every = ok.every;
    drops = ok.drops;
    closed = ok.closed ∙ ap is_returned looped;
    stopped = inl refl;
    idle = ok.idle;
    signalled = inl e;
    alive = ok.alive;
    crew = ok.crew;
    period = ok.period;
  }
  Step-Sound {d} (finishes e all) ok = record {
    healthy = ok.healthy;
    accounted = ok.accounted;
    every = ok.every;
    drops = ok.drops;
    closed = ok.closed;
    stopped = inr refl;
    idle = inr all;
    signalled = ok.signalled;
    alive = ok.alive;
    crew = inl refl;
    period = ok.period;
  }
  Step-Sound {d} (panics e) ok = record {
    healthy = ok.healthy;
    accounted = ok.accounted;
    every = ok.every;
    drops = ok.drops;
    closed = ok.closed;
    stopped = inr refl;
    idle = elim ok.idle [ inl runs ↦ absurd cc | inr all ↦ inr all ];
    signalled = ok.signalled;
    alive = ok.alive;
    crew = inl refl;
    period = ok.period;
  }
  Step-Sound {d} (returns e rests) ok = close-Sound d e rests ok

  Reach-Sound_from : {d e : Daemon F} → Reach h d e → Sound h d → Sound h e
  Reach-Sound_from here ok = ok
  Reach-Sound_from (next r st) ok = Step-Sound st (Reach-Sound_from r ok)

  pub Reach-Sound :
      (fs : Files) (cfg : Config F) (now : Time) (ok : Bool) {d : Daemon F}
      → Valid cfg
      → Reach h (launch h fs cfg now ok) d
      → Sound h d
  Reach-Sound fs cfg now ok v r = Reach-Sound_from r (launch-Sound h fs cfg now ok v)
