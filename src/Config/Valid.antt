-- ===== src/Config/Valid.antt =====
-- What a configuration that Load returns is sure to hold.

use edge_telemetry_daemon.Shared.{
  ◌≡◌, ◌↔◌, inl, refl, sym, ap, ◌∙◌, true, false, Option, none, some, [], arith, ◌*◌,
}
use edge_telemetry_daemon.Shared.Int.{pos, ◌<ℤ◌}
use edge_telemetry_daemon.Shared.Float.{Float, nought, IsOrdered}
use edge_telemetry_daemon.Shared.Text.{Bytes, codes, is_empty, equal}
use edge_telemetry_daemon.Shared.Time.{second, millisecond}
use edge_telemetry_daemon.Config.{
  Config, ConfigError, Host, is_one_of, report_modes, log_levels, accept, validate, getenv, parsed,
  read, load, getenv_duration, getenv_float,
}

module _ {ℓ} {F : Type ℓ} ⦃f : Float F⦄ where
  -- What the fields are when `validate` has nothing to say.
  pub record Valid (c : Config F) : Type 0 where
    pub address : is_empty c.listen_addr ≡ false
    pub interval : pos 0 <ℤ c.scrape_interval
    pub report_mode : is_one_of c.cpu_report_mode report_modes ≡ true
    pub log_level : is_one_of c.log_level log_levels ≡ true
    pub tau : c.rate_tau_min <ℤ c.rate_tau_max
    pub theta : f.le c.rate_theta nought ≡ false

  validate-Valid : (c : Config F) → validate c ≡ none → Valid c
  unfolding validate
  validate-Valid c e = record {
    address = ground arith;
    interval = ground arith;
    report_mode = ground arith;
    log_level = ground arith;
    tau = ground arith;
    theta = ground arith;
  }

  Valid-validate : (c : Config F) → Valid c → validate c ≡ none
  unfolding validate
  Valid-validate c v =
      ground (arith, v.address, v.interval, v.report_mode, v.log_level, v.tau, v.theta)

  accept-inl :
      (c c' : Config F) (o : Option ConfigError) → accept c o ≡ inl c' → (c' ≡ c) × (o ≡ none)
  unfolding accept
  accept-inl c c' none e = (cc, refl)
  accept-inl c c' (some err) e = cc

  accept-none : (c : Config F) (o : Option ConfigError) → o ≡ none → accept c o ≡ inl c
  unfolding accept
  accept-none c o e = rw e refl

  -- Load returns a configuration exactly when what it read from the environment and the defaults is
  -- valid, and it returns that.
  pub load-Valid : (h : Host F) (c : Config F) → (load h ≡ inl c) ↔ ((c ≡ read h) × Valid (read h))
  unfolding load
  load-Valid h c = (
    λ e.
        let (same, ok) = accept-inl (read h) c (validate (read h)) e in
        (same, validate-Valid (read h) ok),
    λ (same, v).
        accept-none (read h) (validate (read h)) (Valid-validate (read h) v) ∙ ap inl (sym same),
  )

  module _ (h : Host F) (unset : (key : Bytes) → h.get key ≡ []) where
    getenv-unset : (key default : Bytes) → getenv h key default ≡ default
    unfolding getenv
    getenv-unset key default = rw (unset key) refl

    parsed-unset {κ} :
        {A : Type κ} (parse : Bytes → Option A) (key : Bytes) (default : A)
        → parsed h parse key default ≡ default
    unfolding parsed
    parsed-unset parse key default = rw (unset key) refl

    read-Valid :
        (laws : IsOrdered f) → h.trim_space (codes ":8080") ≡ codes ":8080" → Valid (read h)
    unfolding read getenv_duration getenv_float is_one_of report_modes log_levels equal
    read-Valid laws trimmed = record {
      address = ap (λ x. is_empty (h.trim_space x)) (getenv-unset _ _) ∙ ap is_empty trimmed;
      interval =
          rw (parsed-unset h.parse_duration (codes "ETD_SCRAPE_INTERVAL") (pos (5 * second)))
            (omega arith);
      report_mode = ap (λ x. is_one_of x report_modes) (getenv-unset _ _);
      log_level = ap (λ x. is_one_of x log_levels) (getenv-unset _ _);
      tau = rw (parsed-unset h.parse_duration (codes "ETD_RATE_TAU_MIN") (pos (50 * millisecond))) (
          rw (parsed-unset h.parse_duration (codes "ETD_RATE_TAU_MAX") (pos (5 * second)))
            (omega arith));
      theta = ap (λ x. f.le x nought) (parsed-unset h.parse_float _ _) ∙ laws.literal_pos 6 1;
    }

  -- With nothing set in the environment, Load returns the defaults, where trimming leaves the default
  -- address as it is and floats are ordered as IEEE 754 orders them.
  pub load-defaults :
      (laws : IsOrdered f) (h : Host F)
      → ((key : Bytes) → h.get key ≡ [])
      → h.trim_space (codes ":8080") ≡ codes ":8080"
      → load h ≡ inl (read h)
  load-defaults laws h unset trimmed =
      (load-Valid h (read h)).1 (refl, read-Valid h unset laws trimmed)
