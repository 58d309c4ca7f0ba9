-- ===== src/Gateway/Rewrite/Identical.antt =====
-- src/gateway/routes.rs: where every feature is off, the body goes upstream as it came.
use toche.Prelude.{
  none, some, Bool, true, false, not, ◌&&◌, ◌||◌, Text, ◌≡◌, arith, refl, Bool-cases, inl, inr, ok,
  ap,
}
use toche.Json.{Json}
use toche.Config.Types.{
  CacheMode, EfficiencyMode, normal, concise, careful, EfficiencyConfig, CachePolicy, observe, auto,
}
use mathlib.Core.Option.{Option}
use toche.Config.Resolver.{ResolvedIntegration}
use toche.Efficiency.Inject.{InjectionResult, instruction_for_mode, inject_efficiency}
use toche.Reduce.Transform.{Env, start, reduce_body_at}
use toche.Gateway.Rewrite.{
  ReductionResult, Result, Bypass, reduce_cfg, efficiency_mode, inject_instruction,
  inject_breakpoints, rewrite,
}

abbrev is_normal : EfficiencyMode → Bool
is_normal normal = true
is_normal concise = false
is_normal careful = false

abbrev only_observes : CachePolicy → Bool
only_observes cfg = not cfg.enabled || elim cfg.mode [ observe ↦ true | auto ↦ false ]

abbrev never_injects : Option CachePolicy → Bool
never_injects none = true
never_injects (some cfg) = only_observes cfg

-- Each feature that changes a body is bypassed or not switched on.
abbrev pub is_off : ResolvedIntegration → Bypass → Bool
is_off resolved bypass =
    (bypass.reduce || not (reduce_cfg resolved.reduce).enabled)
    && ((bypass.efficiency || is_normal (efficiency_mode resolved.efficiency))
        && (bypass.cache || never_injects resolved.cache))

instruction_off :
    (json : Json) (cfg : Option EfficiencyConfig) (bypass : Bool) (body : Text)
    → (bypass || is_normal (efficiency_mode cfg)) ≡ true
    → inject_instruction json cfg bypass body
      ≡ (let r : InjectionResult = record { modified_body = body; tokens_added = 0 } in r)
unfolding inject_instruction inject_efficiency instruction_for_mode
instruction_off json cfg true body off = refl
instruction_off json none false body off = refl
instruction_off json (some cfg) false body off = go cfg.mode refl
  where
    go :
        (m : EfficiencyMode)
        → cfg.mode ≡ m
        → inject_instruction json (some cfg) false body
          ≡ (let r : InjectionResult = record { modified_body = body; tokens_added = 0 } in r)
    go normal is = rw (is, inject_instruction) refl
    go concise is = absurd (ground (arith, is, off))
    go careful is = absurd (ground (arith, is, off))

breakpoints_off :
    (json : Json) (cfg : Option CachePolicy) (bypass : Bool) (body : Text)
    → (bypass || never_injects cfg) ≡ true
    → inject_breakpoints json cfg bypass body ≡ body
unfolding inject_breakpoints
breakpoints_off json none bypass body off = refl
breakpoints_off json (some cfg) bypass body off = go cfg.mode refl
  where
    go : (m : CacheMode) → cfg.mode ≡ m → inject_breakpoints json (some cfg) bypass body ≡ body
    go observe is = elim (Bool-cases (cfg.enabled && not bypass)) [
      | inl on ↦ rw (on, is) refl
      | inr idle ↦ rw idle refl
    ]
    go auto is =
        let idle : (cfg.enabled && not bypass) ≡ false = ground (arith, is, off) in rw idle refl

module _ (env : Env) where
  open env use {json, fs}
  open fs use {Files}

  reduce_off :
      (body : Text) (resolved : ResolvedIntegration) (bypass : Bool) (s : Files)
      → (bypass || not (reduce_cfg resolved.reduce).enabled) ≡ true
      → reduce_body_at env body (reduce_cfg resolved.reduce) bypass s ≡ (ok (start body), s)
  unfolding reduce_body_at
  reduce_off body resolved bypass s off =
      let idle : (not (reduce_cfg resolved.reduce).enabled || bypass) ≡ true =
        ground (arith, off) in
      rw (idle, reduce_body_at) refl

  -- Where each of reduction, efficiency instructions and cache breakpoints is bypassed by a header or
  -- not switched on, the body goes upstream exactly as it came and nothing is stored for it.
  pub rewrite_identical :
      (resolved : ResolvedIntegration) (bypass : Bypass) (body : Text) (s : Files)
      → is_off resolved bypass ≡ true
      → ((rewrite env resolved bypass body s).0.final_body ≡ body)
        × ((rewrite env resolved bypass body s).1 ≡ s)
  unfolding rewrite start
  rewrite_identical resolved bypass body s off =
      let reduced = reduce_off body resolved bypass.reduce s (ground (arith, off)) in
      (
        rw
            (
              reduced,
              instruction_off json resolved.efficiency bypass.efficiency body (ground (arith, off)),
            )
            (breakpoints_off json resolved.cache bypass.cache body (ground (arith, off))),
        ap (λ (x : Result ReductionResult × Files). x.1) reduced,
      )
