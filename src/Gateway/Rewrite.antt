-- ===== src/Gateway/Rewrite.antt =====
-- src/gateway/routes.rs, `messages`: the headers that switch features off, and the body that is sent
-- upstream.
pub mod Identical
use toche.Prelude.{
  ℕ, List, [], ◌∷◌, ◌++◌, Option, none, some, Bool, true, false, not, ◌&&◌, ◌||◌, Text, codes, trim,
  eq_ignore_ascii_case, Result, ok, err, if◌then◌else◌,
}
use toche.Json.{Json}
use toche.Cache.Breakpoint.{BreakpointPlan, find_breakpoints}
use toche.Cache.Inject.{inject_cache_control}
use toche.Config.Types.{
  ReduceConfig, EfficiencyMode, normal, concise, careful, EfficiencyConfig, CachePolicy, observe,
  auto,
}
use toche.Config.Resolver.{ResolvedIntegration}
use toche.Efficiency.Inject.{InjectionResult, instruction_for_mode, inject_efficiency}
use toche.Reduce.Transform.{Env, ReductionResult, start, reduce_body_at}

-- A header's value where it can be read as text. Only ASCII letters are lowercased to those of
-- `true`.
unfoldable pub is_bypassed : Option Text → Bool
is_bypassed none = false
is_bypassed (some v) = eq_ignore_ascii_case (trim v) (codes "true")

pub record Bypass : Type 0 where
  pub shield : Bool
  pub safe_cache : Bool
  pub reduce : Bool
  pub efficiency : Bool
  pub cache : Bool

unfoldable pub bypass_of : (Text → Option Text) → Bypass
unfolding is_bypassed
bypass_of headers =
    let bypass_all = is_bypassed (headers (codes "x-toche-bypass")) in
    record {
      shield = bypass_all || is_bypassed (headers (codes "x-toche-bypass-shield"));
      safe_cache = bypass_all || is_bypassed (headers (codes "x-toche-bypass-safe-cache"));
      reduce = bypass_all || is_bypassed (headers (codes "x-toche-bypass-reduce"));
      efficiency = bypass_all || is_bypassed (headers (codes "x-toche-bypass-efficiency"));
      cache = bypass_all || is_bypassed (headers (codes "x-toche-bypass-cache"));
    }

-- `unwrap_or_else`, where the error is only logged.
abbrev pub unwrap_or {ℓ} : {A : Type ℓ} → A → Result A → A
unwrap_or a (ok b) = b
unwrap_or a (err e) = a

abbrev pub reduce_cfg : Option ReduceConfig → ReduceConfig
reduce_cfg none = record { enabled = true; command_bypass = [] }
reduce_cfg (some c) = c

abbrev pub efficiency_mode : Option EfficiencyConfig → EfficiencyMode
efficiency_mode none = normal
efficiency_mode (some c) = c.mode

unfoldable pub efficiency_mode_name : EfficiencyMode → Text
efficiency_mode_name normal = []
efficiency_mode_name concise = codes "concise"
efficiency_mode_name careful = codes "careful"

-- What the rewriting leaves for the rest of the handler.
pub record Rewritten : Type 0 where
  pub final_body : Text
  pub reduction : ReductionResult
  pub tokens_added : ℕ
  pub mode_name : Text

module _ (json : Json) where
  unfoldable pub inject_instruction : Option EfficiencyConfig → Bool → Text → InjectionResult
  inject_instruction cfg bypass body =
      unwrap_or (record { modified_body = body; tokens_added = 0 })
        (inject_efficiency json body
          (if bypass then none else instruction_for_mode (efficiency_mode cfg)))

  -- The mode `Observe` only logs the breakpoints.
  unfoldable pub inject_breakpoints : Option CachePolicy → Bool → Text → Text
  inject_breakpoints none bypass body = body
  inject_breakpoints (some cfg) bypass body =
      if cfg.enabled && not bypass
      then elim cfg.mode [
        | observe ↦ body
        | auto ↦
            let plan =
              unwrap_or (record { system_block_index = none; message_blocks = [] })
                (find_breakpoints json body cfg.breakpoint) in
            unwrap_or body (inject_cache_control json body plan)
      ]
      else body

module _ (env : Env) where
  open env use {json, fs}
  open fs use {Files}

  unfoldable pub rewrite : ResolvedIntegration → Bypass → Text → Files → Rewritten × Files
  unfolding inject_instruction inject_breakpoints efficiency_mode_name
  rewrite resolved bypass body s =
      let (reduced, s') = reduce_body_at env body (reduce_cfg resolved.reduce) bypass.reduce s in
      let reduction = unwrap_or (start body) reduced in
      let injected =
        inject_instruction json resolved.efficiency bypass.efficiency reduction.modified_body in
      (
        record {
          final_body = inject_breakpoints json resolved.cache bypass.cache injected.modified_body;
          reduction = reduction;
          tokens_added = injected.tokens_added;
          mode_name = efficiency_mode_name (efficiency_mode resolved.efficiency);
        },
        s',
      )
