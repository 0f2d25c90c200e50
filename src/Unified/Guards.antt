-- ===== src/Unified/Guards.antt =====
-- A section of a policy file is never dropped in silence.
use provenex_core.Prelude.{
  ◌≡◌, sym, subst, Bool, true, false, Option, none, some, Result, ok, >>=-eq-ok, ok-injective,
}
use provenex_core.Text.{Text, codes}
use provenex_core.Value.{Value, null, dict, Fields, entries, get}
use provenex_core.Rules.{Runtime}
use provenex_core.Rules.Validate.{refuse_unknown_keys}
use provenex_core.Access.{NativeYamlEvaluator, construct_from_bundle}
use provenex_core.ToolCall.{construct_tool_call}
use provenex_core.Unified.{
  UnifiedPolicy, native_evaluator, native_tool_evaluator, unified_yaml_top_keys, parse_verification,
  require_version_one, section_evaluator, from_bundle,
}

-- The section is there and is not None.
abbrev pub is_set : Option Value → Bool
is_set none = false
is_set (some null) = false
is_set (some v) = true

module _ (r : Runtime) where
  -- The section's evaluator is in the policy.
  abbrev pub Guards :
      {E : Type 0} → Result NativeYamlEvaluator → (NativeYamlEvaluator → E) → Option E → Type 0
  Guards built wrap found = (e : NativeYamlEvaluator) × (built ≡ ok e) × (found ≡ some (wrap e))

  section-Guards :
      {E : Type 0} (o : Option Value) (built : Result NativeYamlEvaluator)
      (wrap : NativeYamlEvaluator → E) {found : Option E}
      → is_set o ≡ true
      → section_evaluator r o built wrap ≡ ok found
      → Guards built wrap found
  unfolding from_bundle
  section-Guards none built wrap s h = absurd (cc s)
  section-Guards (some null) built wrap s h = absurd (cc s)
  section-Guards (some v) built wrap s h =
      let (e, b, k) = >>=-eq-ok built _ h in (e, b, sym (ok-injective k))

  -- A file that loads and has a section of rules that is not None gives a policy with the evaluator
  -- that was built from the section, in each of the two domains.
  pub from_bundle-Guards :
      (source : Text) (fs : Fields) {p : UnifiedPolicy}
      → from_bundle r source (dict fs) ≡ ok p
      → (is_set (get (codes "access_control") fs) ≡ true
          → Guards (construct_from_bundle r source (dict fs)) (native_evaluator r) p.access_control)
        × (is_set (get (codes "tool_call_control") fs) ≡ true
            → Guards
                (construct_tool_call r source (dict fs))
                (native_tool_evaluator r)
                p.tool_call_control)
  unfolding from_bundle
  from_bundle-Guards source fs h =
      let (_, _, h1) = >>=-eq-ok (refuse_unknown_keys r unified_yaml_top_keys (entries fs)) _ h in
      let (_, _, h2) = >>=-eq-ok (require_version_one r (get (codes "version") fs)) _ h1 in
      let (v, _, h3) = >>=-eq-ok (parse_verification r (get (codes "verification") fs)) _ h2 in
      let (a, ea, h4) =
        >>=-eq-ok
          (section_evaluator r (get (codes "access_control") fs)
            (construct_from_bundle r source (dict fs)) (native_evaluator r))
          _ h3 in
      let (t, et, h5) =
        >>=-eq-ok
          (section_evaluator r (get (codes "tool_call_control") fs)
            (construct_tool_call r source (dict fs)) (native_tool_evaluator r))
          _ h4 in
      let p : UnifiedPolicy = record {
        verification = v;
        access_control = a;
        tool_call_control = t;
      } in
      (
        λ s.
            subst
              (λ x.
                Guards (construct_from_bundle r source (dict fs)) (native_evaluator r)
                  x.access_control)
              (ok-injective {a = p} h5) (section-Guards (get (codes "access_control") fs) _ _ s ea),
        λ s.
            subst
              (λ x.
                Guards (construct_tool_call r source (dict fs)) (native_tool_evaluator r)
                  x.tool_call_control)
              (ok-injective {a = p} h5)
              (section-Guards (get (codes "tool_call_control") fs) _ _ s et),
      )
