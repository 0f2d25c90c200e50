-- ===== src/Access/Session.antt =====
-- A rule can read the request's session_id, which the inputs of a decision leave out.
use provenex_core.Prelude.{◌≡◌, refl, false, some, [], ◌∷◌, ==_refl, ◌==◌, nat_eq, list_eq, ok}
use provenex_core.Text.{Text, codes, split}
use provenex_core.Value.{text, name, value_eq}
use provenex_core.Rules.{Runtime, ChunkContext, RequestContext, Rule, Choice, allow, deny}
use provenex_core.Rules.Resolve.{resolve_path, resolve_parts, when_matches, request_attribute, walk}
use provenex_core.Rules.Constraint.{check_constraint, check_entry, check_all, decide}
use provenex_core.Access.{build_inputs}
use provenex_core.Access.FailClosed.{subject}

abbrev pub in_session : Text → RequestContext → RequestContext
in_session s q = record q { session_id = some s }

-- require: {request.session_id: s}
abbrev pub session_rule : Text → Text → Rule
session_rule label s = record {
  rule_name = label;
  when_clause = [];
  require_clause = (name (codes "request.session_id"), text s) ∷ [];
}

-- Requests that differ only in the session have the same inputs, and a rule that requires a
-- session admits the one and denies the other.
pub session_decides :
    (r : Runtime) (unknown : Choice) (c : ChunkContext) (q : RequestContext) (label s t : Text)
    → (t == s) ≡ false
    → (build_inputs c (in_session s q) ≡ build_inputs c (in_session t q))
      × ((decide r unknown (subject c (in_session s q)) (session_rule label s ∷ []) []
            ≡ ok (allow, label ∷ []))
          × (decide r unknown (subject c (in_session t q)) (session_rule label s ∷ []) []
              ≡ ok (deny, label ∷ [])))
unfolding build_inputs decide when_matches check_all check_entry check_constraint resolve_path
    resolve_parts request_attribute walk value_eq split
session_decides r unknown c q label s t h = (refl, (rw (==_refl s) refl, rw h refl))
