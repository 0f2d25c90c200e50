-- ===== src/Rules/Duration.antt =====
-- `_parse_duration` and `_parse_iso8601`.
use provenex_core.Prelude.{
  ℕ, ◌+◌, ◌*◌, ℤ, none, some, [], ◌∷◌, if◌then◌else◌, ◌==◌, nat_eq, Result, ok, err, ◌>>=◌,
  policy_parse_error,
}
use provenex_core.Text.{Text, codes}
use provenex_core.Value.{Value, text}
use provenex_core.Rules.{Runtime}

module _ (r : Runtime) where
  pub skip_spaces : Text → Text
  skip_spaces [] = []
  skip_spaces (c ∷ s) = if r.is_space c then skip_spaces s else c ∷ s

  -- The digits at the front, after the number `acc`, and what follows them.
  pub digits : ℕ → Text → ℕ × Text
  digits acc [] = (acc, [])
  digits acc (c ∷ s) = elim (r.digit c) [ none ↦ (acc, c ∷ s) | some d ↦ digits (acc * 10 + d) s ]

  pub quantity : Text → Result (ℕ × Text)
  quantity [] = err policy_parse_error
  quantity (c ∷ s) = elim (r.digit c) [ none ↦ err policy_parse_error | some d ↦ ok (digits d s) ]

  pub unit_seconds : Text → Result (ℕ × Text)
  unit_seconds [] = err policy_parse_error
  unit_seconds (c ∷ s) =
      if c == b's'
      then ok (1, s)
      else if c == b'm'
      then ok (60, s)
      else if c == b'h'
      then ok (3600, s)
      else if c == b'd'
      then ok (86400, s)
      else err policy_parse_error

  at_end : Text → ℕ → Result ℕ
  at_end [] n = ok n
  at_end (c ∷ s) n = err policy_parse_error

  unfoldable pub parse_duration : Value → Result ℕ
  unfolding skip_spaces digits quantity unit_seconds at_end
  parse_duration (text s) = do
    (qty, s1) ← quantity (skip_spaces s)
    (seconds, s2) ← unit_seconds (skip_spaces s1)
    at_end (skip_spaces s2) (qty * seconds)
  parse_duration _ = err policy_parse_error

  -- s[:-1] + "+00:00" where s ends with "Z"
  pub replace_zulu : Text → Text
  replace_zulu [] = []
  replace_zulu (c ∷ []) = if c == b'Z' then codes "+00:00" else c ∷ []
  replace_zulu (c ∷ d ∷ s) = c ∷ replace_zulu (d ∷ s)

  unfoldable pub parse_iso8601 : Text → Result ℤ
  unfolding replace_zulu
  parse_iso8601 s = elim (r.fromisoformat (replace_zulu s)) [
    | none ↦ err policy_parse_error
    | some dt ↦ ok (r.epoch (if r.has_timezone dt then dt else r.as_utc dt))
  ]
