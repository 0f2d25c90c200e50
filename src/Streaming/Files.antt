-- ===== src/Streaming/Files.antt =====
-- FileJSONLSink: every line goes to the file of the day on which it was published, whole or, where
-- a write fails, in part.
use provenex_core.Prelude.{
  ◌≡◌, refl, sym, ap, Bool, true, false, Option, none, some, List, [], ◌∷◌, ◌++◌, Bool-cases, inl,
  inr, ◌==◌, nat_eq, list_eq, is_ok, subst, ℕ, ◌⊎◌, take,
}
use provenex_core.Text.{Text, text_eq_iff}
use provenex_core.Streaming.{
  Published, Handle, FileJsonlSink, file_publish, rotate_if_needed, is_current, close_handle,
  write_line, and_then, WriteEnd, all_taken, broken, ended_line,
}

-- The handle is that of the current date.
unfoldable pub InStep : Option Text → Option Handle → Type 0
InStep (some date) (some h) = date ≡ h.date
InStep none (some h) = ⊥
InStep date none = Unit

-- What a publish does: the whole line goes to the day's file, or the call raises, and the day's file
-- has got a beginning of the line at most.
pub record Dated (s : FileJsonlSink) (today line : Text) (p : Published FileJsonlSink)
    : Type 0 where
  pub in_step : InStep p.state.current_date p.state.handle
  pub whole : is_ok p.result ≡ true → p.state.written ≡ s.written ++ (today, ended_line line) ∷ []
  pub at_most :
      is_ok p.result ≡ false
      → (p.state.written ≡ s.written)
        ⊎ ((n : ℕ) × (p.state.written ≡ s.written ++ (today, take n (ended_line line)) ∷ []))

abbrev state : Text → Option Text → Option Handle → Bool → List (Text × Text) → FileJsonlSink
state prefix date handle closed written = record {
  prefix = prefix;
  current_date = date;
  handle = handle;
  closed = closed;
  written = written;
}

write_line-Dated :
    (s : FileJsonlSink) (prefix today line : Text) (opened closed : Bool)
    (written : List (Text × Text)) (how : WriteEnd)
    → s.written ≡ written
    → Dated s today line (
        write_line
          (state prefix
            (some today)
            (some (record { date = today; is_open = opened }))
            closed
            written)
          line
          how)
unfolding write_line InStep
write_line-Dated s prefix today line true closed written all_taken e = record {
  in_step = refl;
  whole = λ _. ap (λ l. l ++ (today, ended_line line) ∷ []) (sym e);
  at_most = λ h. cc;
}
write_line-Dated s prefix today line true closed written (broken x n) e = record {
  in_step = refl;
  whole = λ h. cc;
  at_most = λ _. inr (n, ap (λ l. l ++ (today, take n (ended_line line)) ∷ []) (sym e));
}
write_line-Dated s prefix today line false closed written all_taken e = record {
  in_step = refl;
  whole = λ h. cc;
  at_most = λ _. inl (sym e);
}
write_line-Dated s prefix today line false closed written (broken x n) e = record {
  in_step = refl;
  whole = λ h. cc;
  at_most = λ _. inl (sym e);
}

InStep-close_handle :
    (date : Option Text) (handle : Option Handle)
    → InStep date handle
    → InStep date (close_handle handle)
unfolding InStep close_handle
InStep-close_handle none none i = tt
InStep-close_handle (some date) none i = tt
InStep-close_handle none (some h) i = i
InStep-close_handle (some date) (some h) i = i

publish-Dated :
    (prefix : Text) (date : Option Text) (handle : Option Handle) (closed : Bool)
    (written : List (Text × Text)) (today line : Text) (refused : Bool) (how : WriteEnd)
    → InStep date handle
    → Dated
        (state prefix date handle closed written)
        today
        line
        (file_publish (state prefix date handle closed written) today refused line how)
unfolding file_publish rotate_if_needed and_then is_current InStep
publish-Dated prefix date handle true written today line link how i = record {
  in_step = i;
  whole = λ h. cc;
  at_most = λ _. inl refl;
}
publish-Dated prefix none none false written today line true how i = record {
  in_step = tt;
  whole = λ h. cc;
  at_most = λ _. inl refl;
}
publish-Dated prefix (some date) none false written today line true how i = record {
  in_step = tt;
  whole = λ h. cc;
  at_most = λ _. inl refl;
}
publish-Dated prefix none none false written today line false how i =
    write_line-Dated (state prefix none none false written) prefix today line true false written how
      refl
publish-Dated prefix (some date) none false written today line false how i =
    write_line-Dated (state prefix (some date) none false written) prefix today line true false
      written how refl
publish-Dated prefix none (some h) false written today line link how i = absurd i
publish-Dated prefix (some date) (some h) false written today line link how i =
    let s = state prefix (some date) (some h) false written in
    elim (Bool-cases (today == date)) [
      | inl q ↦
          let same = (text_eq_iff today date).0 q in
          rw q (
            subst
              (λ t. Dated s today line (
                write_line
                  (state prefix (some date) (some (record { date = t; is_open = h.is_open })) false
                    written)
                  line how))
              i
              (subst
                (λ t. Dated s today line (
                  write_line
                    (state prefix (some t) (some (record { date = t; is_open = h.is_open })) false
                      written)
                    line how))
                same (write_line-Dated s prefix today line h.is_open false written how refl)))
      | inr q ↦ elim (Bool-cases link) [
        | inl l ↦ rw (q, l) (record { in_step = i; whole = λ h. cc; at_most = λ _. inl refl })
        | inr l ↦ rw (q, l) (write_line-Dated s prefix today line true false written how refl)
      ]
    ]

-- A publish of a sink whose handle is that of its current date leaves it so, whether the day has
-- changed or not, and however the writes end. One that returns has given the whole line and its
-- newline to the file of the day of the call. One that raises has given it nothing, or one
-- beginning of them.
pub file_publish-Dated :
    (s : FileJsonlSink) (today line : Text) (refused : Bool) (how : WriteEnd)
    → InStep s.current_date s.handle
    → Dated s today line (file_publish s today refused line how)
file_publish-Dated s today line link how i =
    publish-Dated s.prefix s.current_date s.handle s.closed s.written today line link how i
