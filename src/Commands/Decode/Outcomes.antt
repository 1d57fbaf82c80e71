-- ===== src/Commands/Decode/Outcomes.antt =====
-- What the loop of the decode command does, against a description that decides about each line and
-- knows no file and no counter.
use liquidity_scope.Prelude.{
  ℕ, ◌+◌, ◌≡◌, ap, ◌∙◌, subst, inl, inr, Bool, List, [], ◌∷◌, ◌++◌, append-nil, append_assoc, arith,
  nat_eq, list_eq, pair_eq, if◌then◌else◌, Result, ok, err, Bool-cases, length, is_empty,
  length-append, and_then-eq-ok, Result-cases,
}
use liquidity_scope.Errors.{Error, missing_topic0}
use liquidity_scope.Text.{Text, trim_space}
use liquidity_scope.Model.{LogRecord, TypedEvent, DecodeError}
use liquidity_scope.Dex.PoolMeta.{DecodeState}
use liquidity_scope.Dex.Decoder.{Decoder, can_decode, decode}
use liquidity_scope.Commands.Writer.{Writer, Medium, lines_of, write}
use liquidity_scope.Commands.Decode.{
  Outside, Session, decode_error_of, bad_line_error, fail_with, emit, handle_log, handle_topics,
  handle_line, handle_lines,
}

-- What becomes of a line.
pub data Outcome : Type 0 where
  blank ignored : Outcome
  refused : DecodeError → Outcome
  accepted : TypedEvent → Outcome

abbrev pub events_of : Outcome → List TypedEvent
events_of (accepted event) = event ∷ []
events_of _ = []

abbrev refusals_of : Outcome → List DecodeError
refusals_of (refused e) = e ∷ []
refusals_of _ = []

abbrev ignored_of : Outcome → ℕ
ignored_of ignored = 1
ignored_of _ = 0

abbrev pub events : List Outcome → List TypedEvent
events [] = []
events (o ∷ os) = events_of o ++ events os

abbrev pub refusals : List Outcome → List DecodeError
refusals [] = []
refusals (o ∷ os) = refusals_of o ++ refusals os

abbrev pub count_ignored : List Outcome → ℕ
count_ignored [] = 0
count_ignored (o ∷ os) = ignored_of o + count_ignored os

module _ (env : Outside) (live : Bool) (d : Decoder) where
  abbrev pub outcome_of_result : LogRecord → Result Error TypedEvent → Outcome
  outcome_of_result r (ok event) = accepted event
  outcome_of_result r (err e) = refused (decode_error_of env.message r e)

  abbrev pub outcome_of_topics : List Text → LogRecord → DecodeState → Outcome × DecodeState
  outcome_of_topics [] r st = (refused (decode_error_of env.message r missing_topic0), st)
  outcome_of_topics (topic0 ∷ topics) r st =
      if can_decode env.eth d topic0
      then (let (event, st') = decode env.eth env.node live d r st in
          (outcome_of_result r event, st'))
      else (ignored, st)

  abbrev pub outcome_of : Text → DecodeState → Outcome × DecodeState
  outcome_of line st =
      if is_empty (trim_space line)
      then (blank, st)
      else (elim (env.unmarshal_log (trim_space line)) [
        | err e ↦ (refused (bad_line_error env.message e), st)
        | ok r ↦ outcome_of_topics r.topics r st
      ])

  abbrev pub outcomes : List Text → DecodeState → List Outcome × DecodeState
  outcomes [] st = ([], st)
  outcomes (line ∷ lines) st =
      let (o, st') = outcome_of line st in let (os, st'') = outcomes lines st' in (o ∷ os, st'')

lines-write :
    {A : Type 0} (medium : Medium) (line : A) (w : Writer A)
    → (write medium line w).0 ≡ ok tt
    → lines_of (write medium line w).1 ≡ lines_of w ++ line ∷ []
unfolding write
lines-write medium line w h =
    ground
      (arith, append-nil (w.written ++ w.pending), append_assoc w.written w.pending (line ∷ []))

-- The second session is the first one moved on by these outcomes.
pub record Follows (s : Session) (os : List Outcome) (st : DecodeState) (s' : Session)
    : Type 0 where
  pub state : s'.state ≡ st
  pub out : lines_of s'.out ≡ lines_of s.out ++ events os
  pub decoded : s'.decoded ≡ s.decoded + length (events os)
  pub failed : s'.failed ≡ s.failed + length (refusals os)
  pub skipped : s'.skipped ≡ s.skipped + count_ignored os
  pub total : s'.total ≡ s.total + (length (events os) + length (refusals os) + count_ignored os)

Follows-append :
    (s s' s'' : Session) (o : Outcome) (os : List Outcome) (st st' : DecodeState)
    → Follows s (o ∷ []) st s'
    → Follows s' os st' s''
    → Follows s (o ∷ os) st' s''
Follows-append s s' s'' o os st st' h k = record {
  state = k.state;
  out =
      k.out
      ∙ (ap (λ (xs : List TypedEvent). xs ++ events os) (rw (append-nil (events_of o)) at h.out)
          ∙ append_assoc (lines_of s.out) (events_of o) (events os));
  decoded = omega (
    arith,
    h.decoded,
    k.decoded,
    length-append (events_of o) (events os),
    length-append (events_of o) [],
  );
  failed = omega (
    arith,
    h.failed,
    k.failed,
    length-append (refusals_of o) (refusals os),
    length-append (refusals_of o) [],
  );
  skipped = omega (arith, h.skipped, k.skipped);
  total = omega (
    arith,
    h.total,
    k.total,
    length-append (events_of o) (events os),
    length-append (events_of o) [],
    length-append (refusals_of o) (refusals os),
    length-append (refusals_of o) [],
  );
}

module _ (env : Outside) (live : Bool) (d : Decoder) where
  -- The session in which the loop's body looks at a line.
  abbrev counted : Session → Session
  counted s = record s { total = s.total + 1 }

  emit-Follows :
      (r : LogRecord) (result : Result Error TypedEvent) (st : DecodeState) (s : Session)
      → (emit env live d r result (record (counted s) { state = st })).0 ≡ ok tt
      → Follows s
          (outcome_of_result env live d r result ∷ [])
          st
          (emit env live d r result (record (counted s) { state = st })).1
  unfolding emit fail_with
  emit-Follows r (err e) st s h = ground (arith, append-nil (lines_of s.out))
  emit-Follows r (ok event) st s h = ground (arith, lines-write env.out_medium event s.out)

  handle_topics-Follows :
      (topics : List Text) (r : LogRecord) (s : Session)
      → (handle_topics env live d topics r (counted s)).0 ≡ ok tt
      → let (o, st) = outcome_of_topics env live d topics r s.state in
        Follows s (o ∷ []) st (handle_topics env live d topics r (counted s)).1
  unfolding handle_topics
  handle_topics-Follows [] r s h = unfold fail_with in ground (arith, append-nil (lines_of s.out))
  handle_topics-Follows (topic0 ∷ topics) r s h = elim (Bool-cases (can_decode env.eth d topic0)) [
    | inl f ↦
        let (event, st) = decode env.eth env.node live d r s.state in
        rw f (emit-Follows r event st s (rw f at h))
    | inr f ↦ rw f (ground (arith, append-nil (lines_of s.out)))
  ]

  pub handle_line-Follows :
      (line : Text) (s : Session)
      → (handle_line env live d line s).0 ≡ ok tt
      → let (o, st) = outcome_of env live d line s.state in
        Follows s (o ∷ []) st (handle_line env live d line s).1
  unfolding handle_line handle_log
  handle_line-Follows line s h = elim (Bool-cases (is_empty (trim_space line))) [
    | inl e ↦ rw e (ground (arith, append-nil (lines_of s.out)))
    | inr e ↦ elim (Result-cases (env.unmarshal_log (trim_space line))) [
      | inl (x, f) ↦ rw (e, f) (unfold fail_with in ground (arith, append-nil (lines_of s.out)))
      | inr (r, f) ↦ rw (e, f) (handle_topics-Follows r.topics r s (rw (e, f) at h))
    ]
  ]

  -- When the loop gets through its lines without an error of the output file, then of each line that
  -- is not blank exactly one thing has become: an event on the output, in the order of the lines and
  -- nothing else there; a refusal; or a line that is passed over because of its topic. The four
  -- counters say how many there were, of each kind and altogether.
  pub handle_lines-outcomes :
      (lines : List Text) (s : Session)
      → (handle_lines env live d lines s).0 ≡ ok tt
      → let (os, st) = outcomes env live d lines s.state in
        Follows s os st (handle_lines env live d lines s).1
  unfolding handle_lines
  handle_lines-outcomes [] s h = ground (arith, append-nil (lines_of s.out))
  handle_lines-outcomes (line ∷ lines) s h =
      let (r, s1) = handle_line env live d line s in
      let (o, st) = outcome_of env live d line s.state in
      let (_, done, e) = and_then-eq-ok r s1 (λ _ s'. handle_lines env live d lines s') h in
      let first = handle_line-Follows line s done in
      let rest = handle_lines-outcomes lines s1 (rw e at h) in
      let s2 = (handle_lines env live d lines s1).1 in
      let (os, st') = outcomes env live d lines st in
      rw e (
        Follows-append s s1 s2 o os st st' first (
          subst
            (λ (x : DecodeState).
              Follows s1 (outcomes env live d lines x).0 (outcomes env live d lines x).1 s2)
            first.state rest))
