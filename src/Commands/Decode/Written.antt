-- ===== src/Commands/Decode/Written.antt =====
-- What the files of the decode command hold at its end, when both of them take what is written.
use liquidity_scope.Prelude.{
  ℕ, ◌+◌, ◌≡◌, refl, sym, ap, ◌∙◌, subst, inl, inr, Bool, Option, none, some, List, [], ◌∷◌, ◌++◌,
  append-nil, append_assoc, arith, nat_eq, list_eq, pair_eq, Result, ok, err, Bool-cases, is_empty,
  Result-cases,
}
use liquidity_scope.Errors.{Error}
use liquidity_scope.Text.{Text, trim_space}
use liquidity_scope.Model.{LogRecord, TypedEvent, DecodeError}
use liquidity_scope.Chain.{Client}
use liquidity_scope.Dex.PoolMeta.{DecodeState}
use liquidity_scope.Dex.Decoder.{Decoder, decode, can_decode}
use liquidity_scope.Commands.Writer.{Writer, Medium, lines_of, write, flush}
use liquidity_scope.Commands.Decode.{
  bad_line_error, Outside, Session, new_session, fail_with, emit, handle_topics, handle_log,
  handle_line, handle_lines, close, process,
}
use liquidity_scope.Commands.Decode.Outcomes.{
  outcome_of, handle_line-Follows, outcome_of_result, outcome_of_topics, events, refusals, outcomes,
  handle_lines-outcomes,
}

-- A file that takes everything.
abbrev pub IsSound : Medium → Type 0
IsSound medium = (n : ℕ) → medium.fault n ≡ none

module _ {A : Type 0} (medium : Medium) (sound : IsSound medium) where
  write_sound :
      (line : A) (w : Writer A)
      → w.broken ≡ none
      → ((write medium line w).0 ≡ ok tt)
        × ((write medium line w).1.broken ≡ none)
        × (lines_of (write medium line w).1 ≡ lines_of w ++ line ∷ [])
  unfolding write flush
  write_sound line w h = ground (
    arith,
    h,
    sound w.clock,
    append-nil (w.written ++ w.pending),
    append_assoc w.written w.pending (line ∷ []),
  )

  flush_sound : (w : Writer A) → w.broken ≡ none → (flush medium w).1.written ≡ lines_of w
  unfolding flush
  flush_sound w h = ground (arith, h, sound w.clock)

-- How the command ends behind its last line.
scan-result :
    (scan_error : Option Error) (s : Session)
    → Path
        (Result Error Unit)
        (elim scan_error as (λ _. Result Error Unit × Session) [
          | some e ↦ (err e, s)
          | none ↦ (ok tt, s)
        ]).0
        (elim scan_error [ some e ↦ err e | none ↦ ok tt ])
scan-result none s = refl
scan-result (some e) s = refl

-- How a part of the loop ends, and what it adds to the error file.
record Refuses (result : Result Error Unit) (w : Writer DecodeError) (es : List DecodeError)
    (s' : Session) : Type 0 where
  done : result ≡ ok tt
  out_holds : s'.out.broken ≡ none
  errors_hold : s'.errors.broken ≡ none
  refused : lines_of s'.errors ≡ lines_of w ++ es

Refuses-append :
    (result : Result Error Unit) (w w' : Writer DecodeError) (es fs : List DecodeError)
    (s : Session)
    → lines_of w' ≡ lines_of w ++ (es ++ [])
    → Refuses result w' fs s
    → Refuses result w (es ++ fs) s
Refuses-append result w w' es fs s h k = record {
  done = k.done;
  out_holds = k.out_holds;
  errors_hold = k.errors_hold;
  refused =
      k.refused
      ∙ (ap (λ (xs : List DecodeError). xs ++ fs) (rw (append-nil es) at h)
          ∙ append_assoc (lines_of w) es fs);
}

module _ (env : Outside) (live : Bool) (d : Decoder) (sound_out : IsSound env.out_medium)
    (sound_err : IsSound env.err_medium) where
  fail_with-Refuses :
      (e : DecodeError) (s : Session)
      → s.out.broken ≡ none
      → s.errors.broken ≡ none
      → Refuses (ok tt) s.errors (e ∷ []) (fail_with env live d e s)
  unfolding fail_with
  fail_with-Refuses e s h k =
      let (_, holds, added) = write_sound env.err_medium sound_err e s.errors k in
      record { done = refl; out_holds = h; errors_hold = holds; refused = added }

  -- A part of the loop that leaves the error file alone.
  silent-Refuses :
      (s s' : Session)
      → s'.out.broken ≡ none
      → s'.errors ≡ s.errors
      → s.errors.broken ≡ none
      → Refuses (ok tt) s.errors [] s'
  silent-Refuses s s' h k m = record {
    done = refl;
    out_holds = h;
    errors_hold = rw k m;
    refused = rw k (sym (append-nil (lines_of s.errors)));
  }

  emit-Refuses :
      (r : LogRecord) (result : Result Error TypedEvent) (s : Session)
      → s.out.broken ≡ none
      → s.errors.broken ≡ none
      → Refuses
          (emit env live d r result s).0
          s.errors
          (refusals (outcome_of_result env live d r result ∷ []))
          (emit env live d r result s).1
  unfolding emit
  emit-Refuses r (err e) s h k = fail_with-Refuses _ s h k
  emit-Refuses r (ok event) s h k =
      let (done, holds, _) = write_sound env.out_medium sound_out event s.out h in
      rw done (silent-Refuses s _ holds refl k)

  handle_topics-Refuses :
      (topics : List Text) (r : LogRecord) (s : Session)
      → s.out.broken ≡ none
      → s.errors.broken ≡ none
      → Refuses
          (handle_topics env live d topics r s).0
          s.errors
          (refusals ((outcome_of_topics env live d topics r s.state).0 ∷ []))
          (handle_topics env live d topics r s).1
  unfolding handle_topics
  handle_topics-Refuses [] r s h k = fail_with-Refuses _ s h k
  handle_topics-Refuses (topic0 ∷ topics) r s h k =
      elim (Bool-cases (can_decode env.eth d topic0)) [
        | inl f ↦
            let (event, st) = decode env.eth env.node live d r s.state in
            rw (f, handle_topics) (emit-Refuses r event (record s { state = st }) h k)
        | inr f ↦ rw (f, handle_topics) (silent-Refuses s _ h refl k)
      ]

  handle_line-Refuses :
      (line : Text) (s : Session)
      → s.out.broken ≡ none
      → s.errors.broken ≡ none
      → Refuses
          (handle_line env live d line s).0
          s.errors
          (refusals ((outcome_of env live d line s.state).0 ∷ []))
          (handle_line env live d line s).1
  unfolding handle_line handle_log
  handle_line-Refuses line s h k = elim (Bool-cases (is_empty (trim_space line))) [
    | inl e ↦ rw (e, handle_line) (silent-Refuses s s h refl k)
    | inr e ↦ elim (Result-cases (env.unmarshal_log (trim_space line))) [
      | inl (x, f) ↦
          rw (e, f, handle_line)
            (fail_with-Refuses (bad_line_error env.message x) (record s { total = s.total + 1 }) h
              k)
      | inr (r, f) ↦
          rw (e, f, handle_line)
            (handle_topics-Refuses r.topics r (record s { total = s.total + 1 }) h k)
    ]
  ]

  handle_lines-Refuses :
      (lines : List Text) (s : Session)
      → s.out.broken ≡ none
      → s.errors.broken ≡ none
      → Refuses
          (handle_lines env live d lines s).0
          s.errors
          (refusals (outcomes env live d lines s.state).0)
          (handle_lines env live d lines s).1
  unfolding handle_lines
  handle_lines-Refuses [] s h k = silent-Refuses s s h refl k
  handle_lines-Refuses (line ∷ lines) s h k =
      let first = handle_line-Refuses line s h k in
      let s1 = (handle_line env live d line s).1 in
      let st = handle_line-Follows env live d line s first.done in
      let rest = handle_lines-Refuses lines s1 first.out_holds first.errors_hold in
      rw first.done (
        Refuses-append _ s.errors s1.errors _ _ _ first.refused (
          subst
            (λ (x : DecodeState).
              Refuses (handle_lines env live d lines s1).0 s1.errors
                (refusals (outcomes env live d lines x).0) (handle_lines env live d lines s1).1)
            st.state rest))

  -- When neither file refuses a write, the command gets through all its lines, whatever they hold, and
  -- returns the error of the scanner, if there is one. The output then holds the events of the lines in
  -- their order, the last buffered ones included, and the error file holds one record for each line
  -- that was refused.
  pub process-written :
      (lines : List Text) (scan_error : Option Error) (client : Client)
      → let (os, st) = outcomes env live d lines (new_session client).state in
        let (result, s) = process env live d lines scan_error (new_session client) in
        (result ≡ elim scan_error [ some e ↦ err e | none ↦ ok tt ])
        × (s.out.written ≡ events os)
        × (s.errors.written ≡ refusals os)
  unfolding process close
  process-written lines scan_error client =
      let s = new_session client in
      let r = handle_lines-Refuses lines s refl refl in
      let f = handle_lines-outcomes env live d lines s r.done in
      let s' = (handle_lines env live d lines s).1 in
      let shown = flush_sound env.out_medium sound_out s'.out r.out_holds ∙ f.out in
      let refused = flush_sound env.err_medium sound_err s'.errors r.errors_hold ∙ r.refused in
      (rw r.done (scan-result scan_error s'), shown, refused)
