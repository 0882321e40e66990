-- ===== src/Views/Streamed.antt =====
-- An event stream, parsed as it comes and parsed as a whole: `SseEventParser` and `parse_sse_data` of
-- enclave/src/main.rs.
use proof_of_observation.Base.{
  ℕ, zero, suc, ◌<◌, ◌≡◌, refl, sym, subst, ap, ◌∙◌, ◌||◌, Option, none, some, List, [], ◌∷◌,
  append-nil, Bytes, arith, length, length-append, if◌then◌else◌, Bool-cases, inl, inr, equal,
}
use proof_of_observation.Text.{Text, lit, is_empty, trim, strip_prefix, join}
use proof_of_observation.Text.Utf8.{decode_step, shown, from_utf8_lossy}
use proof_of_observation.Text.Utf8.Lossy.{lossy_cons, lossy-ascii}
use proof_of_observation.Json.{Value, Values, Libs}
use proof_of_observation.Stream.Framing.{Verdict, wait, reject, item, push, push_all, joined}
use proof_of_observation.Stream.Framing.Steps.{fresh, push-wait, push-item}
use proof_of_observation.Stream.Sse.{
  cut_line, strip_cr, flush, data_line, process_line, sse_line, sse_start, sse_push, sse_push_all,
  sse_finish, sse_cut, last_line,
}
use proof_of_observation.Stream.Sse
use proof_of_observation.Aggregate.{fold_values}
use proof_of_observation.Views.{
  push_item, sse_text_line, sse_text_lines, sse_items, flush_sse_data, lines,
}
use proof_of_observation.Views.Lines.{
  NoLf, lossy-NoLf, strip_cr-lossy, lines_last, lines_line, Cut, cut,
}

lossy_last :
    (c : ℕ) (line : Bytes)
    → NoLf (from_utf8_lossy (c ∷ line))
    → lines (from_utf8_lossy (c ∷ line)) ≡ from_utf8_lossy (c ∷ line) ∷ []
lossy_last c line h = rw (lossy_cons c line) (
    lines_last (shown (decode_step c line)).0 (from_utf8_lossy (shown (decode_step c line)).1)
      (subst NoLf (lossy_cons c line) h))

module _ (libs : Libs) {S : Type 0} (on_event : S → Value libs.Number → S) where
  process_line_text :
      (line : Bytes) (st : List Text × S)
      → process_line libs on_event line st ≡ sse_text_line libs on_event (from_utf8_lossy line) st
  unfolding process_line sse_text_line from_utf8_lossy
  process_line_text [] st = refl
  process_line_text (x ∷ line) st =
      ap
        (λ z.
          if is_empty z
          then flush libs on_event st
          else data_line libs on_event (strip_prefix (lit "data:") (from_utf8_lossy (x ∷ line))) st)
        (sym (lossy_cons x line))

  abbrev read_lines : Bytes → List Text × S → S
  read_lines body st =
      (flush libs on_event (sse_text_lines libs on_event (lines (from_utf8_lossy body)) st)).1

  last-lines :
      (body : Bytes) (st : List Text × S)
      → NoLf body
      → (flush libs on_event (last_line libs on_event body st)).1 ≡ read_lines body st
  unfolding sse_text_lines from_utf8_lossy lines
  last-lines [] st h = refl
  last-lines (c ∷ line) st h =
      ap (λ z. (flush libs on_event z).1)
        (process_line_text (c ∷ line) st
          ∙ sym (
              ap (λ z. sse_text_lines libs on_event z st)
                (lossy_last c line (lossy-NoLf (c ∷ line) h))))

  item-lines :
      (body line rest : Bytes) (st : List Text × S)
      → Cut body (item line rest)
      → read_lines rest (process_line libs on_event (strip_cr line) st) ≡ read_lines body st
  unfolding sse_text_lines
  item-lines body line rest st (no_lf, e) =
      ap (λ z. (flush libs on_event z).1)
        (ap (sse_text_lines libs on_event (lines (from_utf8_lossy rest))) (
            process_line_text (strip_cr line) st
            ∙ ap (λ z. sse_text_line libs on_event z st) (sym (strip_cr-lossy line)))
          ∙ ap (λ z. sse_text_lines libs on_event z st)
              (sym (
                ap (λ z. lines (from_utf8_lossy z)) e
                ∙ ap lines (lossy-ascii line 10 rest (omega arith))
                ∙ lines_line (from_utf8_lossy line) (from_utf8_lossy rest)
                    (lossy-NoLf line no_lf))))

  abbrev OneChunk : Bytes → List Text × S → Type 0
  OneChunk body st =
      sse_finish libs on_event (push Sse.lines (sse_line libs on_event) body (fresh st))
      ≡ read_lines body st

  chunk_step :
      (n : ℕ) (body : Bytes) (st : List Text × S) (v : Verdict Bytes)
      → length body < suc n
      → cut_line body ≡ v
      → Cut body v
      → ((rest : Bytes) (st' : List Text × S) → length rest < n → OneChunk rest st')
      → OneChunk body st
  unfolding sse_finish
  chunk_step n body st wait k e c ih =
      ap (sse_finish libs on_event) (push-wait Sse.lines (sse_line libs on_event) body st e)
      ∙ last-lines body st c
  chunk_step n body st reject k e c ih = elim c [ ]
  chunk_step n body st (item line rest) k e c ih =
      ap (sse_finish libs on_event) (
        push-item Sse.lines (sse_line libs on_event) body rest line st
          (process_line libs on_event (strip_cr line) st) e refl)
      ∙ ih rest (process_line libs on_event (strip_cr line) st)
          (omega (arith, ap (length {A = ℕ}) c.1, length-append line (10 ∷ rest)))
      ∙ item-lines body line rest st c

  one_chunk : (n : ℕ) (body : Bytes) (st : List Text × S) → length body < n → OneChunk body st
  one_chunk zero body st k = absurd (omega arith)
  one_chunk (suc n) body st k = chunk_step n body st (cut_line body) k refl (cut body) (one_chunk n)

  -- The caller's state after the items so far.
  abbrev follow : S → List Text × Values libs.Number → List Text × S
  follow s st = (st.0, fold_values on_event s st.1)

  fold-push :
      (s : S) (vs : Values libs.Number) (v : Value libs.Number)
      → fold_values on_event s (push_item libs vs v) ≡ on_event (fold_values on_event s vs) v
  unfolding fold_values
  fold-push s [] v = refl
  fold-push s (x ∷ vs) v = fold-push (on_event s x) vs v

  follow-flush :
      (s : S) (st : List Text × Values libs.Number)
      → flush libs on_event (follow s st) ≡ follow s (flush libs (push_item libs) st)
  unfolding flush
  follow-flush s ([], vs) = refl
  follow-flush s (l ∷ dl, vs) =
      elim (Bool-cases (
        is_empty (trim (join (10 ∷ []) (l ∷ dl)))
        || equal (trim (join (10 ∷ []) (l ∷ dl))) (lit "[DONE]"))) [
          | inl h ↦ rw h refl
          | inr h ↦ rw h (ap (λ z. ([], z)) (sym (fold-push s vs _)))
        ]

  follow-data :
      (s : S) (rest : Option Text) (st : List Text × Values libs.Number)
      → data_line libs on_event rest (follow s st)
        ≡ follow s (data_line libs (push_item libs) rest st)
  unfolding data_line
  follow-data s none st = refl
  follow-data s (some rest) st = refl

  follow-line :
      (s : S) (line : Text) (st : List Text × Values libs.Number)
      → sse_text_line libs on_event line (follow s st)
        ≡ follow s (sse_text_line libs (push_item libs) line st)
  unfolding sse_text_line data_line
  follow-line s line st = elim (Bool-cases (is_empty line)) [
    | inl h ↦ rw h (follow-flush s st)
    | inr h ↦ rw h (follow-data s (strip_prefix (lit "data:") line) st)
  ]

  follow-lines :
      (s : S) (rest : List Text) (st : List Text × Values libs.Number)
      → sse_text_lines libs on_event rest (follow s st)
        ≡ follow s (sse_text_lines libs (push_item libs) rest st)
  unfolding sse_text_lines
  follow-lines s [] st = refl
  follow-lines s (line ∷ rest) st =
      ap (sse_text_lines libs on_event rest) (follow-line s line st)
      ∙ follow-lines s rest (sse_text_line libs (push_item libs) line st)

  -- Pushing the chunks of a response, at least one, through the event parser and finishing it has the
  -- effect of applying the caller's function to the items that `parse_sse_data` finds in the whole
  -- body, in order.
  pub sse_finish-sse_items :
      (c : Bytes) (cs : List Bytes) (s : S)
      → sse_finish libs on_event (sse_push_all libs on_event (c ∷ cs) (sse_start libs on_event s))
        ≡ fold_values on_event s (sse_items libs (joined (c ∷ cs)))
  unfolding sse_push_all push_all sse_items flush_sse_data fold_values
  sse_finish-sse_items c cs s =
      let body = joined (c ∷ cs) in
      sse_cut libs on_event c cs body [] s (sym (append-nil body))
      ∙ one_chunk (suc (length body)) body ([], s) (omega arith)
      ∙ ap (λ z. (flush libs on_event z).1) (follow-lines s (lines (from_utf8_lossy body)) ([], []))
      ∙ ap (λ z. z.1)
          (follow-flush s
            (sse_text_lines libs (push_item libs) (lines (from_utf8_lossy body)) ([], [])))
