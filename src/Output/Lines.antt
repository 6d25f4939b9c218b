-- ===== src/Output/Lines.antt =====
-- The lines that a child process wrote are emitted, however they were read: spawn.c.
use deai.Common.{
  ℕ, zero, suc, ◌+◌, ◌<◌, ◌≡◌, refl, ap, ◌∙◌, sym, Bool, true, false, List, [], ◌∷◌, ◌++◌, none,
  some, arith, length, take, drop, length-drop, append_assoc, Option-cases, inl, inr, if◌then◌else◌,
}
use deai.Text.{memchr}
use deai.Text.Split.{Avoids, memchr-none, memchr-some}
use deai.Output.{
  StringBuf, Stream, string_buf_lpush, string_buf_is_empty, emit, scan_read, output_handler, flush,
  sigchld_handler, stop,
}
use deai.Output.Dump.{content, Clean}
use deai.Output.Pieces.{
  lines_from, lines-Avoids, lines-at, join_reads, AllAvoid, content-append, Clean-append,
  Avoids-take, Avoids-drop, one_node, dump_text, take_line-content, lpush_node, Goes, one_buffer,
}

module _ (goes_on : List (List ℕ) → Bool) (forever : (ls : List (List ℕ)) → goes_on ls ≡ true) where
  -- One round of the loop that finds a line.
  scan-line :
      (n eol : ℕ) (pos : List ℕ) (buf : StringBuf) (s : Stream)
      → s.output_buf ≡ some buf
      → Clean buf
      → Avoids 0 pos
      → memchr pos b'\n' ≡ some eol
      → scan_read goes_on (suc n) pos s
        ≡ scan_read goes_on n (drop (suc eol) pos) (record {
          output_buf = some [];
          emitted = s.emitted ++ (content buf ++ take eol pos) ∷ [];
        })
  unfolding scan_read
  scan-line n eol pos buf s e c a found = ground (
    arith,
    e,
    found,
    take_line-content buf (take eol pos) c (Avoids-take 0 eol pos a),
    forever (s.emitted ++ (content buf ++ take eol pos) ∷ []),
  )

  scan-rest :
      (n : ℕ) (pos : List ℕ) (buf : StringBuf) (s : Stream)
      → s.output_buf ≡ some buf
      → memchr pos b'\n' ≡ none
      → scan_read goes_on (suc n) pos s
        ≡ some (true, record s { output_buf = some (string_buf_lpush buf pos (length pos)) })
  unfolding scan_read
  scan-rest n pos buf s e none_left = ground (arith, e, none_left)

  Full : Stream → Type 0
  Full s = (buf : StringBuf) × (s.output_buf ≡ some buf) × (string_buf_is_empty buf ≡ false)

  lpush-Full :
      (buf : StringBuf) (xs : List ℕ)
      → string_buf_is_empty (string_buf_lpush buf xs (length xs)) ≡ false
  unfolding string_buf_is_empty string_buf_lpush
  lpush-Full [] xs = refl
  lpush-Full (b ∷ bs) xs = refl

  rest-Goes :
      (all : List (List ℕ)) (pos x : List ℕ) (s : Stream) (g : Goes all (pos ++ x) s)
      → Avoids 0 pos
      → memchr pos b'\n' ≡ none
      → Goes all x (record s { output_buf = some (string_buf_lpush g.buf pos (length pos)) })
  rest-Goes all pos x s g a e = record {
    buf = string_buf_lpush g.buf pos (length pos);
    kept = refl;
    clean = rw (lpush_node g.buf pos a) (Clean-append g.buf _ g.clean (refl, a, tt));
    lines =
        ap (λ c. s.emitted ++ lines_from c x)
          (ap content (lpush_node g.buf pos a)
            ∙ content-append g.buf _
            ∙ ap (λ r. content g.buf ++ r) (one_node pos))
        ∙ ap (λ ls. s.emitted ++ ls)
            (sym (lines-Avoids (content g.buf) pos x (memchr-none b'\n' pos e)))
        ∙ g.lines;
  }

  line-Goes :
      (all : List (List ℕ)) (pos x : List ℕ) (eol : ℕ) (s : Stream) (g : Goes all (pos ++ x) s)
      → memchr pos b'\n' ≡ some eol
      → Goes all (drop (suc eol) pos ++ x) (record {
        output_buf = some [];
        emitted = s.emitted ++ (content g.buf ++ take eol pos) ∷ [];
      })
  unfolding content
  line-Goes all pos x eol s g e =
      let (a, split) = memchr-some b'\n' pos eol e in
      record {
        buf = [];
        kept = refl;
        clean = tt;
        lines =
            append_assoc s.emitted ((content g.buf ++ take eol pos) ∷ [])
              (lines_from [] (drop (suc eol) pos ++ x))
            ∙ ap (λ ls. s.emitted ++ ls)
                (sym (lines-at (content g.buf) (take eol pos) (drop (suc eol) pos ++ x) a)
                  ∙ ap (lines_from (content g.buf)) (
                      sym (append_assoc (take eol pos) (b'\n' ∷ drop (suc eol) pos) x)
                      ∙ ap (λ p. p ++ x) (sym split)))
            ∙ g.lines;
      }

  drop-shorter :
      (eol : ℕ) (pos : List ℕ)
      → memchr pos b'\n' ≡ some eol
      → length (drop (suc eol) pos) < length pos
  unfolding memchr
  drop-shorter eol [] e = cc
  drop-shorter eol (c ∷ cs) e = omega (arith, length-drop eol cs)

  scan-Goes :
      (n : ℕ) (all : List (List ℕ)) (pos x : List ℕ) (s : Stream)
      → Avoids 0 pos
      → length pos < n
      → Goes all (pos ++ x) s
      → (t : Stream) × (scan_read goes_on n pos s ≡ some (true, t)) × Goes all x t × Full t
  unfolding Full
  scan-Goes zero all pos x s a l g = absurd (omega arith)
  scan-Goes (suc n) all pos x s a l g = elim (Option-cases (memchr pos b'\n')) [
    | inl e ↦ (
      record s { output_buf = some (string_buf_lpush g.buf pos (length pos)) },
      scan-rest n pos g.buf s g.kept e,
      rest-Goes all pos x s g a e,
      (string_buf_lpush g.buf pos (length pos), refl, lpush-Full g.buf pos),
    )
    | inr (eol, e) ↦
        let (t, run, goes, full) =
          scan-Goes n all (drop (suc eol) pos) x
            (record {
              output_buf = some [];
              emitted = s.emitted ++ (content g.buf ++ take eol pos) ∷ [];
            })
            (Avoids-drop 0 (suc eol) pos a) (omega (arith, drop-shorter eol pos e))
            (line-Goes all pos x eol s g e) in
        (t, scan-line n eol pos g.buf s g.kept g.clean a e ∙ run, goes, full)
  ]

  reads-Goes :
      (closes : Bool) (all : List (List ℕ)) (r : List ℕ) (rs : List (List ℕ)) (s : Stream)
      → AllAvoid 0 (r ∷ rs)
      → Goes all (join_reads (r ∷ rs)) s
      → (t : Stream) × (output_handler goes_on closes (r ∷ rs) s ≡ some (stop closes t))
        × Goes all [] t
        × Full t
  unfolding output_handler
  reads-Goes closes all r [] s a g =
      let (t, run, goes, full) = scan-Goes (length r + 1) all r [] s a.0 (omega arith) g in
      (t, rw run refl, goes, full)
  reads-Goes closes all r (q ∷ rs) s a g =
      let (t, run, goes, full) =
        scan-Goes (length r + 1) all r (join_reads (q ∷ rs)) s a.0 (omega arith) g in
      let (u, next, went, filled) = reads-Goes closes all q rs t a.1 goes in
      (u, rw run next, went, filled)

  -- What is buffered at the end is the last piece: it is emitted, unless the listeners were stopped.
  flush-Goes :
      (closes : Bool) (all : List (List ℕ)) (s : Stream)
      → Goes all [] s
      → Full s
      → (t : Stream) × (before : List (List ℕ)) × (last : List ℕ) × (flush goes_on (stop closes s)
          ≡ some t)
        × (all ≡ before ++ last ∷ [])
        × (t.emitted ≡ (if closes then before else before ++ last ∷ []))
  unfolding flush lines_from Full
  flush-Goes true all s g (buf, e, more) =
      (stop true s, s.emitted, content g.buf, refl, sym g.lines, refl)
  flush-Goes false all s g (buf, e, more) =
      let same : buf ≡ g.buf = one_buffer s e g.kept in
      let (run, text) = dump_text g.buf g.clean in
      (
        emit goes_on (content g.buf) s,
        s.emitted,
        content g.buf,
        rw (g.kept, ap string_buf_is_empty (sym same) ∙ more, run, text) refl,
        sym g.lines,
        refl,
      )

-- While the listeners go on, the lines that they get of a child's stream when the child has exited
-- are the pieces of all that is read between newlines, in their order: they do not depend on how the
-- text was cut into reads, of which there is one at least. If the reads end because the pipe is empty
-- for now, the last piece is included, even if it is empty; if they end with the end of the file,
-- just the last piece is lost. No buffer is read or written past its end. The text holds no NUL.
pub lines_emitted :
    (goes_on : List (List ℕ) → Bool) (closes : Bool) (r : List ℕ) (rs : List (List ℕ))
    → ((ls : List (List ℕ)) → goes_on ls ≡ true)
    → AllAvoid 0 (r ∷ rs)
    → (t : Stream) × (before : List (List ℕ)) × (last : List ℕ) × (sigchld_handler goes_on closes
          (r ∷ rs)
          (record { output_buf = some []; emitted = [] })
        ≡ some t)
      × (lines_from [] (join_reads (r ∷ rs)) ≡ before ++ last ∷ [])
      × (t.emitted ≡ (if closes then before else before ++ last ∷ []))
unfolding sigchld_handler content
lines_emitted goes_on closes r rs forever a =
    let start : Stream = record { output_buf = some []; emitted = [] } in
    let all = lines_from [] (join_reads (r ∷ rs)) in
    let (t, run, goes, full) =
      reads-Goes goes_on forever closes all r rs start a
        (record { buf = []; kept = refl; clean = tt; lines = refl }) in
    let (u, before, last, end, pieces, lines) = flush-Goes goes_on forever closes all t goes full in
    (u, before, last, rw run end, pieces, lines)
