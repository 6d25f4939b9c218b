-- ===== src/Output/Pieces.antt =====
-- The lines of a text, and what one push or dump of string_buf.c does to the buffered text.
use deai.Common.{
  ℕ, zero, suc, ◌≡◌, refl, ap, ◌∙◌, List, [], ◌∷◌, ◌++◌, some, arith, length, take, drop,
  append_assoc, append-nil, if◌then◌else◌, ◌==◌,
}
use deai.Text.{c_str}
use deai.Text.Split.{Avoids}
use deai.Output.{StringBuf, Stream, string_buf_push, string_buf_lpush, string_buf_dump, take_line}
use deai.Text.Slice.{take_all}
use deai.Output.Dump.{content, Clean, c_str-Avoids, c_str_all, content-Avoids, dump-content}

-- The lines of a text behind `acc`, the last one included, even if it is empty.
unfoldable pub lines_from : List ℕ → List ℕ → List (List ℕ)
lines_from acc [] = acc ∷ []
lines_from acc (c ∷ cs) =
    if c == b'\n' then acc ∷ lines_from [] cs else lines_from (acc ++ c ∷ []) cs

pub lines-Avoids :
    (acc xs ys : List ℕ) → Avoids b'\n' xs → lines_from acc (xs ++ ys) ≡ lines_from (acc ++ xs) ys
unfolding lines_from
lines-Avoids acc [] ys a = rw (append-nil acc) refl
lines-Avoids acc (x ∷ xs) ys a =
    ground (arith, a.0, lines-Avoids (acc ++ x ∷ []) xs ys a.1, append_assoc acc (x ∷ []) xs)

pub lines-at :
    (acc xs ys : List ℕ)
    → Avoids b'\n' xs
    → lines_from acc (xs ++ b'\n' ∷ ys) ≡ (acc ++ xs) ∷ lines_from [] ys
unfolding lines_from
lines-at acc xs ys a = lines-Avoids acc xs (b'\n' ∷ ys) a ∙ ground arith

-- Everything that was read.
abbrev pub join_reads : List (List ℕ) → List ℕ
join_reads [] = []
join_reads (r ∷ rs) = r ++ join_reads rs

-- No read holds the byte.
abbrev pub AllAvoid : ℕ → List (List ℕ) → Type 0
AllAvoid c [] = Unit {0}
AllAvoid c (r ∷ rs) = Avoids c r × AllAvoid c rs

pub content-append : (xs ys : StringBuf) → content (xs ++ ys) ≡ content xs ++ content ys
unfolding content
content-append [] ys = refl
content-append (x ∷ xs) ys = rw (content-append xs ys, append_assoc x.str (content xs) (content ys))

pub Clean-append : (xs ys : StringBuf) → Clean xs → Clean ys → Clean (xs ++ ys)
Clean-append [] ys c d = d
Clean-append (x ∷ xs) ys c d = (c.0, c.1, Clean-append xs ys c.2 d)

pub Avoids-take : (c n : ℕ) (xs : List ℕ) → Avoids c xs → Avoids c (take n xs)
Avoids-take c zero xs a = tt
Avoids-take c (suc n) [] a = tt
Avoids-take c (suc n) (x ∷ xs) a = (a.0, Avoids-take c n xs a.1)

pub Avoids-drop : (c n : ℕ) (xs : List ℕ) → Avoids c xs → Avoids c (drop n xs)
Avoids-drop c zero xs a = a
Avoids-drop c (suc n) [] a = tt
Avoids-drop c (suc n) (x ∷ xs) a = Avoids-drop c n xs a.1

pub one_node : (xs : List ℕ) → content (record { str = xs; len = length xs } ∷ []) ≡ xs
unfolding content
one_node xs = append-nil xs

-- A push of a text without a NUL.
push_node :
    (buf : StringBuf) (xs : List ℕ)
    → Avoids 0 xs
    → string_buf_push buf xs ≡ buf ++ record { str = xs; len = length xs } ∷ []
unfolding string_buf_push
push_node buf xs a = rw (c_str_all xs a) refl

push-content :
    (buf : StringBuf) (xs : List ℕ)
    → Avoids 0 xs
    → content (string_buf_push buf xs) ≡ content buf ++ xs
push-content buf xs a =
    ap content (push_node buf xs a)
    ∙ content-append buf _
    ∙ ap (λ r. content buf ++ r) (one_node xs)

push-Clean :
    (buf : StringBuf) (xs : List ℕ) → Clean buf → Avoids 0 xs → Clean (string_buf_push buf xs)
push-Clean buf xs c a = rw (push_node buf xs a) (Clean-append buf _ c (refl, a, tt))

pub dump_text :
    (buf : StringBuf)
    → Clean buf
    → (string_buf_dump buf ≡ some (content buf ++ 0 ∷ [], []))
      × (c_str (content buf ++ 0 ∷ []) ≡ content buf)
dump_text buf c = (dump-content buf c, c_str-Avoids (content buf) [] (content-Avoids buf c))

pub take_line-content :
    (buf : StringBuf) (xs : List ℕ)
    → Clean buf
    → Avoids 0 xs
    → take_line buf xs ≡ some (content buf ++ xs)
unfolding take_line content
take_line-content [] xs c a = ground (arith, c_str_all xs a)
take_line-content (b ∷ bs) xs c a =
    let (run, text) = dump_text (string_buf_push (b ∷ bs) xs) (push-Clean (b ∷ bs) xs c a) in
    rw (run, text, push-content (b ∷ bs) xs a) refl

pub lpush_node :
    (buf : StringBuf) (xs : List ℕ)
    → Avoids 0 xs
    → string_buf_lpush buf xs (length xs) ≡ buf ++ record { str = xs; len = length xs } ∷ []
unfolding string_buf_lpush
lpush_node buf xs a = rw (take_all xs, c_str_all xs a) refl

-- What holds of a stream between the reads: its lines and what it buffers, with `rest` still to be
-- read, give the lines `all`.
pub record Goes (all : List (List ℕ)) (rest : List ℕ) (s : Stream) : Type 0 where
  pub buf : StringBuf
  pub kept : s.output_buf ≡ some buf
  pub clean : Clean buf
  pub lines : s.emitted ++ lines_from (content buf) rest ≡ all

pub one_buffer :
    (s : Stream) {a b : StringBuf} → s.output_buf ≡ some a → s.output_buf ≡ some b → a ≡ b
one_buffer s e f = cc
