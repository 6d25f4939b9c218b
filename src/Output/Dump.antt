-- ===== src/Output/Dump.antt =====
-- `string_buf_dump` of string_buf.c against plain lists.
use deai.Common.{
  ℕ, zero, suc, ◌+◌, ◌≡◌, refl, ap, List, [], ◌∷◌, ◌++◌, some, arith, length, take, length-append,
  append_assoc,
}
use deai.Common.Buffer.{memcpy, filled, memcpy-filled, read_all-filled, malloc-filled}
use deai.Text.{c_str}
use deai.Text.Split.{Avoids}
use deai.Output.{Node, StringBuf, string_buf_dump, dump_size, dump_loop, node_bytes}

-- The text that a buffer holds.
unfoldable pub content : StringBuf → List ℕ
content [] = []
content (n ∷ ns) = n.str ++ content ns

-- Each node is as long as its text, in which no byte is NUL.
abbrev pub Clean : StringBuf → Type 0
Clean [] = Unit {0}
Clean (n ∷ ns) = (n.len ≡ length n.str) × Avoids 0 n.str × Clean ns

pub c_str-Avoids : (xs ys : List ℕ) → Avoids 0 xs → c_str (xs ++ 0 ∷ ys) ≡ xs
unfolding c_str
c_str-Avoids [] ys a = refl
c_str-Avoids (x ∷ xs) ys a = ground (arith, c_str-Avoids xs ys a.1, a.0)

pub c_str_all : (xs : List ℕ) → Avoids 0 xs → c_str xs ≡ xs
unfolding c_str
c_str_all [] a = refl
c_str_all (x ∷ xs) a = ground (arith, c_str_all xs a.1, a.0)

pub Avoids-append : (c : ℕ) (xs ys : List ℕ) → Avoids c xs → Avoids c ys → Avoids c (xs ++ ys)
Avoids-append c [] ys a b = b
Avoids-append c (x ∷ xs) ys a b = (a.0, Avoids-append c xs ys a.1 b)

pub content-Avoids : (buf : StringBuf) → Clean buf → Avoids 0 (content buf)
unfolding content
content-Avoids [] c = tt
content-Avoids (n ∷ ns) c = Avoids-append 0 n.str (content ns) c.1 (content-Avoids ns c.2)

take-front : (xs ys : List ℕ) (n : ℕ) → n ≡ length xs → take n (xs ++ ys) ≡ xs
take-front [] ys zero e = refl
take-front [] ys (suc n) e = absurd (omega arith)
take-front (x ∷ xs) ys zero e = absurd (omega arith)
take-front (x ∷ xs) ys (suc n) e = ap (λ r. x ∷ r) (take-front xs ys n (omega arith))

node_bytes-Clean : (n : Node) → n.len ≡ length n.str → node_bytes n ≡ some n.str
unfolding node_bytes
node_bytes-Clean n e = ground (arith, e, take-front n.str (0 ∷ []) n.len e)

size-content : (buf : StringBuf) → dump_size buf ≡ length (content buf)
unfolding dump_size content
size-content [] = refl
size-content (n ∷ ns) = omega (arith, size-content ns, length-append n.str (content ns))

memcpy-at :
    (xs ys : List ℕ) (n k pos : ℕ)
    → pos ≡ length xs
    → n ≡ length ys + k
    → memcpy (filled xs n) pos ys ≡ some (filled (xs ++ ys) k)
memcpy-at xs ys n k pos p e = rw p (memcpy-filled xs ys n k e)

dump_loop-filled :
    (xs : List ℕ) (n pos : ℕ) (buf : StringBuf)
    → Clean buf
    → pos ≡ length xs
    → n ≡ length (content buf) + 1
    → dump_loop (filled xs n) pos buf ≡ some (filled (xs ++ (content buf ++ 0 ∷ [])) 0)
unfolding dump_loop content
dump_loop-filled xs n pos [] c p e = memcpy-at xs (0 ∷ []) n 0 pos p (omega (arith, e))
dump_loop-filled xs n pos (b ∷ bs) c p e =
    let k = length (content bs) + 1 in
    rw
      (
        node_bytes-Clean b c.0,
        memcpy-at xs b.str n k pos p (omega (arith, e, length-append b.str (content bs))),
        dump_loop-filled (xs ++ b.str) k (pos + b.len) bs c.2
            (omega (arith, length-append xs b.str, c.0, p)) refl,
      )
      (ap (λ zs. some (filled zs 0)) (simp append_assoc))

-- A buffer of clean nodes is dumped into memory of just the right size: the texts of the nodes one
-- after the other, and a NUL.
pub dump-content :
    (buf : StringBuf) → Clean buf → string_buf_dump buf ≡ some (content buf ++ 0 ∷ [], [])
unfolding string_buf_dump
dump-content buf c = rw (
  malloc-filled (dump_size buf + 1),
  dump_loop-filled [] (dump_size buf + 1) 0 buf c refl (omega (arith, size-content buf)),
  read_all-filled (content buf ++ 0 ∷ []),
)
