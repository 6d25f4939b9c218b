-- ===== src/Output.antt =====
-- Lines from a child process: string_buf.c, and of spawn.c `output_handler` and what
-- `sigchld_handler` does with one of the two streams. `none` is a fault, a read or a write past a
-- buffer. The listeners of a signal are a parameter: whether they go on after what was emitted.
pub mod Dump
pub mod Pieces
pub mod Lines
use deai.Common.{
  ℕ, zero, suc, ◌+◌, Bool, true, false, List, [], ◌∷◌, ◌++◌, Option, none, some, length, take, drop,
  leb, if◌then◌else◌, ◌>>=◌, ◌>>◌, check,
}
use mathlib.Core.Option
use deai.Common.Buffer.{Buffer, malloc, memcpy, read_all}
use deai.Text.{memchr, c_str}

-- struct string_buf_node: `str` are the bytes before the NUL that ends the copy.
pub record Node : Type 0 where
  pub str : List ℕ
  pub len : ℕ

-- The nodes from `head` to `tail`.
abbrev pub StringBuf : Type 0
StringBuf = List Node

unfoldable pub string_buf_push : StringBuf → List ℕ → StringBuf
unfolding c_str
string_buf_push buf str = buf ++ record { str = c_str str; len = length (c_str str) } ∷ []

-- strndup stops at a NUL, and `len` is stored as it was given.
unfoldable pub string_buf_lpush : StringBuf → List ℕ → ℕ → StringBuf
unfolding c_str
string_buf_lpush buf str len = buf ++ record { str = c_str (take len str); len = len } ∷ []

unfoldable pub string_buf_is_empty : StringBuf → Bool
string_buf_is_empty [] = true
string_buf_is_empty (n ∷ ns) = false

unfoldable pub string_buf_clear : StringBuf → StringBuf
string_buf_clear buf = []

unfoldable pub string_buf_new : StringBuf
string_buf_new = []

-- The sum of the strlen of all nodes.
unfoldable pub dump_size : StringBuf → ℕ
dump_size [] = 0
dump_size (n ∷ ns) = length n.str + dump_size ns

-- The `len` bytes that are copied from a node, whose memory ends with the NUL.
unfoldable pub node_bytes : Node → Option (List ℕ)
node_bytes n = if leb n.len (length n.str + 1) then some (take n.len (n.str ++ 0 ∷ [])) else none

-- The second loop of `string_buf_dump`, and the NUL at its end.
unfoldable pub dump_loop : Buffer → ℕ → StringBuf → Option Buffer
unfolding memcpy node_bytes
dump_loop ret pos [] = memcpy ret pos (0 ∷ [])
dump_loop ret pos (n ∷ ns) =
    node_bytes n >>= λ bytes. memcpy ret pos bytes >>= λ more. dump_loop more (pos + n.len) ns

-- All of the memory that is returned; the buffer is then empty.
unfoldable pub string_buf_dump : StringBuf → Option (List ℕ × StringBuf)
unfolding dump_size dump_loop malloc read_all
string_buf_dump buf = do
  ret ← dump_loop (malloc (dump_size buf + 1)) 0 buf
  out ← read_all ret
  some (out, [])

-- What the code keeps for one stream, and the lines that it emitted. `output_buf` is null when
-- nobody listens.
pub record Stream : Type 0 where
  pub output_buf : Option StringBuf
  pub emitted : List (List ℕ)

-- The line that ends with the byte before `eol`, with what was buffered before.
unfoldable pub take_line : StringBuf → List ℕ → Option (List ℕ)
unfolding string_buf_is_empty
take_line buf pos =
    if string_buf_is_empty buf
    then some (c_str pos)
    else string_buf_dump (string_buf_push buf pos) >>= λ r. some (c_str r.0)

-- `di_delete_member` of the signal, whose deleter frees the buffer, or nothing
abbrev pub stop : Bool → Stream → Stream
stop true s = record s { output_buf = none }
stop false s = s

module _ (goes_on : List (List ℕ) → Bool) where
  abbrev pub emit : List ℕ → Stream → Stream
  emit line s = record s {
    output_buf = if goes_on (s.emitted ++ line ∷ []) then some [] else none;
    emitted = s.emitted ++ line ∷ [];
  }

  -- The loop over the bytes of one read, on fuel for the lines in them. `false` is the return when
  -- the listeners have stopped.
  unfoldable pub scan_read : ℕ → List ℕ → Stream → Option (Bool × Stream)
  unfolding memchr take_line string_buf_lpush
  scan_read zero pos s = none
  scan_read (suc n) pos s = do
    buf ← s.output_buf
    elim (memchr pos b'\n') [
      | none ↦ some (true, record s { output_buf = some (string_buf_lpush buf pos (length pos)) })
      | some eol ↦ take_line buf (take eol pos) >>= λ line. elim (emit line s).output_buf [
        | none ↦ some (false, emit line s)
        | some left ↦ scan_read n (drop (suc eol) pos) (emit line s)
      ]
    ]

  -- The reads until one gives nothing: at the end of the file, `closes`, the listeners are stopped, and
  -- what is buffered is freed; else the pipe is empty for now.
  unfoldable pub output_handler : Bool → List (List ℕ) → Stream → Option Stream
  unfolding scan_read
  output_handler closes [] s = some (stop closes s)
  output_handler closes (buf ∷ reads) s = do
    r ← scan_read (length buf + 1) buf s
    if r.0 then output_handler closes reads r.1 else some r.1

  -- The rest that is buffered when the child has exited is emitted as a line.
  unfoldable pub flush : Stream → Option Stream
  unfolding string_buf_is_empty string_buf_dump c_str
  flush s = elim s.output_buf [
    | none ↦ some s
    | some buf ↦
        if string_buf_is_empty buf
        then some s
        else string_buf_dump buf >>= λ r. some (emit (c_str r.0) s)
  ]

  -- The loop of `sigchld_handler` for one stream.
  unfoldable pub sigchld_handler : Bool → List (List ℕ) → Stream → Option Stream
  unfolding output_handler flush
  sigchld_handler closes reads s = elim s.output_buf [
    | none ↦ some s
    | some buf ↦ output_handler closes reads s >>= λ left. flush left
  ]
