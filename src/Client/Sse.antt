-- ===== src/Client/Sse.antt =====
-- cli/src/main.rs: the events cut from the stream of bytes, and what one event says. Text is the list of its
-- UTF-8 bytes; the standard library's lossy decoding of a chunk is a parameter.
pub mod Chunks
pub mod Framing
use correctness_bench.Common.{
  ℕ, zero, suc, Bool, true, false, ◌&&◌, Option, none, some, List, [], ◌∷◌, ◌++◌, Bytes, codes,
  ◌==◌, if◌then◌else◌, strip_prefix, trim_start, trim_end, is_empty, length,
}

-- `buf.find("\n\n")` and `buf.drain(..idx + 2)`: the block up to the first empty line, and what is left
unfoldable pub split_block : Bytes → Option (Bytes × Bytes)
split_block [] = none
split_block (a ∷ []) = none
split_block (a ∷ b ∷ s) =
    let later = split_block (b ∷ s) in
    if (a == b'\n') && (b == b'\n')
    then some (a ∷ b ∷ [], s)
    else elim later [ none ↦ none | some (block, rest) ↦ some (a ∷ block, rest) ]

-- the inner loop of `stream_ticks`: the blocks of the buffer, and the buffer after it
unfoldable pub drain : ℕ → Bytes → List Bytes × Bytes
unfolding split_block
drain zero buf = ([], buf)
drain (suc fuel) buf = elim (split_block buf) [
  | none ↦ ([], buf)
  | some (block, rest) ↦ let (blocks, end) = drain fuel rest in (block ∷ blocks, end)
]

-- A block takes two bytes of the buffer at least, so that its length is fuel enough.
unfoldable pub drain_all : Bytes → List Bytes × Bytes
unfolding drain
drain_all buf = drain (length buf) buf

-- `block.split('\n')`
unfoldable pub lines : Bytes → List Bytes
lines [] = [] ∷ []
lines (c ∷ s) =
    let rest = lines s in
    if c == b'\n' then [] ∷ rest else elim rest [ [] ↦ (c ∷ []) ∷ [] | l ∷ ls ↦ (c ∷ l) ∷ ls ]

pub record SseEvent : Type 0 where
  pub name : Bytes
  pub data_ : Bytes

-- a line of a block, without the carriage returns at its end
unfoldable pub read_trimmed : Bytes → SseEvent → SseEvent
read_trimmed line e = elim (strip_prefix (codes "data:") line) [
  | some d ↦ record e {
    data_ = (if is_empty e.data_ then [] else e.data_ ++ (b'\n' ∷ [])) ++ trim_start b' ' d;
  }
  | none ↦ elim (strip_prefix (codes "event:") line) [
    | some n ↦ record e { name = trim_start b' ' n }
    | none ↦ e
  ]
]

unfoldable pub read_line : Bytes → SseEvent → SseEvent
unfolding read_trimmed
read_line line e = read_trimmed (trim_end b'\r' line) e

unfoldable pub read_lines : List Bytes → SseEvent → SseEvent
unfolding read_line
read_lines [] e = e
read_lines (l ∷ ls) e = read_lines ls (read_line l e)

unfoldable pub parse_sse : Bytes → Option SseEvent
unfolding lines read_lines
parse_sse block =
    let e = read_lines (lines block) (record { name = codes "message"; data_ = [] }) in
    if is_empty e.data_ then none else some e
