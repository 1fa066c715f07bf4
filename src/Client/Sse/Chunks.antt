-- ===== src/Client/Sse/Chunks.antt =====
-- The blocks of a stream do not depend on how it is cut into chunks (`stream_ticks`, cli/src/main.rs).
use mathlib.Core.List.{append_assoc, append-nil}
use correctness_bench.Common.{
  ℕ, zero, suc, ◌≤◌, ◌<◌, ◌≡◌, refl, sym, ap, ◌∙◌, none, some, List, [], ◌∷◌, ◌++◌, Bytes, arith,
  Option-cases, inl, inr, length,
}
use correctness_bench.Client.Sse.{split_block, drain, drain_all}

split_block-append :
    (s y b r : Bytes) → split_block s ≡ some (b, r) → split_block (s ++ y) ≡ some (b, r ++ y)
unfolding split_block
split_block-append [] y b r e = ground (arith, e)
split_block-append (c ∷ []) y b r e = ground (arith, e)
split_block-append (c ∷ d ∷ s) y b r e = elim (Option-cases (split_block (d ∷ s))) [
  | inl none_yet ↦ ground (arith, e, none_yet)
  | inr ((b', r'), found) ↦ ground (arith, e, found, split_block-append (d ∷ s) y b' r' found)
]

split_block-length : (s b r : Bytes) → split_block s ≡ some (b, r) → length r < length s
unfolding split_block
split_block-length [] b r e = ground (arith, e)
split_block-length (c ∷ []) b r e = ground (arith, e)
split_block-length (c ∷ d ∷ s) b r e = elim (Option-cases (split_block (d ∷ s))) [
  | inl none_yet ↦ ground (arith, e, none_yet)
  | inr ((b', r'), found) ↦ ground (arith, e, found, split_block-length (d ∷ s) b' r' found)
]

drain-some :
    (n : ℕ) (s b r : Bytes)
    → split_block s ≡ some (b, r)
    → drain (suc n) s ≡ (b ∷ (drain n r).0, (drain n r).1)
unfolding drain
drain-some n s b r e = rw (drain, e) refl

drain-none : (n : ℕ) (s : Bytes) → split_block s ≡ none → drain n s ≡ ([], s)
unfolding drain
drain-none zero s e = refl
drain-none (suc n) s e = rw (drain, e) refl

-- More fuel than the length of the buffer changes nothing.
drain-enough : (n m : ℕ) (s : Bytes) → length s ≤ n → length s ≤ m → drain n s ≡ drain m s
unfolding split_block drain
drain-enough zero m [] le le' = sym (drain-none m [] refl)
drain-enough zero m (c ∷ s) le le' = absurd (omega arith)
drain-enough (suc n) zero [] le le' = drain-none (suc n) [] refl
drain-enough (suc n) zero (c ∷ s) le le' = absurd (omega arith)
drain-enough (suc n) (suc m) s le le' = elim (Option-cases (split_block s)) [
  | inl none_yet ↦ drain-none (suc n) s none_yet ∙ sym (drain-none (suc m) s none_yet)
  | inr ((b, r), found) ↦
      let shorter = split_block-length s b r found in
      let rest = drain-enough n m r (omega arith) (omega arith) in
      rw (drain-some n s b r found, drain-some m s b r found, rest) refl
]

pub drain_all-some :
    (s b r : Bytes)
    → split_block s ≡ some (b, r)
    → drain_all s ≡ (b ∷ (drain_all r).0, (drain_all r).1)
unfolding drain_all
drain_all-some s b r found =
    let shorter = split_block-length s b r found in
    let rest = drain-enough (length s) (length r) r (omega arith) (omega arith) in
    drain-enough (length s) (suc (length s)) s (omega arith) (omega arith)
    ∙ drain-some (length s) s b r found
    ∙ ap (λ p. (b ∷ p.0, p.1)) rest

pub drain_all-none : (s : Bytes) → split_block s ≡ none → drain_all s ≡ ([], s)
unfolding drain_all
drain_all-none s e = drain-none (length s) s e

-- What is read later only follows on what is left of the buffer.
drain_all-append :
    (n : ℕ) (s y : Bytes)
    → length s ≤ n
    → let (before, kept) = drain n s in
      let (after, end) = drain_all (kept ++ y) in drain_all (s ++ y) ≡ (before ++ after, end)
unfolding drain
drain_all-append zero s y le = refl
drain_all-append (suc n) s y le = elim (Option-cases (split_block s)) [
  | inl none_yet ↦ rw (drain-none (suc n) s none_yet) refl
  | inr ((b, r), found) ↦
      let shorter = split_block-length s b r found in
      let more = drain_all-some (s ++ y) b (r ++ y) (split_block-append s y b r found) in
      rw (drain-some n s b r found, more, drain_all-append n r y (omega arith)) refl
]

-- No block is left in the buffer.
drain-rest : (n : ℕ) (s : Bytes) → length s ≤ n → split_block (drain n s).1 ≡ none
unfolding split_block drain
drain-rest zero [] le = refl
drain-rest zero (c ∷ s) le = absurd (omega arith)
drain-rest (suc n) s le = elim (Option-cases (split_block s)) [
  | inl none_yet ↦ rw (drain-none (suc n) s none_yet) none_yet
  | inr ((b, r), found) ↦
      let shorter = split_block-length s b r found in
      rw (drain-some n s b r found) (drain-rest n r (omega arith))
]

abbrev pub concat : List Bytes → Bytes
concat [] = []
concat (c ∷ cs) = c ++ concat cs

-- The blocks of the chunks so far, and the buffer, if each chunk is read as it comes.
unfoldable pub drain_chunks : List Bytes → Bytes → List Bytes × Bytes
drain_chunks [] buf = ([], buf)
drain_chunks (c ∷ chunks) buf =
    let (blocks, kept) = drain_all (buf ++ c) in
    let (more, end) = drain_chunks chunks kept in (blocks ++ more, end)

-- What the client takes from the stream, and what it keeps for later, is the same however the stream is
-- cut into chunks: it is what it would take from the whole stream at once.
pub drain_chunks-concat :
    (chunks : List Bytes) (buf : Bytes)
    → split_block buf ≡ none
    → drain_chunks chunks buf ≡ drain_all (buf ++ concat chunks)
unfolding drain_chunks drain_all
drain_chunks-concat [] buf e = rw (append-nil buf) (sym (drain_all-none buf e))
drain_chunks-concat (c ∷ chunks) buf e =
    let s = buf ++ c in
    let here = drain_all-append (length s) s (concat chunks) (omega arith) in
    let later =
      drain_chunks-concat chunks (drain_all s).1 (drain-rest (length s) s (omega arith)) in
    rw (later, sym (append_assoc buf c (concat chunks)), here) refl
