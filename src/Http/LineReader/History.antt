-- ===== src/Http/LineReader/History.antt =====
-- Any history of calls on a `LineReader`, against the same history on a plain byte string.
use carafe.Base.{ℕ, Option, List, [], ◌∷◌, ◌++◌, ◌≡◌, refl, ap, inl, arith, Bytes}
use carafe.Http.LineReader
use carafe.Http.LineReader.{LineReader, LineResult, empty_reader, append, next_line, discard}
use carafe.Http.LineReader.Refinement.{
  IsValid, pending, read_line, take_bytes, discard_bytes, next_line-read_line, take-take_bytes,
  discard-discard_bytes, append-pending,
}

pub data Call : Type 0 where
  appends : Bytes → Call
  next_lines : Call
  takes : ℕ → Call
  discards : ℕ → Call

-- What a call returns.
pub data Answer : Type 0 where
  appended : Answer
  line_result : LineResult → Answer
  taken : Option Bytes → Answer
  discarded : ℕ → Answer

pub call : LineReader → Call → LineReader × Answer
call r (appends bytes) = (append r bytes, appended)
call r next_lines = let (q, a) = next_line r in (q, line_result a)
call r (takes n) = let (q, a) = LineReader.take r n in (q, taken a)
call r (discards n) = let (q, a) = discard r n in (q, discarded a)

unfoldable pub run : LineReader → List Call → List Answer
unfolding call LineReader.append LineReader.next_line LineReader.take LineReader.discard
run r [] = []
run r (c ∷ cs) = let (q, a) = call r c in a ∷ run q cs

-- The same calls on the bytes alone: no offsets, no compaction, every search from the start.
pub call_bytes : Bytes → Call → Bytes × Answer
call_bytes p (appends bytes) = (p ++ bytes, appended)
call_bytes p next_lines = let (q, a) = read_line p in (q, line_result a)
call_bytes p (takes n) = let (q, a) = take_bytes p n in (q, taken a)
call_bytes p (discards n) = let (q, a) = discard_bytes p n in (q, discarded a)

pub run_bytes : Bytes → List Call → List Answer
unfolding call_bytes
run_bytes p [] = []
run_bytes p (c ∷ cs) = let (q, a) = call_bytes p c in a ∷ run_bytes q cs

pub empty_reader-IsValid : IsValid empty_reader
empty_reader-IsValid = record {
  cleared = 0;
  begin_le = omega arith;
  scanned_is = omega arith;
  cleared_lt = inl refl;
  clear = tt;
}

call-call_bytes :
    (r : LineReader) (c : Call)
    → IsValid r
    → IsValid (call r c).0
      × (pending (call r c).0 ≡ (call_bytes (pending r) c).0)
      × ((call r c).1 ≡ (call_bytes (pending r) c).1)
unfolding call call_bytes
call-call_bytes r (appends bytes) v = let (w, p) = append-pending r bytes v in (w, p, refl)
call-call_bytes r next_lines v = let (w, p, a) = next_line-read_line r v in (w, p, ap line_result a)
call-call_bytes r (takes n) v = let (w, p, a) = take-take_bytes r n v in (w, p, ap taken a)
call-call_bytes r (discards n) v =
    let (w, p, a) = discard-discard_bytes r n v in (w, p, ap discarded a)

run-run_bytes_from :
    (cs : List Call) (r : LineReader) → IsValid r → run r cs ≡ run_bytes (pending r) cs
unfolding run run_bytes
run-run_bytes_from [] r v = refl
run-run_bytes_from (c ∷ cs) r v =
    let (w, p, a) = call-call_bytes r c v in
    rw (a, ← p) (ap (◌∷◌ (call_bytes (pending r) c).1) (run-run_bytes_from cs (call r c).0 w))

-- Any sequence of `append`, `next_line`, `take` and `discard` calls on a new `LineReader` gives
-- the answers that the same calls give on a plain byte string, where every search for a terminator
-- starts from the first byte not yet handed out.
pub run-run_bytes : (cs : List Call) → run empty_reader cs ≡ run_bytes [] cs
run-run_bytes cs = run-run_bytes_from cs empty_reader empty_reader-IsValid
