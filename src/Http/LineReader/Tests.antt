-- ===== src/Http/LineReader/Tests.antt =====
-- The line reader at concrete inputs: src/http/line_reader.cpp.
use carafe.Base.{
  ℕ, zero, suc, none, some, [], ◌∷◌, ◌++◌, ◌≡◌, refl, inl, arith, Bytes, codes, replicate,
  length-replicate,
}
use carafe.Http.LineReader.{
  LineReader, line_too_long, no_line, line, find_crlf, max_line_length, empty_reader, next_line,
}
use carafe.Http.LineReader.History.{
  appends, next_lines, takes, discards, appended, line_result, taken, discarded, run, run_bytes,
  run-run_bytes,
}
use carafe.Http.LineReader.Refinement.{IsValid}
use carafe.Http.LineReader.Delivery.{next_line_split_terminator}

-- A terminator that arrives in two pieces.
abbrev dribbled : LineReader
dribbled = record { buffer = codes "a\r"; begin = 0; scanned = 1 }

run_calls :
    run empty_reader (
      appends (codes "a\r")
      ∷ next_lines
      ∷ appends (codes "\nbody\r\n")
      ∷ next_lines
      ∷ takes 2
      ∷ discards 9
      ∷ [])
    ≡ appended
      ∷ line_result no_line
      ∷ appended
      ∷ line_result (line (codes "a"))
      ∷ taken (some (codes "bo"))
      ∷ discarded 4
      ∷ []
unfolding run
run_calls = refl

dribbled-IsValid : IsValid dribbled
dribbled-IsValid = record {
  cleared = 1;
  begin_le = omega arith;
  scanned_is = omega arith;
  cleared_lt = omega arith;
  clear = (refl, tt);
}

abbrev whole : LineReader
whole = record { buffer = codes "GET\r\nx"; begin = 0; scanned = 0 }

fresh-IsValid : (s : Bytes) → IsValid (record { buffer = s; begin = 0; scanned = 0 })
fresh-IsValid s = record {
  cleared = 0;
  begin_le = omega arith;
  scanned_is = omega arith;
  cleared_lt = inl refl;
  clear = tt;
}

find_crlf-replicate : (n : ℕ) → find_crlf (replicate n b'a') ≡ none
unfolding find_crlf
find_crlf-replicate zero = refl
find_crlf-replicate (suc zero) = refl
find_crlf-replicate (suc (suc n)) = ground (arith, find_crlf-replicate (suc n))

full_line : ℕ → Bytes
full_line n = replicate n b'a'

next_line_split_terminator_example :
    (next_line
      (record { buffer = full_line max_line_length ++ b'\r' ∷ []; begin = 0; scanned = 0 })).1
    ≡ line_too_long
unfolding full_line
next_line_split_terminator_example =
    (next_line_split_terminator
      (record { buffer = full_line max_line_length ++ b'\r' ∷ []; begin = 0; scanned = 0 })
      (full_line max_line_length) (fresh-IsValid _) refl (find_crlf-replicate max_line_length)
      (length-replicate {A = ℕ} max_line_length b'a')).0

run-run_bytes_example :
    run empty_reader (appends (codes "a\r\nb") ∷ next_lines ∷ [])
    ≡ run_bytes [] (appends (codes "a\r\nb") ∷ next_lines ∷ [])
run-run_bytes_example = run-run_bytes (appends (codes "a\r\nb") ∷ next_lines ∷ [])
