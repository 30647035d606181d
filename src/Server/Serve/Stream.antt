-- ===== src/Server/Serve/Stream.antt =====
-- `serve_connection` of src/server/serve.cpp on a connection: the answers follow from the bytes that
-- arrive, and not from the reads that bring them.
use carafe.Base.{
  ℕ, zero, suc, Bool, Option, some, List, [], ◌∷◌, ◌++◌, map, ◌≡◌, refl, sym, ap, ◌∙◌, inl, inr,
  Bytes, Option-cases, append_assoc, length,
}
use carafe.Http.LineReader.History.{empty_reader-IsValid}
use carafe.Http.LineReader.Refinement.{IsValid, pending}
use carafe.Http.ReaderState.{RequestReader, new_reader, RequestResult, complete}
use carafe.Http.Request.{Request}
use carafe.Http.RequestReader.Stable.{reports, reports-append}
use carafe.Http.RequestReader.Stream.{blank}
use carafe.Net.Socket.{read}
use carafe.Server.Config.{Deadlines}
use carafe.Server.Connection.{received, Connection, ReadTurn, new_connection, next_request}
use carafe.Server.Connection.Whole.{chunks, chunk_bytes, next_request-Parses}
use carafe.Server.Pipeline.{Pipeline}
use carafe.Server.Serve.{serve_connection, turns_of}
use carafe.Server.Serve.Order.{arrived, reply, answered, serve_connection-arrived}

abbrev more_requests :
    (RequestReader → Bytes → List Request)
    → Option (RequestReader × Bytes × RequestResult)
    → List Request
more_requests later (some (q, left, complete request)) = request ∷ later q left
more_requests later _ = []

-- The first requests that a reader hands over when it has all the bytes at once, `n` at most.
abbrev pub requests : ℕ → RequestReader → Bytes → List Request
requests zero r bytes = []
requests (suc n) r bytes = more_requests (requests n) (reports r bytes)

chunks-append : (used later : List ReadTurn) → chunks (used ++ later) ≡ chunks used ++ chunks later
chunks-append [] later = refl
chunks-append (turn ∷ used) later =
    ap (λ s. chunk_bytes (read turn.recvs) ++ s) (chunks-append used later)
    ∙ sym (append_assoc (chunk_bytes (read turn.recvs)) (chunks used) (chunks later))

turns_of-requests :
    (writes : List Bool) (turns : List ReadTurn) (conn : Connection) (found : List Request)
    → IsValid conn.reader.line_reader
    → turns_of writes turns conn ≡ map arrived found
    → found
      ≡ requests
          (length found)
          (blank conn.reader)
          (pending conn.reader.line_reader ++ chunks turns)
unfolding turns_of
turns_of-requests writes turns conn [] v e = refl
turns_of-requests [] turns conn (request ∷ found) v e = absurd (cc)
turns_of-requests (written ∷ writes) turns conn (request ∷ found) v e =
    elim (Option-cases (next_request turns conn)) [
      | inl n ↦ absurd (cc (rw (n, turns_of) at e))
      | inr ((after, result, later), f) ↦
          let split = rw (f, turns_of) at e in
          let what : result ≡ received request = cc in
          let rest : turns_of writes later after ≡ map arrived found = cc in
          let p =
            next_request-Parses turns later conn after result (complete request) v f
              (rw what refl) in
          let whole =
            reports-append conn.reader (blank after.reader) (chunks p.used)
              (pending after.reader.line_reader) (chunks later) request v p.whole in
          let bytes : pending conn.reader.line_reader ++ chunks p.used ++ chunks later
              ≡ pending conn.reader.line_reader ++ chunks turns =
            append_assoc (pending conn.reader.line_reader) (chunks p.used) (chunks later)
            ∙ ap (λ s. pending conn.reader.line_reader ++ s)
                (sym (chunks-append p.used later) ∙ ap chunks (sym p.split)) in
          let tail = turns_of-requests writes later after found p.valid rest in
          ap (◌∷◌ request) tail
          ∙ sym (
              ap (more_requests (requests (length found)))
                (ap (reports (blank conn.reader)) (sym bytes) ∙ whole))
    ]

-- If each round of `serve_connection` on a new connection hands over a request and can write its
-- answer, then what is written is, in order, for each request up to the first that asks to close
-- the serialized response of the pipeline, with "connection: close" where the request asks to
-- close, and without its body where the method is HEAD; and the requests are those that a new
-- request reader hands over when it has all the bytes of the reads at once.
pub serve_connection-requests :
    (pipeline : Pipeline) (deadlines : Deadlines) (writes : List Bool) (turns : List ReadTurn)
    (found : List Request)
    → turns_of writes turns (new_connection deadlines) ≡ map arrived found
    → serve_connection pipeline (turns_of writes turns (new_connection deadlines))
      ≡ map (reply pipeline) (answered (requests (length found) new_reader (chunks turns)))
serve_connection-requests pipeline deadlines writes turns found e =
    ap (serve_connection pipeline) e
    ∙ serve_connection-arrived pipeline found
    ∙ ap (λ requests. map (reply pipeline) (answered requests))
        (turns_of-requests writes turns (new_connection deadlines) found empty_reader-IsValid e)
