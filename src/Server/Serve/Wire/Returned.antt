-- ===== src/Server/Serve/Wire/Returned.antt =====
-- `serve_connection` of src/server/serve.cpp is not held up by a client that does not read.
use carafe.Base.{
  ℕ, ◌+◌, ◌*◌, ◌<◌, true, false, Bool, ◌&&◌, Option, some, List, [], ◌∷◌, ◌++◌, ◌≡◌, refl, sym,
  subst, inl, inr, ◌==◌, Bytes, All, Bool-cases, Option-cases,
}
use carafe.Net.Socket.{WriteRound, Written}
use carafe.Net.Socket.Returned.{SendHonours, WriteReturns, write-WriteReturns}
use carafe.Server.Config.{Deadlines}
use carafe.Server.Connection.{Connection, ReadTurn, next_request, write}
use carafe.Server.Connection.Kept.{next_request-deadlines}
use carafe.Server.Pipeline.{Pipeline}
use carafe.Server.Serve.Wire.{WriteTurn, Wire, silent, behind, use_written, send, serve_wire}

-- The kernel keeps its promise for `send`, and some round begins less than a millisecond before the limit of the write, or later.
pub record Expires (limit : ℕ) (out : WriteTurn) : Type 0 where
  pub early : List WriteRound
  pub last : WriteRound
  pub rounds_are : out.rounds ≡ early ++ last ∷ []
  pub honours : All SendHonours early
  pub late : out.started + limit * 1000000 < last.now + 1000000

abbrev pub WireEnds : Option Wire → Type 0
WireEnds o = (w : Wire) × (o ≡ some w)

behind-WireEnds : (taken : Bytes) (o : Option Wire) → WireEnds o → WireEnds (behind taken o)
behind-WireEnds taken o (w, e) = rw e (_, refl)

use_written-WireEnds :
    (goes_on : Bool) (later : Option Wire) (o : Option Written)
    → WireEnds later
    → WriteReturns o
    → WireEnds (use_written goes_on later o)
use_written-WireEnds goes_on later o h (w, e) = elim (Bool-cases (w.os_error == 0 && goes_on)) [
  | inl on ↦ rw (e, on) (behind-WireEnds w.taken later h)
  | inr off ↦ rw (e, off) (_, refl)
]

send-WireEnds :
    (conn : Connection) (out : WriteTurn) (later : Option Wire) (say : List Bytes × Bool)
    → Expires conn.deadlines.request out
    → WireEnds later
    → WireEnds (send conn out later say)
send-WireEnds conn out later ([], true) x h = h
send-WireEnds conn out later ([], false) x h = (silent, refl)
send-WireEnds conn out later (bytes ∷ more, goes_on) x h =
    use_written-WireEnds goes_on later (write conn out.started out.rounds bytes) h (
      rw x.rounds_are (
        write-WriteReturns out.started x.early x.last bytes conn.deadlines.request x.honours
          x.late))

-- On any connection and any reads, if each `send` under a timeout that is not zero reports
-- something, and each write meets a round that begins less than a millisecond before the request's
-- limit is over for it, or later, then all writes end, whatever the kernel took.
pub serve_wire-WireEnds :
    (pipeline : Pipeline) (outs : List WriteTurn) (reads : List ReadTurn) (conn : Connection)
    → All (Expires conn.deadlines.request) outs
    → WireEnds (serve_wire pipeline outs reads conn)
unfolding serve_wire
serve_wire-WireEnds pipeline [] reads conn xs = (silent, refl)
serve_wire-WireEnds pipeline (out ∷ outs) reads conn (x, xs) =
    elim (Option-cases (next_request reads conn)) [
      | inl waits ↦ rw (waits, serve_wire) (silent, refl)
      | inr ((after, result, later), e) ↦
          let same = sym (next_request-deadlines reads later conn after result e) in
          let (y, ys) =
            subst (λ (ls : Deadlines). All (Expires ls.request) (out ∷ outs)) same (x, xs) in
          rw (e, serve_wire)
            (send-WireEnds after out (serve_wire pipeline outs later after) _ y
              (serve_wire-WireEnds pipeline outs later after ys))
    ]
