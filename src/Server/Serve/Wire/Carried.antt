-- ===== src/Server/Serve/Wire/Carried.antt =====
-- What reaches the client is the answers of `serve_connection` in src/server/serve.cpp, or the
-- beginning of them.
use carafe.Base.{
  ℕ, true, false, Bool, ◌&&◌, Option, none, some, List, [], ◌∷◌, ◌++◌, ◌≡◌, ◌↔◌, refl, sym, ap,
  subst, ◌∙◌, inl, inr, arith, ◌==◌, if◌then◌else◌, Bytes, All, ==_iff, ◌+◌, ◌*◌, Bool-cases,
  Option-cases, append_assoc, append-nil, length, replicate, map,
}
use carafe.Net.Socket.{Written}
use carafe.Net.Socket.Transfer
use carafe.Net.Socket.Transfer.{HasErrno, write-Delivers}
use carafe.Server.Connection.{
  ConnectionResult, read_failed, request_failed, finished, received, Connection, ReadTurn,
  new_connection, next_request, write,
}
use carafe.Server.Connection.Arrival.{Delivers}
use carafe.Server.Connection.Whole.{chunks}
use carafe.Server.Pipeline.{Pipeline}
use carafe.Server.Serve.{serve_turn, serve_connection, turns_of, timed_out}
use carafe.Server.Serve.Answered.{texts, requests_of, serve_connection-texts}
use carafe.Server.Serve.Order.{reply, answered}
use carafe.Http.RequestReader.Printed.{Message, IsSendable}
use carafe.Server.Config.{Deadlines}
use carafe.Server.Serve.Wire.{WriteTurn, Wire, silent, behind, use_written, send, serve_wire}

abbrev pub joined : List Bytes → Bytes
joined [] = []
joined (bytes ∷ answers) = bytes ++ joined answers

-- A prefix, and all of it if no write failed.
pub record Carries (answers : Bytes) (w : Wire) : Type 0 where
  pub rest : Bytes
  pub split : w.taken ++ rest ≡ answers
  pub whole : (w.failed ≡ 0) ↔ (rest ≡ [])

-- A round says one thing at most, and ends the connection if it says nothing.
left_nil : (a b : Bytes) → a ++ b ≡ [] → a ≡ []
left_nil [] b e = refl
left_nil (x ∷ a) b e = absurd (cc)

data Says : List Bytes × Bool → Type 0 where
  nothing : Says ([], false)
  one_answer : (bytes : Bytes) (goes_on : Bool) → Says (bytes ∷ [], goes_on)

said :
    (pipeline : Pipeline) (result : ConnectionResult) (request_in_progress written : Bool)
    → Says (
        serve_turn pipeline (record {
          result = result;
          request_in_progress = request_in_progress;
          written = written;
        }))
unfolding serve_turn
said pipeline (read_failed os_error) p w = elim (Bool-cases (timed_out os_error && p)) [
  | inl late ↦ rw (late, serve_turn) (one_answer _ false)
  | inr gone ↦ rw (gone, serve_turn) nothing
]
said pipeline (request_failed error c v) p w = one_answer _ _
said pipeline finished p w = nothing
said pipeline (received request) p w = one_answer _ _

same_wire : (v w : Wire) → some v ≡ some w → v ≡ w
same_wire v w e = cc

silent-Carries : Carries [] silent
silent-Carries = record { rest = []; split = refl; whole = (λ _. refl, λ _. refl) }

behind-Carries :
    (taken answers : Bytes) (later : Option Wire) (w : Wire)
    → ((v : Wire) → later ≡ some v → Carries answers v)
    → behind taken later ≡ some w
    → Carries (taken ++ answers) w
behind-Carries taken answers none w h e = absurd (cc)
behind-Carries taken answers (some v) w h e =
    let c = h v refl in
    subst (Carries (taken ++ answers)) (same_wire (record v { taken = taken ++ v.taken }) w e)
      (record {
        rest = c.rest;
        split = append_assoc taken v.taken c.rest ∙ ap (λ s. taken ++ s) c.split;
        whole = c.whole;
      })

-- A write that failed carries a part of its answer, and nothing behind it.
failed-Carries :
    (deadline : ℕ) (bytes tail : Bytes) (v : Written)
    → Transfer.Delivers deadline bytes v
    → (v.os_error == 0) ≡ false
    → Carries (bytes ++ tail) (record { taken = v.taken; failed = v.os_error })
failed-Carries deadline bytes tail v d f = record {
  rest = d.rest ++ tail;
  split = sym (append_assoc v.taken d.rest tail) ∙ ap (λ s. s ++ tail) d.split;
  whole = (λ e. absurd (ground arith), λ e. d.whole.1 (left_nil d.rest tail e));
}

whole-taken :
    (deadline : ℕ) (bytes : Bytes) (v : Written)
    → Transfer.Delivers deadline bytes v
    → (v.os_error == 0) ≡ true
    → v.taken ≡ bytes
whole-taken deadline bytes v d ok =
    sym (append-nil v.taken)
    ∙ ap (λ s. v.taken ++ s) (sym (d.whole.0 ((==_iff v.os_error 0).0 ok)))
    ∙ d.split

ended-Carries :
    (deadline : ℕ) (bytes : Bytes) (v : Written)
    → Transfer.Delivers deadline bytes v
    → Carries (bytes ++ []) (record { taken = v.taken; failed = v.os_error })
ended-Carries deadline bytes v d = record {
  rest = d.rest;
  split = d.split ∙ sym (append-nil bytes);
  whole = d.whole;
}

use_written-Carries :
    (deadline : ℕ) (bytes answers : Bytes) (goes_on : Bool) (later : Option Wire) (v : Written)
    (w : Wire)
    → Transfer.Delivers deadline bytes v
    → ((u : Wire) → later ≡ some u → Carries answers u)
    → use_written goes_on later (some v) ≡ some w
    → Carries (bytes ++ (if goes_on then answers else [])) w
use_written-Carries deadline bytes answers goes_on later v w d h e =
    elim (Bool-cases (v.os_error == 0)) [
      | inr failed ↦
          subst (Carries (bytes ++ (if goes_on then answers else [])))
            (same_wire _ w (rw failed at e))
            (failed-Carries deadline bytes (if goes_on then answers else []) v d failed)
      | inl ok ↦ went goes_on (rw ok at e) ok
    ]
  where
    went :
        (g : Bool)
        → (if g
            then behind v.taken later
            else some (record { taken = v.taken; failed = v.os_error }))
          ≡ some w
        → (v.os_error == 0) ≡ true
        → Carries (bytes ++ (if g then answers else [])) w
    went true e ok =
        subst (λ s. Carries (s ++ answers) w) (whole-taken deadline bytes v d ok)
          (behind-Carries v.taken answers later w h e)
    went false e ok =
        subst (Carries (bytes ++ [])) (same_wire _ w e) (ended-Carries deadline bytes v d)

abbrev pub AllHaveErrno : WriteTurn → Type 0
AllHaveErrno out = All HasErrno out.rounds

-- A round and what follows it.
send-Carries :
    (conn : Connection) (out : WriteTurn) (later : Option Wire) (answers : List Bytes)
    (say : List Bytes × Bool) (w : Wire)
    → Says say
    → AllHaveErrno out
    → ((u : Wire) → later ≡ some u → Carries (joined answers) u)
    → send conn out later say ≡ some w
    → Carries (joined (if say.1 then say.0 ++ answers else say.0)) w
send-Carries conn out later answers say w nothing n h e =
    subst (Carries []) (same_wire silent w e) silent-Carries
send-Carries conn out later answers say w (one_answer bytes goes_on) n h e =
    elim (Option-cases (write conn out.started out.rounds bytes)) [
      | inl waits ↦ absurd (cc (rw waits at e))
      | inr (v, done) ↦
          subst (λ s. Carries s w) (spoken goes_on)
            (use_written-Carries (out.started + conn.deadlines.request * 1000000) bytes
              (joined answers) goes_on later v w
              (write-Delivers out.started out.rounds bytes conn.deadlines.request v n done) h
              (rw done at e))
    ]
  where
    spoken :
        (g : Bool)
        → bytes ++ (if g then joined answers else [])
          ≡ joined (if g then bytes ∷ answers else bytes ∷ [])
    spoken true = refl
    spoken false = refl

-- What the writes carry is what the rounds of the connection say, as far as it comes.
pub serve_wire-Carries :
    (pipeline : Pipeline) (outs : List WriteTurn) (reads : List ReadTurn) (conn : Connection)
    (w : Wire)
    → All AllHaveErrno outs
    → serve_wire pipeline outs reads conn ≡ some w
    → Carries
        (joined (serve_connection pipeline (turns_of (replicate (length outs) true) reads conn)))
        w
unfolding serve_wire turns_of serve_connection
serve_wire-Carries pipeline [] reads conn w n e =
    subst (Carries []) (same_wire silent w e) silent-Carries
serve_wire-Carries pipeline (out ∷ outs) reads conn w (n, ns) e =
    elim (Option-cases (next_request reads conn)) [
      | inl waits ↦
          rw (waits, turns_of)
            (subst (Carries []) (same_wire silent w (rw (waits, serve_wire) at e)) silent-Carries)
      | inr ((after, result, later), f) ↦
          rw (f, turns_of)
            (send-Carries after out (serve_wire pipeline outs later after)
              (serve_connection pipeline (turns_of (replicate (length outs) true) later after))
              (serve_turn pipeline (record {
                result = result;
                request_in_progress = after.request_in_progress;
                written = true;
              }))
              w (said pipeline result after.request_in_progress true) n
              (λ u. serve_wire-Carries pipeline outs later after u ns) (rw (f, serve_wire) at e))
    ]

-- If the reads of a new connection bring, in any pieces, the texts of requests that can be sent,
-- as they are or in chunks, and nothing else, each read brings bytes and begins a millisecond or
-- more before a time that is no later than the request's limit after the end of any of them, there
-- is one write for each request, each send that fails leaves a reason in errno, and the writes
-- end, then what the kernel took is the beginning of the serialized responses of the pipeline to
-- the requests in order, up to the first that asks to close, with "connection: close" where the
-- request asks to close, and without the body where the method is HEAD, and it is all of them
-- exactly if no write failed.
pub serve_wire-texts :
    (pipeline : Pipeline) (deadlines : Deadlines) (close : ℕ) (messages : List Message)
    (turns : List ReadTurn) (outs : List WriteTurn) (w : Wire)
    → All IsSendable messages
    → All (Delivers deadlines.request close) turns
    → chunks turns ≡ texts messages
    → length outs ≡ length messages
    → All AllHaveErrno outs
    → serve_wire pipeline outs turns (new_connection deadlines) ≡ some w
    → Carries (joined (map (reply pipeline) (answered (requests_of messages)))) w
serve_wire-texts pipeline deadlines close messages turns outs w sends ds e n hs f =
    subst (λ s. Carries (joined s) w)
      (ap
          (λ k.
            serve_connection pipeline
              (turns_of (replicate k true) turns (new_connection deadlines)))
          n
        ∙ serve_connection-texts pipeline deadlines close messages turns sends ds e)
      (serve_wire-Carries pipeline outs turns (new_connection deadlines) w hs f)
