-- ===== src/Net/Socket/Returned.antt =====
-- `write` of src/net/socket.cpp returns, however slowly the other end reads.
use carafe.Base.{
  ℕ, ◌+◌, ◌*◌, ◌<◌, Option, some, List, [], ◌∷◌, ◌++◌, ◌≡◌, refl, inl, inr, arith, ◌==◌, Bytes,
  Bool-cases, Option-cases, All, none, ◌≢◌, take, drop,
}
use carafe.Net.Errno.{eintr, etimedout}
use carafe.Net.Socket.{
  Send, Timeval, timeval_of, use_sent, took, send_failed, WriteRound, Written, ended, after_send,
  milliseconds_until, transfer, write_round, write_until, write,
}
use carafe.Net.Socket.Deadline.{nanoseconds, nanoseconds-timeval_of, milliseconds_until_fits}

abbrev pub WriteReturns : Option Written → Type 0
WriteReturns o = (w : Written) × (o ≡ some w)

after_send-WriteReturns :
    (send : ℕ × Timeval) (taken : Bytes) (o : Option Written)
    → WriteReturns o
    → WriteReturns (after_send send taken o)
after_send-WriteReturns send taken o (w, e) = rw e (_, refl)

transfer-WriteReturns :
    (send : ℕ × Timeval) (again : Bytes → Option Written) (bytes : Bytes) (sent : Send)
    → ((left : Bytes) → WriteReturns (again left))
    → WriteReturns (transfer send again bytes sent)
unfolding transfer
transfer-WriteReturns send again bytes (took n) h =
    after_send-WriteReturns send (take n bytes) (again (drop n bytes)) (h (drop n bytes))
transfer-WriteReturns send again bytes (send_failed os_error) h =
    elim (Bool-cases (os_error == eintr)) [
      | inl interrupted ↦ rw interrupted (after_send-WriteReturns send [] (again bytes) (h bytes))
      | inr failed ↦ rw failed (after_send-WriteReturns send [] (some (ended os_error)) (_, refl))
    ]

-- What the kernel promises for the timeout of a socket: if it is not zero, `send` reports something
-- before it is over. For a timeout of zero it promises nothing.
abbrev pub SendHonours : WriteRound → Type 0
SendHonours round = (timeout : Timeval) → 0 < nanoseconds timeout → round.sent timeout ≢ none

use_sent-WriteReturns :
    (send : ℕ × Timeval) (again : Bytes → Option Written) (bytes : Bytes) (o : Option Send)
    → o ≢ none
    → ((left : Bytes) → WriteReturns (again left))
    → WriteReturns (use_sent send again bytes o)
use_sent-WriteReturns send again bytes none n h = absurd (n refl)
use_sent-WriteReturns send again bytes (some sent) n h =
    transfer-WriteReturns send again bytes sent h

write_round-WriteReturns :
    (deadline : ℕ) (again : Bytes → Option Written) (round : WriteRound) (bytes : Bytes)
    → SendHonours round
    → ((left : Bytes) → WriteReturns (again left))
    → WriteReturns (write_round deadline again round bytes)
unfolding write_round
write_round-WriteReturns deadline again round bytes k h =
    elim (Option-cases (milliseconds_until deadline round.now)) [
      | inl over ↦ rw (over, write_round) (_, refl)
      | inr (left, m) ↦ elim (Bool-cases (round.refused == 0)) [
        | inr refused ↦ rw (m, refused, write_round) (_, refl)
        | inl accepted ↦
            rw (m, accepted, write_round)
              (use_sent-WriteReturns (round.now, timeval_of left) again bytes
                (round.sent (timeval_of left))
                (k (timeval_of left) (
                  omega (
                    arith,
                    nanoseconds-timeval_of left,
                    (milliseconds_until_fits deadline round.now left m).0,
                  )))
                h)
      ]
    ]

late-WriteReturns :
    (deadline : ℕ) (again : Bytes → Option Written) (last : WriteRound) (bytes : Bytes)
    → deadline < last.now + 1000000
    → WriteReturns (write_round deadline again last bytes)
unfolding write_round milliseconds_until
late-WriteReturns deadline again last bytes late = (ended etimedout, ground arith)

pub write_until-WriteReturns :
    (deadline : ℕ) (rounds : List WriteRound) (last : WriteRound) (bytes : Bytes)
    → All SendHonours rounds
    → deadline < last.now + 1000000
    → WriteReturns (write_until deadline (rounds ++ last ∷ []) bytes)
unfolding write_until
write_until-WriteReturns deadline rounds last [] ks late = (_, refl)
write_until-WriteReturns deadline [] last (c ∷ bytes) ks late =
    late-WriteReturns deadline (write_until deadline []) last (c ∷ bytes) late
write_until-WriteReturns deadline (round ∷ rounds) last (c ∷ bytes) (k, ks) late =
    write_round-WriteReturns deadline (write_until deadline (rounds ++ last ∷ [])) round (c ∷ bytes)
      k (λ left. write_until-WriteReturns deadline rounds last left ks late)

pub write-WriteReturns :
    (started : ℕ) (rounds : List WriteRound) (last : WriteRound) (bytes : Bytes) (limit : ℕ)
    → All SendHonours rounds
    → started + limit * 1000000 < last.now + 1000000
    → WriteReturns (write started (rounds ++ last ∷ []) bytes limit)
unfolding write
write-WriteReturns started rounds last bytes limit ks late =
    write_until-WriteReturns (started + limit * 1000000) rounds last bytes ks late
