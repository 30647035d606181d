-- ===== src/Net/Socket/Transfer.antt =====
-- `write`, `write_now` and `read` of src/net/socket.cpp: every byte or a failure, and an interruption is
-- no outcome.
use carafe.Base.{
  ℕ, ◌+◌, ◌*◌, ◌≤◌, Option, none, some, List, [], ◌∷◌, ◌++◌, ◌≡◌, ◌≢◌, ◌↔◌, refl, sym, ap, subst,
  ◌∙◌, inl, inr, arith, ◌==◌, Bytes, length, take, drop, All, Bool-cases, Option-cases,
  append_assoc, take-append-drop, ==_iff, take_all,
}
use carafe.Net.Errno.{eintr, etimedout}
use carafe.Net.Socket.{
  Send, Timeval, timeval_of, use_sent, took, send_failed, WriteRound, Written, ended, after_send,
  milliseconds_until, transfer, write_round, write_until, write, write_now,
}
use carafe.Net.Socket.Deadline.{nanoseconds, nanoseconds-timeval_of, milliseconds_until_fits}

-- A call that fails leaves its reason in errno.
abbrev pub SendHasErrno : Send → Type 0
SendHasErrno (took n) = Unit
SendHasErrno (send_failed os_error) = os_error ≢ 0

abbrev pub AnswerHasErrno : Option Send → Type 0
AnswerHasErrno none = Unit
AnswerHasErrno (some sent) = SendHasErrno sent

abbrev pub HasErrno : WriteRound → Type 0
HasErrno round = (timeout : Timeval) → AnswerHasErrno (round.sent timeout)

-- A send that was made at `send.0`, under the timeout `send.1`, ends by the deadline.
abbrev pub EndsBy : ℕ → ℕ × Timeval → Type 0
EndsBy deadline send = (1000000 ≤ nanoseconds send.1) × (send.0 + nanoseconds send.1 ≤ deadline)

timeval_of-EndsBy :
    (deadline now left : ℕ)
    → milliseconds_until deadline now ≡ some left
    → EndsBy deadline (now, timeval_of left)
timeval_of-EndsBy deadline now left e =
    let (some_time, fits) = milliseconds_until_fits deadline now left e in
    (
      omega (arith, some_time, nanoseconds-timeval_of left),
      omega (arith, fits, nanoseconds-timeval_of left),
    )

pub record Delivers (deadline : ℕ) (bytes : Bytes) (w : Written) : Type 0 where
  pub rest : Bytes
  pub split : w.taken ++ rest ≡ bytes
  pub whole : (w.os_error ≡ 0) ↔ (rest ≡ [])
  pub timely : All (EndsBy deadline) w.sends

ended-Delivers :
    (deadline os_error c : ℕ) (bytes : Bytes)
    → os_error ≢ 0
    → Delivers deadline (c ∷ bytes) (ended os_error)
ended-Delivers deadline os_error c bytes n = record {
  rest = c ∷ bytes;
  split = refl;
  whole = (λ e. absurd (n e), λ e. cc);
  timely = tt;
}

same_written : (v w : Written) → some v ≡ some w → v ≡ w
same_written v w e = cc

after_send-Delivers :
    (deadline : ℕ) (send : ℕ × Timeval) (taken bytes : Bytes) (o : Option Written) (w : Written)
    → EndsBy deadline send
    → ((v : Written) → o ≡ some v → Delivers deadline bytes v)
    → after_send send taken o ≡ some w
    → Delivers deadline (taken ++ bytes) w
after_send-Delivers deadline send taken bytes none w d later e = absurd (cc)
after_send-Delivers deadline send taken bytes (some v) w d later e =
    let tail = later v refl in
    let same : record v { taken = taken ++ v.taken; sends = send ∷ v.sends } ≡ w = cc in
    subst (Delivers deadline (taken ++ bytes)) same (record {
      rest = tail.rest;
      split = append_assoc taken v.taken tail.rest ∙ ap (λ s. taken ++ s) tail.split;
      whole = tail.whole;
      timely = (d, tail.timely);
    })

transfer-Delivers :
    (deadline : ℕ) (send : ℕ × Timeval) (again : Bytes → Option Written) (c : ℕ) (bytes : Bytes)
    (sent : Send) (w : Written)
    → EndsBy deadline send
    → SendHasErrno sent
    → ((left : Bytes) (v : Written) → again left ≡ some v → Delivers deadline left v)
    → transfer send again (c ∷ bytes) sent ≡ some w
    → Delivers deadline (c ∷ bytes) w
unfolding transfer
transfer-Delivers deadline send again c bytes (took n) w d h later e =
    subst (λ s. Delivers deadline s w) (take-append-drop n (c ∷ bytes))
      (after_send-Delivers deadline send (take n (c ∷ bytes)) (drop n (c ∷ bytes))
        (again (drop n (c ∷ bytes))) w d (later (drop n (c ∷ bytes))) e)
transfer-Delivers deadline send again c bytes (send_failed os_error) w d h later e =
    elim (Bool-cases (os_error == eintr)) [
      | inl interrupted ↦
          after_send-Delivers deadline send [] (c ∷ bytes) (again (c ∷ bytes)) w d
            (later (c ∷ bytes)) (rw interrupted at e)
      | inr failed ↦
          after_send-Delivers deadline send [] (c ∷ bytes) (some (ended os_error)) w d
            (λ v f.
              subst (Delivers deadline (c ∷ bytes)) (same_written (ended os_error) v f)
                (ended-Delivers deadline os_error c bytes h))
            (rw failed at e)
    ]

use_sent-Delivers :
    (deadline : ℕ) (send : ℕ × Timeval) (again : Bytes → Option Written) (c : ℕ) (bytes : Bytes)
    (o : Option Send) (w : Written)
    → EndsBy deadline send
    → AnswerHasErrno o
    → ((left : Bytes) (v : Written) → again left ≡ some v → Delivers deadline left v)
    → use_sent send again (c ∷ bytes) o ≡ some w
    → Delivers deadline (c ∷ bytes) w
use_sent-Delivers deadline send again c bytes none w d h later e = absurd (cc)
use_sent-Delivers deadline send again c bytes (some sent) w d h later e =
    transfer-Delivers deadline send again c bytes sent w d h later e

write_round-Delivers :
    (deadline : ℕ) (again : Bytes → Option Written) (round : WriteRound) (c : ℕ) (bytes : Bytes)
    (w : Written)
    → HasErrno round
    → ((left : Bytes) (v : Written) → again left ≡ some v → Delivers deadline left v)
    → write_round deadline again round (c ∷ bytes) ≡ some w
    → Delivers deadline (c ∷ bytes) w
unfolding write_round
write_round-Delivers deadline again round c bytes w h later e =
    elim (Option-cases (milliseconds_until deadline round.now)) [
      | inl over ↦
          subst (Delivers deadline (c ∷ bytes))
            (same_written (ended etimedout) w (rw (over, write_round) at e))
            (ended-Delivers deadline etimedout c bytes (λ z. cc))
      | inr (left, m) ↦ elim (Bool-cases (round.refused == 0)) [
        | inr refused ↦
            subst (Delivers deadline (c ∷ bytes))
              (same_written (ended round.refused) w (rw (m, refused, write_round) at e))
              (ended-Delivers deadline round.refused c bytes (ground arith))
        | inl accepted ↦
            use_sent-Delivers deadline (round.now, timeval_of left) again c bytes
              (round.sent (timeval_of left)) w (timeval_of-EndsBy deadline round.now left m)
              (h (timeval_of left)) later (rw (m, accepted, write_round) at e)
      ]
    ]

write_until-Delivers :
    (deadline : ℕ) (rounds : List WriteRound) (bytes : Bytes) (w : Written)
    → All HasErrno rounds
    → write_until deadline rounds bytes ≡ some w
    → Delivers deadline bytes w
unfolding write_until
write_until-Delivers deadline rounds [] w h e =
    subst (Delivers deadline []) (same_written (ended 0) w e)
      (record { rest = []; split = refl; whole = (λ _. refl, λ _. refl); timely = tt })
write_until-Delivers deadline [] (c ∷ bytes) w h e = absurd (cc)
write_until-Delivers deadline (round ∷ rounds) (c ∷ bytes) w (h, hs) e =
    write_round-Delivers deadline (write_until deadline rounds) round c bytes w h
      (λ left v. write_until-Delivers deadline rounds left v hs) e

-- If each send that fails leaves a reason in errno and `write` returns, then the bytes that were
-- sent are a prefix of those given, the result is 0 exactly if nothing is left, and each send was
-- made under a timeout of at least a millisecond that ends by the deadline of the whole call.
pub write-Delivers :
    (started : ℕ) (rounds : List WriteRound) (bytes : Bytes) (limit : ℕ) (w : Written)
    → All HasErrno rounds
    → write started rounds bytes limit ≡ some w
    → Delivers (started + limit * 1000000) bytes w
unfolding write
write-Delivers started rounds bytes limit w h e =
    write_until-Delivers (started + limit * 1000000) rounds bytes w h e

-- A result of `write_now` without an error has sent everything.
pub write_now_whole :
    (sends : List Send) (bytes taken : Bytes)
    → All SendHasErrno sends
    → write_now sends bytes ≡ some (0, taken)
    → taken ≡ bytes
unfolding write_now
write_now_whole [] bytes taken h e = absurd (cc)
write_now_whole (send_failed os_error ∷ later) bytes taken (h, hs) e =
    ground (arith, write_now_whole later bytes taken hs)
write_now_whole (took n ∷ later) bytes taken (h, hs) e = elim (Bool-cases (n == length bytes)) [
  | inl all ↦
      let same : take n bytes ≡ taken = ground arith in
      let m : n ≡ length bytes = (==_iff n (length bytes)).0 all in
      sym same ∙ take_all n bytes (omega (arith, m))
  | inr short ↦ absurd (ground arith)
]
