-- ===== src/Net/Socket/Tests.antt =====
-- The calls of src/net/socket.cpp at concrete answers of the kernel.
use carafe.Base.{some, All, List, [], ◌∷◌, ◌≡◌, refl, codes}
use carafe.Net.Errno.{eintr, eagain}
use carafe.Net.Socket.{
  got, recv_failed, took, send_failed, milliseconds_until, timeval_of, read, WriteRound, Written,
  write_round, write, write_now,
}
use carafe.Net.Socket.Transfer.{HasErrno, Delivers, write-Delivers}

interrupted_read :
    read (recv_failed eintr ∷ got (codes "x") ∷ [])
    ≡ some (record { os_error = 0; bytes = some (codes "x") }, [])
unfolding read
interrupted_read = refl

short_send : write_now (send_failed eintr ∷ took 1 ∷ []) (codes "ab") ≡ some (eagain, codes "a")
unfolding write_now
short_send = refl

-- A short send, an interruption, and the rest; and a peer that takes too long for the rest.
abbrev resumed : List WriteRound
resumed =
    record { now = 5; refused = 0; sent = λ timeout. some (took 1) }
    ∷ record { now = 9; refused = 0; sent = λ timeout. some (send_failed eintr) }
    ∷ record { now = 1000005; refused = 0; sent = λ timeout. some (took 2) }
    ∷ []

abbrev resumed_result : Written
resumed_result = record {
  os_error = 0;
  taken = codes "abc";
  sends = (5, timeval_of 2) ∷ (9, timeval_of 1) ∷ (1000005, timeval_of 1) ∷ [];
}

resumed-HasErrno : All HasErrno resumed
resumed-HasErrno = (λ timeout. tt, (λ timeout e. cc, (λ timeout. tt, tt)))

resumed_lem : write 5 resumed (codes "abc") 2 ≡ some resumed_result
unfolding write write_round milliseconds_until
resumed_lem = refl

write-Delivers_example : Delivers 2000005 (codes "abc") resumed_result
write-Delivers_example =
    write-Delivers 5 resumed (codes "abc") 2 resumed_result resumed-HasErrno resumed_lem

almost_two : milliseconds_until 2999999 1000000 ≡ some 1
unfolding milliseconds_until
almost_two = refl
