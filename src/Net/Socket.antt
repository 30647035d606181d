-- ===== src/Net/Socket.antt =====
-- src/net/socket.hpp and src/net/socket.cpp: the calls on a descriptor, and the arithmetic of deadlines.
-- What the kernel answers is a list, one entry for each system call; where it ends, the call still
-- waits (`none`). A time is in nanoseconds, a limit in milliseconds.
pub mod Deadline
pub mod Transfer
pub mod Returned
mod Tests
use carafe.Base.{
  ℕ, ◌+◌, ◌-◌, ◌*◌, ◌/◌, ◌%◌, Bool, true, false, not, Option, none, some, List, [], ◌∷◌, ◌++◌, ltb,
  ◌==◌, if◌then◌else◌, Bytes, length, take, drop,
}
use carafe.Net.Errno.{eintr, eagain, etimedout}

-- `ReadResult`: no bytes and no error is the end of the stream.
pub record ReadResult : Type 0 where
  pub os_error : ℕ
  pub bytes : Option Bytes

-- What `recv` reports: some bytes, 0, or -1 with errno.
pub data Recv : Type 0 where
  got : Bytes → Recv
  at_end : Recv
  recv_failed : ℕ → Recv

-- What `send` reports: how many bytes it took, or -1 with errno.
pub data Send : Type 0 where
  took : ℕ → Send
  send_failed : ℕ → Send

pub record Timeval : Type 0 where
  pub tv_sec : ℕ
  pub tv_usec : ℕ

-- The deadline that `set_timeout` hands to `setsockopt`.
unfoldable pub timeval_of : ℕ → Timeval
timeval_of limit =
    let whole = limit / 1000 in record { tv_sec = whole; tv_usec = (limit - whole * 1000) * 1000 }

-- `milliseconds_until`, with the clock's time.
unfoldable pub milliseconds_until : ℕ → ℕ → Option ℕ
milliseconds_until deadline now =
    let left = deadline - now in if ltb left 1000000 then none else some (left / 1000000)

-- `set_timeout`, with what `setsockopt` leaves in errno, or 0: the deadline asked for, and the result.
abbrev pub set_timeout : ℕ → ℕ → Timeval × ℕ
set_timeout limit os_error = (timeval_of limit, os_error)

abbrev pub set_receive_timeout : ℕ → ℕ → Timeval × ℕ
set_receive_timeout limit os_error = set_timeout limit os_error

-- The loop of `read`, and what is left of the list.
unfoldable pub read : List Recv → Option (ReadResult × List Recv)
read [] = none
read (got bytes ∷ later) = some (record { os_error = 0; bytes = some bytes }, later)
read (at_end ∷ later) = some (record { os_error = 0; bytes = none }, later)
read (recv_failed os_error ∷ later) =
    let again = read later in
    if not (os_error == eintr)
    then some (record { os_error = os_error; bytes = none }, later)
    else again

-- What one round of the loop of `write` meets: the clock, `setsockopt`, and what `send` reports under
-- the timeout that the socket then has, or `none` where it waits for ever.
pub record WriteRound : Type 0 where
  pub now : ℕ
  pub refused : ℕ
  pub sent : Timeval → Option Send

-- `WriteResult`, with the bytes that the kernel took, and for each send the clock and the
-- timeout of the socket when it was made.
pub record Written : Type 0 where
  pub os_error : ℕ
  pub taken : Bytes
  pub sends : List (ℕ × Timeval)

abbrev pub ended : ℕ → Written
ended os_error = record { os_error = os_error; taken = []; sends = [] }

-- A send in front of what follows.
abbrev pub after_send : ℕ × Timeval → Bytes → Option Written → Option Written
after_send send taken none = none
after_send send taken (some w) =
    some (record w { taken = taken ++ w.taken; sends = send ∷ w.sends })

-- What `send` reported: the loop goes on with the bytes that are left, or ends.
unfoldable pub transfer : ℕ × Timeval → (Bytes → Option Written) → Bytes → Send → Option Written
transfer send again bytes (send_failed os_error) =
    after_send send [] (if os_error == eintr then again bytes else some (ended os_error))
transfer send again bytes (took written) =
    after_send send (take written bytes) (again (drop written bytes))

abbrev pub use_sent : ℕ × Timeval → (Bytes → Option Written) → Bytes → Option Send → Option Written
use_sent send again bytes none = none
use_sent send again bytes (some sent) = transfer send again bytes sent

unfoldable pub write_round : ℕ → (Bytes → Option Written) → WriteRound → Bytes → Option Written
unfolding transfer milliseconds_until timeval_of
write_round deadline again round bytes = elim (milliseconds_until deadline round.now) [
  | none ↦ some (ended etimedout)
  | some left ↦
      let (timeout, os_error) = set_timeout left round.refused in
      if not (os_error == 0)
      then some (ended os_error)
      else use_sent (round.now, timeout) again bytes (round.sent timeout)
]

-- The loop of `write`.
unfoldable pub write_until : ℕ → List WriteRound → Bytes → Option Written
write_until deadline rounds [] = some (ended 0)
write_until deadline [] (c ∷ bytes) = none
write_until deadline (round ∷ rounds) (c ∷ bytes) =
    write_round deadline (write_until deadline rounds) round (c ∷ bytes)

-- `started` is the clock when the call begins, in nanoseconds.
unfoldable pub write : ℕ → List WriteRound → Bytes → ℕ → Option Written
unfolding write_until
write started rounds bytes limit = write_until (started + limit * 1000000) rounds bytes

-- The loop of `write_now`: the result, and the bytes that the kernel took.
unfoldable pub write_now : List Send → Bytes → Option (ℕ × Bytes)
write_now [] bytes = none
write_now (send_failed os_error ∷ later) bytes =
    let again = write_now later bytes in if os_error == eintr then again else some (os_error, [])
write_now (took written ∷ later) bytes =
    some (if written == length bytes then 0 else eagain, take written bytes)
