-- ===== src/Net/Socket/Deadline.antt =====
-- Deadlines in src/net/socket.cpp: what `setsockopt` is asked for is what is left, and never nothing.
use carafe.Base.{ℕ, ◌+◌, ◌*◌, ◌≤◌, ◌<◌, some, ◌≡◌, arith}
use carafe.Net.Socket.{Timeval, timeval_of, milliseconds_until}

pub milliseconds_until_fits :
    (deadline now left : ℕ)
    → milliseconds_until deadline now ≡ some left
    → (1 ≤ left) × (now + left * 1000000 ≤ deadline)
unfolding milliseconds_until
milliseconds_until_fits deadline now left e = ground arith

abbrev pub nanoseconds : Timeval → ℕ
nanoseconds limit = limit.tv_sec * 1000000000 + limit.tv_usec * 1000

pub nanoseconds-timeval_of : (limit : ℕ) → nanoseconds (timeval_of limit) ≡ limit * 1000000
unfolding timeval_of
nanoseconds-timeval_of limit = omega arith

-- If `milliseconds_until` gives a limit, then the timeval made of it is not zero, its microseconds
-- are below a million, and it ends by the deadline and less than a millisecond before it.
pub timeval_of-milliseconds_until :
    (deadline now left : ℕ)
    → milliseconds_until deadline now ≡ some left
    → (0 < (timeval_of left).tv_sec * 1000000 + (timeval_of left).tv_usec)
      × ((timeval_of left).tv_usec < 1000000)
      × (now + ((timeval_of left).tv_sec * 1000000 + (timeval_of left).tv_usec) * 1000 ≤ deadline)
      × (deadline
          < now + ((timeval_of left).tv_sec * 1000000 + (timeval_of left).tv_usec) * 1000 + 1000000)
unfolding milliseconds_until timeval_of
timeval_of-milliseconds_until deadline now left e = ground arith
