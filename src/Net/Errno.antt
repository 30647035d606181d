-- ===== src/Net/Errno.antt =====
-- The values of <cerrno> on Linux that src/net and src/server name.
use carafe.Base.{ℕ}

abbrev pub eperm : ℕ
eperm = 1

abbrev pub eintr : ℕ
eintr = 4

abbrev pub eagain : ℕ
eagain = 11

abbrev pub ewouldblock : ℕ
ewouldblock = 11

abbrev pub enomem : ℕ
enomem = 12

abbrev pub enfile : ℕ
enfile = 23

abbrev pub emfile : ℕ
emfile = 24

abbrev pub eproto : ℕ
eproto = 71

abbrev pub enetdown : ℕ
enetdown = 100

abbrev pub enetunreach : ℕ
enetunreach = 101

abbrev pub econnaborted : ℕ
econnaborted = 103

abbrev pub enobufs : ℕ
enobufs = 105

abbrev pub etimedout : ℕ
etimedout = 110

abbrev pub ehostdown : ℕ
ehostdown = 112

abbrev pub ehostunreach : ℕ
ehostunreach = 113
