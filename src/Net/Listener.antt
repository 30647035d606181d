-- ===== src/Net/Listener.antt =====
-- src/net/listener.hpp and src/net/listener.cpp. What the kernel answers to each call is a parameter.
pub mod Opened
mod Tests
use carafe.Base.{ℕ, Bool, true, false, not, Option, none, some, List, [], ◌∷◌, ◌==◌, if◌then◌else◌}
use carafe.Net.Errno.{eintr}

-- A system call that gives a number, or fails with errno.
pub data Sys : Type 0 where
  gave : ℕ → Sys
  sys_failed : ℕ → Sys

-- The listening descriptor, and its port.
pub record Listener : Type 0 where
  pub socket : ℕ
  pub port : ℕ

-- The loop of `Listener::accept`, and what is left of the answers of `accept4`. A client is the
-- descriptor that its `Socket` owns.
unfoldable pub accept : List Sys → Option (Sys × List Sys)
accept [] = none
accept (gave client ∷ later) = some (gave client, later)
accept (sys_failed os_error ∷ later) =
    let again = accept later in
    if not (os_error == eintr) then some (sys_failed os_error, later) else again

pub data ListenError : Type 0 where
  socket_failed bind_failed address_failed listen_failed : ListenError

-- `ListenResult`: no error is the listener.
pub data ListenResult : Type 0 where
  listening : Listener → ListenResult
  refused : ListenError → ℕ → ListenResult

-- What `socket`, `bind`, `getsockname` and `listen` answer; `bind` and `listen` leave 0 or errno, and
-- `getsockname` gives a port.
pub record Kernel : Type 0 where
  pub socket : Sys
  pub bind : ℕ
  pub getsockname : Sys
  pub listen : ℕ

-- A refusal behind the call of `socket`, where the destructor of `sock` closes the descriptor: the
-- result, and what was closed.
abbrev pub give_up : ℕ → ListenError → ℕ → ListenResult × List ℕ
give_up raw_fd error os_error = (refused error os_error, raw_fd ∷ [])

unfoldable pub start_listening : ℕ → ℕ → ℕ → ListenResult × List ℕ
start_listening raw_fd actual_port listen =
    if not (listen == 0)
    then give_up raw_fd ListenError.listen_failed listen
    else (listening (record { socket = raw_fd; port = actual_port }), [])

unfoldable pub find_port : Kernel → ℕ → ℕ → ListenResult × List ℕ
unfolding start_listening
find_port kernel raw_fd port =
    if port == 0
    then elim kernel.getsockname [
      | sys_failed os_error ↦ give_up raw_fd ListenError.address_failed os_error
      | gave bound_port ↦ start_listening raw_fd bound_port kernel.listen
    ]
    else start_listening raw_fd port kernel.listen

unfoldable pub listen_on : Kernel → ℕ → ListenResult × List ℕ
unfolding find_port
listen_on kernel port = elim kernel.socket [
  | sys_failed os_error ↦ (refused ListenError.socket_failed os_error, [])
  | gave raw_fd ↦
      if not (kernel.bind == 0)
      then give_up raw_fd ListenError.bind_failed kernel.bind
      else find_port kernel raw_fd port
]
