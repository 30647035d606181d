-- ===== src/Net/Listener/Tests.antt =====
-- Tests of src/net/listener.cpp, and a run of its theorem.
use carafe.Base.{some, [], ◌∷◌, ◌≡◌, refl}
use carafe.Net.Errno.{eintr}
use carafe.Net.Listener.{gave, sys_failed, accept, ListenError, refused, Kernel, listen_on}
use carafe.Net.Listener.Opened.{Opens, listen_on-Opens}

-- EADDRINUSE at `listen`, after the kernel chose a port.
abbrev port_taken : Kernel
port_taken = record { socket = gave 5; bind = 0; getsockname = gave 40001; listen = 98 }

abbrev good_kernel : Kernel
good_kernel = record { socket = gave 5; bind = 0; getsockname = gave 40001; listen = 0 }

closes_on_failure : listen_on port_taken 0 ≡ (refused ListenError.listen_failed 98, 5 ∷ [])
unfolding listen_on
closes_on_failure = refl

asks_again : accept (sys_failed eintr ∷ gave 7 ∷ []) ≡ some (gave 7, [])
unfolding accept
asks_again = refl

listen_on-Opens_example : Opens good_kernel 0 5 (listen_on good_kernel 0)
listen_on-Opens_example = listen_on-Opens good_kernel 0 5 refl
