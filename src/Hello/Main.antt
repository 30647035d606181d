-- ===== src/Hello/Main.antt =====
-- `main` of examples/hello.cpp from the registration of OPTIONS on: what it prints, and how it ends.
use carafe.App
use carafe.App.{
  RunError, Run, describe, run, bind_failed, accept_failed, after_listen, serve_on, after_serving,
  return_from,
}
use carafe.Base.{
  ℕ, Bool, true, not, Option, none, some, List, [], ◌++◌, ◌≡◌, ◌⊎◌, refl, subst, inl, inr,
  if◌then◌else◌, Bytes, codes,
}
use carafe.Hello.{port, limits, deadlines, with_options, with_routes}
use carafe.Http.Response.{to_string}
use carafe.Net.Listener.{Kernel, Listener, ListenError, ListenResult, listening, refused, listen_on}
use carafe.Server.AcceptLoop.{Round, Serving, serve_forever, leave}
use carafe.Server.Pool.{Fate}
use carafe.Server.Pool.Draining.{Move}

-- What the process has printed, and its exit status once it has ended.
pub record Process : Type 0 where
  pub out : Bytes
  pub err : Bytes
  pub status : Option ℕ

abbrev pub address : Bytes
unfolding to_string
address = codes "http://localhost:" ++ to_string port

unfoldable pub banner : Bytes → Bytes
banner version =
    codes "carafe "
    ++ version
    ++ codes " serving on "
    ++ address
    ++ codes "\ntry:  curl -i "
    ++ address
    ++ codes "/\n      curl -i "
    ++ address
    ++ codes "/hello/world\n      curl -i "
    ++ address
    ++ codes "/users/42\n      curl -i "
    ++ address
    ++ codes "/files/css/site.css\n      curl -i --data 'hi' "
    ++ address
    ++ codes "/echo\n      curl -i -X PUT -H 'Authorization: Bearer letmein' --data 'v' "
    ++ address
    ++ codes "/store/k\n      see examples/README.md for the rest\n"

abbrev pub stopped : RunError → Bytes
stopped failure = codes "carafe stopped: " ++ describe failure ++ codes "\n"

-- Behind the call of `run`, which may not have returned.
abbrev pub end : Bytes → Option RunError → Process
end version none = record { out = banner version; err = []; status = none }
end version (some failure) = record { out = banner version; err = stopped failure; status = some 1 }

abbrev pub after_run : Bytes → Option Run → Option Process
after_run version none = none
after_run version (some r) = some (end version r.error)

-- What `run` serves does not show in what `main` prints itself.
unfoldable pub main : Kernel → List Bool → List Round → List Move → Bytes → Option Process
main kernel started rounds last version =
    if not (with_options version).1
    then some
        (record { out = []; err = codes "OPTIONS could not be registered\n"; status = some 1 })
    else after_run version (run kernel port limits deadlines started rounds last)

registered : (version : Bytes) → (with_options version).1 ≡ true
unfolding with_options with_routes App.route
registered version = refl

-- How `main` has ended.
abbrev pub Ends : Kernel → Process → Type 0
Ends kernel p =
    ((error : ListenError) × (os_error : ℕ) × (closed : List ℕ) × (listen_on kernel port
        ≡ (refused error os_error, closed))
      × (p.err ≡ codes "carafe stopped: the port could not be bound\n"))
    ⊎ ((listener : Listener) × (closed : List ℕ) × (listen_on kernel port
          ≡ (listening listener, closed))
        × (p.err ≡ codes "carafe stopped: accepting connections stopped\n"))

abbrev pub Stops : Kernel → Bytes → Process → Type 0
Stops kernel version p = (p.status ≡ some 1) × (p.out ≡ banner version) × Ends kernel p

-- Not ended, or ended as it must.
abbrev Fits : Kernel → Bytes → Process → Type 0
Fits kernel version p = (p.status ≡ none) ⊎ Stops kernel version p

some-Fits :
    (kernel : Kernel) (version : Bytes) (q p : Process)
    → some q ≡ some p
    → Fits kernel version q
    → Fits kernel version p
some-Fits kernel version q p e f = let same : q ≡ p = cc in subst (Fits kernel version) same f

module _ (kernel : Kernel) (version : Bytes) (p : Process) (listener : Listener) (closed : List ℕ)
    (heard : listen_on kernel port ≡ (listening listener, closed)) where
  returned-Fits :
      (left : Option (List (ℕ × Fate)))
      → after_run version (return_from listener left) ≡ some p
      → Fits kernel version p
  unfolding describe
  returned-Fits none e = absurd (cc)
  returned-Fits (some ends) e =
      some-Fits kernel version (end version (some accept_failed)) p e
        (inr (refl, refl, inr (listener, closed, heard, refl)))

  served-Fits :
      (last : List Move) (serving : Serving) (ended : Option ℕ)
      → after_run version (after_serving listener last serving ended) ≡ some p
      → Fits kernel version p
  served-Fits last serving none e = some-Fits kernel version (end version none) p e (inl refl)
  served-Fits last serving (some os_error) e = returned-Fits (leave serving last) e

  serving-Fits :
      (last : List Move) (serving : Option Serving)
      → after_run version (serve_on last listener serving) ≡ some p
      → Fits kernel version p
  serving-Fits last none e = absurd (cc)
  serving-Fits last (some serving) e = served-Fits last serving serving.ended e

listened-Fits :
    (kernel : Kernel) (started : List Bool) (rounds : List Round) (last : List Move)
    (version : Bytes) (p : Process) (l : ListenResult × List ℕ)
    → listen_on kernel port ≡ l
    → after_run version (after_listen limits started rounds last l) ≡ some p
    → Fits kernel version p
unfolding describe
listened-Fits kernel started rounds last version p (refused error os_error, closed) h e =
    some-Fits kernel version (end version (some bind_failed)) p e
      (inr (refl, refl, inl (error, os_error, closed, h, refl)))
listened-Fits kernel started rounds last version p (listening listener, closed) h e =
    serving-Fits kernel version p listener closed h last (serve_forever limits started rounds) e

main-Fits :
    (kernel : Kernel) (started : List Bool) (rounds : List Round) (last : List Move)
    (version : Bytes) (p : Process)
    → main kernel started rounds last version ≡ some p
    → Fits kernel version p
unfolding main run
main-Fits kernel started rounds last version p e =
    listened-Fits kernel started rounds last version p (listen_on kernel port) refl
      (rw (registered version) at e)

-- If `main` has ended, then with status 1, it has printed what it prints before it serves, and
-- what it says is that the port could not be bound, where `listen_on` refused the port, or that
-- accepting connections stopped, where `listen_on` had opened it.
pub main-Stops :
    (kernel : Kernel) (started : List Bool) (rounds : List Round) (last : List Move)
    (version : Bytes) (p : Process) (code : ℕ)
    → main kernel started rounds last version ≡ some p
    → p.status ≡ some code
    → Stops kernel version p
main-Stops kernel started rounds last version p code e s =
    elim (main-Fits kernel started rounds last version p e) [
      | inl running ↦ absurd (cc)
      | inr stops ↦ stops
    ]
