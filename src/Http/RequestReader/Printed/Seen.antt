-- ===== src/Http/RequestReader/Printed/Seen.antt =====
-- A reader of src/http/request_reader.cpp that was fed since the last request: what it has got may
-- have been cut and asked for in any way.
use carafe.Base.{
  ℕ, none, some, [], ◌≢◌, ◌++◌, ◌≡◌, refl, sym, ap, subst, ◌∙◌, append_assoc, append-nil, Bytes,
  Option,
}
use carafe.Http.LineReader.History.{empty_reader-IsValid}
use carafe.Http.LineReader.Refinement.{IsValid, pending, append-pending}
use carafe.Http.ReaderState.{
  RequestResult, nothing_yet, complete, RequestReader, append, new_reader,
}
use carafe.Http.RequestReader.{next_request}
use carafe.Http.RequestReader.Dribble.{append_result, next_request-append, rounds_bytes_unique}
use carafe.Http.RequestReader.Pieces.{
  waits-IsValid, next_request-append-append, next_request-append-nil, next_request-IsValid,
}
use carafe.Http.RequestReader.Printed.{Message, message_text, IsSendable}
use carafe.Http.RequestReader.Printed.Reported.{reports-message_text, reports-message_text_part}
use carafe.Http.RequestReader.Reads.{fresh}
use carafe.Http.RequestReader.Stable.{reports}
use carafe.Http.RequestReader.Stream.{blank, rounds_bytes, seen}

-- The reader answers as one between two requests that gets `s`, whatever follows.
pub record Sees (r : RequestReader) (s : Bytes) : Type 0 where
  pub chunk : ℕ
  pub valid : IsValid r.line_reader
  pub same :
      (more : Bytes) → seen (next_request (append r more)) ≡ reports (fresh chunk) (s ++ more)

pub Sees-now :
    {r : RequestReader} {s : Bytes} (w : Sees r s)
    → seen (next_request r) ≡ reports (fresh w.chunk) s
Sees-now {r} {s} w =
    sym (next_request-append-nil r w.valid)
    ∙ w.same []
    ∙ ap (reports (fresh w.chunk)) (append-nil s)

pub new_reader-Sees : Sees new_reader []
new_reader-Sees = record { chunk = 0; valid = empty_reader-IsValid; same = λ more. refl }

pub finished-Sees :
    (r : RequestReader) (chunk : ℕ)
    → IsValid r.line_reader
    → blank r ≡ fresh chunk
    → Sees r (pending r.line_reader)
finished-Sees r chunk v b = record {
  chunk = chunk;
  valid = v;
  same = λ more.
      let (n, x, ex, sx) = append_result r more v (ap (λ (z : RequestReader). z.latched) b) in
      let (m, y, ey, sy) =
        append_result (fresh chunk) (pending r.line_reader ++ more) empty_reader-IsValid refl in
      sx
      ∙ rounds_bytes_unique n m x y (fresh chunk) (pending r.line_reader ++ more)
          (subst (λ z. rounds_bytes n z (pending r.line_reader ++ more) ≡ some x) b ex) ey
      ∙ sym sy;
}

seen_inv :
    (o : Option (RequestReader × RequestResult)) (b : RequestReader) (p : Bytes) (x : RequestResult)
    → seen o ≡ some (b, p, x)
    → (q : RequestReader) × (o ≡ some (q, x)) × (blank q ≡ b) × (pending q.line_reader ≡ p)
seen_inv none b p x e = absurd (cc)
seen_inv (some (q, y)) b p x e =
    let state : blank q ≡ b = cc in
    let left : pending q.line_reader ≡ p = cc in
    let what : y ≡ x = cc in (q, ap (λ z. some (q, z)) what, state, left)

append-IsValid :
    (r : RequestReader) (bytes : Bytes)
    → IsValid r.line_reader
    → IsValid (append r bytes).line_reader
unfolding append
append-IsValid r bytes v = (append-pending r.line_reader bytes v).0

waited-Sees :
    (r q : RequestReader) (s bytes : Bytes)
    → Sees r s
    → next_request r ≡ some (q, nothing_yet)
    → Sees (append q bytes) (s ++ bytes)
waited-Sees r q s bytes w e =
    let (v, l) = waits-IsValid r q w.valid e in
    record {
      chunk = w.chunk;
      valid = append-IsValid q bytes v;
      same = λ more.
          next_request-append-append q bytes more v l
          ∙ sym (next_request-append r q (bytes ++ more) w.valid e)
          ∙ w.same (bytes ++ more)
          ∙ ap (reports (fresh w.chunk)) (sym (append_assoc s bytes more));
    }

-- With a whole request, the reader hands it over, and has seen what is behind it.
pub Sees-complete :
    (r : RequestReader) (message : Message) (rest : Bytes)
    → IsSendable message
    → Sees r (message_text message ++ rest)
    → (q : RequestReader) × (next_request r ≡ some (q, complete message.request)) × Sees q rest
Sees-complete r message rest send w =
    let (last, told) = reports-message_text message w.chunk rest send in
    let (q, e, b, p) =
      seen_inv (next_request r) (fresh last) rest (complete message.request) (Sees-now w ∙ told) in
    (
      q,
      e,
      subst (Sees q) p
          (finished-Sees q last (next_request-IsValid r q (complete message.request) w.valid e) b),
    )

-- With a part of a request, it waits, and has seen what it gets then.
pub Sees-waits :
    (r : RequestReader) (message : Message) (part rest : Bytes)
    → IsSendable message
    → rest ≢ []
    → part ++ rest ≡ message_text message
    → Sees r part
    → (q : RequestReader) × (next_request r ≡ some (q, nothing_yet))
      × ((bytes : Bytes) → Sees (append q bytes) (part ++ bytes))
Sees-waits r message part rest send ne cut w =
    let (b, left, e) = reports-message_text_part message w.chunk part rest send ne cut in
    let (q, f, same, p) = seen_inv (next_request r) b left nothing_yet (Sees-now w ∙ e) in
    (q, f, λ bytes. waited-Sees r q part bytes w f)
