-- ===== src/Echo/Client/Relay.antt =====
-- What the echo client passes on.
use learnuv.Base.{
  ◌≡◌, refl, ap, Bool, true, false, List, [], ◌∷◌, ◌++◌, arith, Bytes, length, take-append_length,
  Outcome, ok,
}
use learnuv.Uv.{Nread, count, eof, error}
use learnuv.Echo.Client.{
  connection, pipe_stdin, pipe_stdout, Action, write, close, on_read_connection, on_read_stdin,
  Arrival, from_server, from_terminal, on_arrival, is_end, run,
}

-- A read with its bytes and what stands behind them in the buffer
pub data Piece : Type 0 where
  server_piece : Bytes → Bytes → Piece
  terminal_piece : Bytes → Bytes → Piece

abbrev pub arrivals : List Piece → List Arrival
arrivals [] = []
arrivals (server_piece x rest ∷ ps) = from_server (count (length x)) (x ++ rest) ∷ arrivals ps
arrivals (terminal_piece x rest ∷ ps) = from_terminal (count (length x)) (x ++ rest) ∷ arrivals ps

abbrev pub server_part : List Piece → Bytes
server_part [] = []
server_part (server_piece x rest ∷ ps) = x ++ server_part ps
server_part (terminal_piece x rest ∷ ps) = server_part ps

abbrev pub terminal_part : List Piece → Bytes
terminal_part [] = []
terminal_part (server_piece x rest ∷ ps) = terminal_part ps
terminal_part (terminal_piece x rest ∷ ps) = x ++ terminal_part ps

-- The bytes that are printed, and those that go to the server.
abbrev pub printed : List Action → Bytes
printed [] = []
printed (write pipe_stdout x ∷ out) = x ++ printed out
printed (_ ∷ out) = printed out

abbrev pub uploaded : List Action → Bytes
uploaded [] = []
uploaded (write connection x ∷ out) = x ++ uploaded out
uploaded (_ ∷ out) = uploaded out

abbrev pub all_closed : Bool → List Action
all_closed true = close connection ∷ close pipe_stdout ∷ close pipe_stdin ∷ []
all_closed false = close pipe_stdin ∷ close connection ∷ close pipe_stdout ∷ []

abbrev pub last_arrival : Bool → Nread → Bytes → Arrival
last_arrival true nread base = from_server nread base
last_arrival false nread base = from_terminal nread base

-- How a run goes that passes on what it should and then closes.
record Relayed (ps : List Piece) (by_server : Bool) (result : Outcome (List Action)) : Type 0 where
  out : List Action
  returns : result ≡ ok (out ++ all_closed by_server)
  prints : printed out ≡ server_part ps
  uploads : uploaded out ≡ terminal_part ps

run-Relayed :
    (ps : List Piece) (by_server : Bool) (nread : Nread) (base : Bytes) (rest : List Arrival)
    → is_end nread ≡ true
    → Relayed ps by_server (run (arrivals ps ++ last_arrival by_server nread base ∷ rest))
unfolding run on_arrival on_read_connection on_read_stdin
run-Relayed [] true eof base rest e = record {
  out = [];
  returns = refl;
  prints = refl;
  uploads = refl;
}
run-Relayed [] true (error k) base rest e = record {
  out = [];
  returns = refl;
  prints = refl;
  uploads = refl;
}
run-Relayed [] false eof base rest e = record {
  out = [];
  returns = refl;
  prints = refl;
  uploads = refl;
}
run-Relayed [] false (error k) base rest e = record {
  out = [];
  returns = refl;
  prints = refl;
  uploads = refl;
}
run-Relayed [] by_server (count n) base rest e = absurd (ground arith)
run-Relayed (server_piece [] r ∷ ps) by_server nread base rest e =
    let d = run-Relayed ps by_server nread base rest e in
    record { out = d.out; returns = rw d.returns refl; prints = d.prints; uploads = d.uploads }
run-Relayed (server_piece (b ∷ x) r ∷ ps) by_server nread base rest e =
    let d = run-Relayed ps by_server nread base rest e in
    record {
      out = write pipe_stdout (b ∷ x) ∷ d.out;
      returns = rw (take-append_length (b ∷ x) r, d.returns) refl;
      prints = ap (λ xs. (b ∷ x) ++ xs) d.prints;
      uploads = d.uploads;
    }
run-Relayed (terminal_piece x r ∷ ps) by_server nread base rest e =
    let d = run-Relayed ps by_server nread base rest e in
    record {
      out = write connection x ∷ d.out;
      returns = rw (take-append_length x r, d.returns) refl;
      prints = d.prints;
      uploads = ap (λ xs. x ++ xs) d.uploads;
    }

-- In whatever order the reads of the two sides come, the client prints exactly the bytes that the
-- server sends, and sends it exactly the bytes that are typed. The first end or error of either
-- side closes each of the three streams once, and nothing more is passed on.
pub relay_lem :
    (ps : List Piece) (by_server : Bool) (nread : Nread) (base : Bytes) (rest : List Arrival)
    → is_end nread ≡ true
    → (out : List Action) × (run (arrivals ps ++ last_arrival by_server nread base ∷ rest)
        ≡ ok (out ++ all_closed by_server))
      × (printed out ≡ server_part ps)
      × (uploaded out ≡ terminal_part ps)
relay_lem ps by_server nread base rest e =
    let d = run-Relayed ps by_server nread base rest e in (d.out, d.returns, d.prints, d.uploads)
