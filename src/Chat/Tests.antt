-- ===== src/Chat/Tests.antt =====
-- The theorems of the chat at concrete inputs.
use learnuv.Base.{
  Bytes, length-replicate, ℕ, ◌≤◌, ◌<◌, ◌≡◌, ◌≢◌, refl, inl, inr, ◌↔◌, true, false, List, [], ◌∷◌,
  ◌++◌, arith, codes, length, replicate, concat, All, out_of_range, exited, ok, fail,
}
use learnuv.Base.Int.{pos, negsuc}
use learnuv.Buffer.{new}
use learnuv.Buffer.Inv.{contents, new-IsValid}
use learnuv.Codec.{Codec, new_codec}
use learnuv.Codec.Stream.{framed, Decodes}
use learnuv.Codec.Feed.{feed}
use learnuv.Codec.RoundTrip.{new_codec-IsReady}
use learnuv.Uv.{count, eof}
use learnuv.Chat.Wire.{Wire, moves, make}
use learnuv.Chat.Wire.Queue.{at_once, all_made, all_taken, queue_lem}
use learnuv.Chat.Server.{start as start_server, Write, deliver, Server, on_read, on_connection}
use learnuv.Chat.Server.Broadcast.{IsWell as IsWellServer}
use learnuv.Chat.Server.Input.{Has, IsRegistered, on_read_eof, on_connection_lem}
use learnuv.Chat.Server.Arrivals.{Arrival, pieces, on_reads, on_reads-feed}
use learnuv.Chat.Server.History.{broadcasts, on_reads-broadcasts}
use learnuv.Chat.Server.Recipients.{sent_to}
use learnuv.Chat.Client.{start as start_client, Sent, Client, test, on_read_stdin}
use learnuv.Chat.Client.Input.{IsWell as IsWellClient, on_read_stdin_lem, stdin_repeats}
use learnuv.Chat.Client.Pieces.{sent_bytes, test-feed}
use learnuv.Chat.Client.Reads.{tcp_reads, cut, IsWaiting}
use learnuv.Chat.Delivery.{IsFresh, repeats_lem}

abbrev two_clients : Server
two_clients = record {
  conns = 0 ∷ 1 ∷ [];
  codec = record { buffer = new 64 };
  buf = new 16;
  connections = 2;
}

abbrev two_clients-IsWell : IsWellServer two_clients
two_clients-IsWell = record {
  buf_valid = omega arith;
  unread = refl;
  codec_ready = record { valid = omega arith; idle = inl (omega arith) };
}

abbrev two_clients-IsRegistered : IsRegistered two_clients
two_clients-IsRegistered = record {
  distinct = ((λ x. elim x [ inl e ↦ omega arith | inr y ↦ y ]), ((λ x. x), tt));
  older = omega arith;
}

on_read_eof_run :
    (t : Server) × (on_read two_clients 1 eof [] ≡ ok ([], t))
    × ((d : ℕ) → Has d t.conns ↔ (Has d (0 ∷ 1 ∷ []) × (d ≢ 1)))
    × IsRegistered t
    × (t.codec ≡ two_clients.codec)
    × (t.buf ≡ new 16)
on_read_eof_run = on_read_eof two_clients 1 [] two_clients-IsRegistered

on_connection_lem_run :
    (on_connection two_clients (negsuc 3) true (pos 0) ≡ ok two_clients)
    × ((t : Server) × (on_connection two_clients (pos 3) true (pos 0) ≡ ok t)
        × (t.conns ≡ 0 ∷ 1 ∷ 2 ∷ [])
        × (¬ Has 2 (0 ∷ 1 ∷ []))
        × IsRegistered t)
    × (on_connection two_clients (pos 3) false (pos 0) ≡ fail exited)
    × (on_connection two_clients (pos 3) true (negsuc 0) ≡ fail exited)
on_connection_lem_run = on_connection_lem two_clients 3 0 two_clients-IsRegistered

test-feed_example :
    (ss : List Sent) × (c : Client) × (d : Codec) × (test start_client (codes "hi") ≡ ok (ss, c))
    × (concat (sent_bytes ss) ≡ framed (codes "hi"))
    × All (λ s. length s ≤ 2) (sent_bytes ss)
    × (feed new_codec (sent_bytes ss) ≡ ok (codes "hi" ∷ [], d))
test-feed_example = test-feed (codes "hi") (omega arith) (omega arith)

abbrev small_client : Client
small_client = record start_client { buffer = new 16 }

on_read_stdin_lem_example :
    (6 ≤ 1024
      → (c' : Client) × (on_read_stdin small_client (count 2) (codes "hi" ++ 0 ∷ [])
          ≡ ok (record { bytes = framed (codes "hi"); done = 1 } ∷ [], c'))
        × IsWellClient c'
        × (contents c'.buffer ≡ framed (codes "hi"))
        × (c'.buffer.writer_index ≡ 6))
    × (1024 < 6 → on_read_stdin small_client (count 2) (codes "hi" ++ 0 ∷ []) ≡ fail out_of_range)
on_read_stdin_lem_example =
    on_read_stdin_lem small_client 2 (codes "hi") [] (record { valid = omega arith; unread = refl })
      (omega arith) (omega arith) (omega arith)

stdin_repeats_run :
    (d e : Client) × (on_read_stdin small_client (count 3) (codes "abc" ++ 0 ∷ [])
      ≡ ok (record { bytes = framed (codes "abc"); done = 1 } ∷ [], d))
    × (on_read_stdin d (count 2) (codes "xy" ++ 0 ∷ [])
        ≡ ok (record { bytes = 0 ∷ 0 ∷ 0 ∷ 3 ∷ codes "ab"; done = 1 } ∷ [], e))
stdin_repeats_run =
    stdin_repeats small_client 3 2 (codes "abc") (codes "xy") [] []
      (record { valid = omega arith; unread = refl }) refl (omega arith) (omega arith) (omega arith)
      (omega arith) (omega arith)

abbrev quiet : Wire
quiet = record { send_buf = replicate 1024 0; waiting = []; out = [] }

queue_lem_example :
    ((moves quiet (at_once (codes "ab" ∷ codes "cd" ∷ []))).out ≡ codes "abcd")
    × ((moves quiet (
          all_made (codes "ab" ∷ [])
          ++ make (codes "cd") ∷ all_taken (codes "ab" ∷ codes "cd" ∷ []))).out
        ≡ codes "cdcd")
queue_lem_example =
    queue_lem quiet (codes "ab" ∷ []) (codes "cd") refl (omega arith, (omega arith, tt))
      (omega (arith, length-replicate {A = ℕ} 1024 0))

abbrev mixed : List Arrival
mixed = (0, 0 ∷ 0 ∷ 0 ∷ []) ∷ (1, 2 ∷ codes "hi") ∷ []

on_reads-feed_example :
    (ms : List Bytes) × (c : Codec) × (feed two_clients.codec (pieces mixed) ≡ ok (ms, c))
    × Decodes
        (contents two_clients.codec.buffer ++ (0 ∷ 0 ∷ 0 ∷ 2 ∷ codes "hi"))
        ms
        (contents c.buffer)
    × (on_reads two_clients mixed ≡ deliver (record two_clients { codec = c }) ms)
on_reads-feed_example =
    on_reads-feed two_clients mixed two_clients-IsWell.codec_ready (omega arith)
      (omega arith, (omega arith, tt))

abbrev two_clients-IsFresh : IsFresh two_clients
two_clients-IsFresh = record {
  safe = record { well = two_clients-IsWell; registered = two_clients-IsRegistered };
  nothing_read = refl;
  nothing_sent = refl;
}

-- The server as it starts, after two clients have connected.
abbrev two_connected : Server
two_connected = record start_server { conns = 0 ∷ 1 ∷ []; connections = 2 }

abbrev two_connected-IsFresh : IsFresh two_connected
two_connected-IsFresh = record {
  safe = record {
    well = record {
      buf_valid = new-IsValid 1024 (omega arith);
      unread = refl;
      codec_ready = new_codec-IsReady;
    };
    registered = record {
      distinct = two_clients-IsRegistered.distinct;
      older = two_clients-IsRegistered.older;
    };
  };
  nothing_read = refl;
  nothing_sent = refl;
}

abbrev start_client-IsWaiting : IsWaiting start_client
start_client-IsWaiting = record { ready = new_codec-IsReady; nothing_read = refl }

abbrev receiver : Client
receiver = record start_client { codec = record { buffer = new 64 } }

abbrev receiver-IsWaiting : IsWaiting receiver
receiver-IsWaiting = record {
  ready = record { valid = omega arith; idle = inl (omega arith) };
  nothing_read = refl;
}

abbrev both : List Arrival
both = (0, framed (codes "hi") ++ 0 ∷ []) ∷ (1, 0 ∷ 0 ∷ 2 ∷ codes "yo") ∷ []

repeats_lem_example :
    (ws : List Write) × (t : Server) × (receiver' : Client) × (on_reads two_clients both
      ≡ ok (ws, t))
    × (tcp_reads receiver (cut (4 ∷ 3 ∷ []) (sent_to 0 ws))
        ≡ ok (codes "hi" ∷ codes "hi" ∷ [], receiver'))
    × IsWaiting receiver'
repeats_lem_example =
    repeats_lem two_clients receiver 0 (codes "hi") (codes "yo" ∷ []) both (4 ∷ 3 ∷ [])
      two_clients-IsFresh (inl refl) receiver-IsWaiting (omega arith) (omega arith) (omega arith)
      (refl, tt) (omega arith, (omega arith, tt)) refl (omega arith) (omega arith) (omega arith)

on_reads-broadcasts_example :
    (t : Server) × (on_reads two_clients both
      ≡ ok (
        broadcasts
            (0 ∷ 1 ∷ [])
            (framed (codes "hi") ++ framed (codes "yo"))
            (codes "hi" ∷ codes "yo" ∷ []),
        t,
      ))
    × IsWellServer t
    × (contents t.codec.buffer ≡ [])
    × (contents t.buf ≡ framed (codes "hi") ++ framed (codes "yo"))
    × (t.conns ≡ 0 ∷ 1 ∷ [])
on_reads-broadcasts_example =
    on_reads-broadcasts two_clients both (codes "hi" ∷ codes "yo" ∷ []) [] two_clients-IsWell
      (omega arith, (omega arith, tt)) (omega arith, omega arith, (omega arith, omega arith, tt))
      (inl (omega arith)) refl (omega arith) (omega arith)
