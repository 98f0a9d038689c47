-- ===== src/Echo/Tests.antt =====
-- The echo client at a concrete input.
use learnuv.Base.{◌≡◌, refl, true, List, [], ◌∷◌, ◌++◌, codes, ok}
use learnuv.Uv.{count, eof}
use learnuv.Echo.Client.{Action, from_server, from_terminal, run}
use learnuv.Echo.Client.Relay.{
  Piece, server_piece, terminal_piece, arrivals, printed, uploaded, all_closed, relay_lem,
}

abbrev talk : List Piece
talk =
    terminal_piece (codes "hi\n") []
    ∷ server_piece (codes "hi") (codes "??")
    ∷ server_piece (codes "\n") []
    ∷ []

relay_lem_example :
    (out : List Action) × (run
        (arrivals talk ++ from_server eof [] ∷ from_terminal (count 1) (codes "x") ∷ [])
      ≡ ok (out ++ all_closed true))
    × (printed out ≡ codes "hi\n")
    × (uploaded out ≡ codes "hi\n")
relay_lem_example = relay_lem talk true eof [] (from_terminal (count 1) (codes "x") ∷ []) refl
