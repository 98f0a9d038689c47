-- ===== src/Socks/Tests.antt =====
-- Runs of the proxy, and its theorems at concrete inputs.
use learnuv.Base.{
  ℕ, ◌+◌, ◌^◌, ◌≤◌, ◌<◌, ◌≡◌, refl, inl, true, List, [], ◌∷◌, ◌++◌, arith, Bytes, codes, length,
  take, replicate, length-replicate, out_of_range, ok, fail,
}
use learnuv.Base.Int.{negsuc}
use learnuv.Socks.Address.{byte_at, Addr, parse_addr, parse_addr_lem}
use learnuv.Socks.Layout.{Layout, alloc_buffer_client, alloc_buffer_server, alloc_buffers_lem}
use learnuv.Socks.Tunnel.{
  tunnel_start, connecting_to_server, Tunnel, live, client_data, connected, written_to_client, step,
  run,
}
use learnuv.Socks.Tunnel.Relay.{IsSized, early_lem}
use learnuv.Socks.Tunnel.Parcels.{Parcel, from_client, from_server}
use learnuv.Socks.Tunnel.Phases.{IsSilent, run-IsSilent}

abbrev page : Bytes
page = replicate 4096 170

-- Memory from `malloc`, with an offset that happens to be small
abbrev fresh_tunnel : Tunnel
fresh_tunnel = record {
  status = tunnel_start;
  addr = record { ip = []; port = 0 };
  server_buf_offset = 17;
  client_buf = page;
  server_buf = page;
}

abbrev waiting : Tunnel
waiting = record fresh_tunnel { status = connecting_to_server }

fresh_tunnel-IsSized : IsSized fresh_tunnel
fresh_tunnel-IsSized = (length-replicate {A = ℕ} 4096 170, length-replicate {A = ℕ} 4096 170)

abbrev six : Bytes
six = 31 ∷ 144 ∷ 127 ∷ 0 ∷ 0 ∷ 1 ∷ []

parse_addr_lem_example :
    (a : Addr) × (parse_addr (4 ∷ 1 ∷ six) 2 ≡ ok a)
    × (length a.ip < 16)
    × (a.port < 2 ^ 16)
    × (parse_addr (5 ∷ 0 ∷ six) 2 ≡ ok a
        → (i : ℕ) → i < 6
        → byte_at (5 ∷ 0 ∷ six) (i + 2) ≡ byte_at (4 ∷ 1 ∷ six) (i + 2))
parse_addr_lem_example = parse_addr_lem (4 ∷ 1 ∷ six) (5 ∷ 0 ∷ six) 2

abbrev layout : Layout
layout = record { client = 24; server = 272; client_buf = 1248; server_buf = 5344; size = 9440 }

alloc_buffers_lem_example :
    (alloc_buffer_client layout (4096 + 24) ≡ record { base = 4096 + 1248; len = 4096 })
    × (let b = alloc_buffer_server layout (4096 + 272) in
        (4096 + 5344 < b.base) × (4096 + 9440 < b.base + b.len))
alloc_buffers_lem_example = alloc_buffers_lem layout 4096 (record {
  in_order = omega arith;
  apart = omega arith;
  inside = omega arith;
  padding = omega arith;
})

abbrev dialogue : List Parcel
dialogue =
    from_client (codes " HTTP")
    ∷ from_server (codes "200") (0 ∷ [])
    ∷ from_client (codes "/1.0")
    ∷ []

early_lem_run :
    (17 + 4 < 4096
      → (t' : Tunnel) × (step waiting (client_data (codes "ping") true) ≡ ok ([], live t'))
        × (take (17 + 4) t'.server_buf ≡ take 17 page ++ codes "ping"))
    × (4096 ≤ 17 + 4 → step waiting (client_data (codes "ping") true) ≡ fail out_of_range)
early_lem_run =
    early_lem waiting (codes "ping") true refl fresh_tunnel-IsSized (omega arith, inl (omega arith))

run-IsSilent_example : IsSilent (
    run
      (live fresh_tunnel)
      (client_data (codes "ping") true ∷ connected (negsuc 110) ∷ written_to_client ∷ []))
run-IsSilent_example =
    run-IsSilent fresh_tunnel
      (client_data (codes "ping") true ∷ connected (negsuc 110) ∷ written_to_client ∷ []) refl
      (tt, (tt, (tt, tt)))
