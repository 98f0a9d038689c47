-- ===== src/Socks/Tunnel/Parcels.antt =====
-- What a connected tunnel passes on, as the reads of its two sides come.
use learnuv.Base.{
  ◌≤◌, ◌≡◌, refl, ap, ◌∙◌, ◌⊎◌, true, List, [], ◌∷◌, ◌++◌, arith, Bytes, length, ok,
  length-overwrite, All, inl, inr,
}
use learnuv.Uv.{count, c_string}
use learnuv.Socks.Tunnel.{
  connected_to_server, Tunnel, Effect, to_client, to_server, live, client_data, received, step,
  Event, run, on_server_read, server_data,
}
use learnuv.Socks.Tunnel.Relay.{server_bytes, client_bytes, IsChunk, step-connected, run-next}

-- A chunk that is read from the client, or one from the server with the rest of the buffer that it
-- is read into.
pub data Parcel : Type 0 where
  from_client : Bytes → Parcel
  from_server : Bytes → Bytes → Parcel

abbrev pub parcels : List Parcel → List Event
parcels [] = []
parcels (from_client ds ∷ ps) = client_data ds true ∷ parcels ps
parcels (from_server ds rest ∷ ps) = server_data (count (length ds)) (ds ++ rest) ∷ parcels ps

-- A chunk from the server that is too long to be printed, or that ends in memory when it is
abbrev pub IsParcel : Parcel → Type 0
IsParcel (from_client ds) = IsChunk ds
IsParcel (from_server ds rest) =
    (50 ≤ length ds) ⊎ ((text : Bytes) × (c_string (ds ++ rest) ≡ ok text))

-- What the client has sent; and what the server has, with the rest of the buffer behind each chunk.
abbrev pub client_part : List Parcel → Bytes
client_part [] = []
client_part (from_client ds ∷ ps) = ds ++ client_part ps
client_part (from_server ds rest ∷ ps) = client_part ps

abbrev pub server_part : List Parcel → Bytes
server_part [] = []
server_part (from_client ds ∷ ps) = server_part ps
server_part (from_server ds rest ∷ ps) = (ds ++ rest) ++ server_part ps

step-from_server :
    (t : Tunnel) (ds rest : Bytes)
    → IsParcel (from_server ds rest)
    → step t (server_data (count (length ds)) (ds ++ rest))
      ≡ ok (to_client (ds ++ rest) ∷ [], live t)
unfolding step on_server_read
step-from_server t ds rest (inl long) = ground arith
step-from_server t ds rest (inr (text, e)) = ground (arith, e)

pub run-parcels :
    (t : Tunnel) (ps : List Parcel)
    → t.status ≡ connected_to_server
    → length t.client_buf ≡ 4096
    → All IsParcel ps
    → (out : List Effect) × (t' : Tunnel) × (run (live t) (parcels ps) ≡ ok (out, live t'))
      × (server_bytes out ≡ client_part ps)
      × (client_bytes out ≡ server_part ps)
unfolding run
run-parcels t [] s m h = ([], t, refl, refl, refl)
run-parcels t (from_client ds ∷ ps) s m h =
    let (out, t', e, up, down) =
      run-parcels (received t ds) ps s (length-overwrite 0 ds t.client_buf ∙ m) h.1 in
    (
      to_server ds ∷ out,
      t',
      run-next t (client_data ds true) (parcels ps) (live (received t ds)) (live t')
          (to_server ds ∷ []) out (step-connected t ds s m h.0) e,
      ap (λ xs. ds ++ xs) up,
      down,
    )
run-parcels t (from_server ds rest ∷ ps) s m h =
    let (out, t', e, up, down) = run-parcels t ps s m h.1 in
    (
      to_client (ds ++ rest) ∷ out,
      t',
      run-next t (server_data (count (length ds)) (ds ++ rest)) (parcels ps) (live t) (live t')
          (to_client (ds ++ rest) ∷ []) out (step-from_server t ds rest h.0) e,
      up,
      ap (λ xs. (ds ++ rest) ++ xs) down,
    )
