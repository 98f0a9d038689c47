-- ===== src/Socks/Tunnel/Session.antt =====
-- A session from the request on.
use learnuv.Base.{◌+◌, ◌*◌, ◌≡◌, [], ◌∷◌, ◌++◌, Bytes}
use learnuv.Socks.Address.{Addr, dotted}
use learnuv.Socks.Tunnel.{Tunnel}

-- Version 4, command "connect", the port in network order, the address, the user name.
abbrev pub request : Bytes → Bytes → Bytes
request six user = 4 ∷ 1 ∷ (six ++ (user ++ 0 ∷ []))

-- What a request asks for.
abbrev pub IsAsked : Bytes → Addr → Type 0
IsAsked (hi ∷ lo ∷ a ∷ b ∷ c ∷ d ∷ []) addr =
    (addr.ip ≡ dotted a b c d) × (addr.port ≡ hi * 256 + lo)
IsAsked _ addr = ⊥
