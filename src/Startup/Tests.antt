-- ===== src/Startup/Tests.antt =====
-- The programs start on a host where the address is taken.
use learnuv.Base.{
  ◌≡◌, refl, true, [], ◌∷◌, Bytes, codes, length, replicate, out_of_range, exited, ok, fail,
}
use learnuv.Base.Int.{ℤ, pos, negsuc}
use learnuv.Uv.{Host, idles, quits}
use learnuv.Chat.Server.{start, main as chat_main}
use learnuv.Transfer.{main as transfer_main}
use learnuv.Socks.Options.{main as socks_main, listen_port-flag, port_flag}
use learnuv.Chargen.{main as chargen_main}
use learnuv.Pingpong.Server.{main as pingpong_main}
use learnuv.Echo.Server.{main as echo_main}
use learnuv.Threads.{begin as threads_begin}
use learnuv.Startup.{unheard_lem}

-- "EADDRINUSE"
abbrev taken : Host
taken = record {
  got = true;
  got_again = true;
  init = pos 0;
  bind = pos 0;
  listen = negsuc 97;
  timer_start = pos 0;
}

-- In place of the C library's function
abbrev digits_of : Bytes → ℤ
digits_of text = pos (length text)

unheard_lem_run :
    (chat_main taken ≡ idles start)
    × (echo_main taken ≡ idles tt)
    × (threads_begin taken ≡ idles (replicate 8192 0))
    × (socks_main digits_of (port_flag ∷ codes "1080" ∷ []) taken ≡ ok (idles (pos 4)))
    × (chargen_main (codes "80" ∷ []) 0 taken ≡ fail exited)
    × (transfer_main (codes "80" ∷ codes "a.txt" ∷ []) taken ≡ fail exited)
    × (pingpong_main (codes "::" ∷ codes "80" ∷ codes "9" ∷ []) (replicate 9 0) taken ≡ fail exited)
    × (chargen_main [] 0 taken ≡ fail exited)
    × (transfer_main (codes "80" ∷ []) taken ≡ fail exited)
    × (pingpong_main (codes "::" ∷ []) (replicate 9 0) taken ≡ ok (quits 1))
    × (pingpong_main (codes "::" ∷ codes "80" ∷ []) (replicate 9 0) taken ≡ fail out_of_range)
unheard_lem_run =
    unheard_lem digits_of (port_flag ∷ codes "1080" ∷ []) (codes "::") (codes "80") (codes "9")
      (codes "a.txt") (replicate 9 0) [] 0 97 (pos 4) taken refl
      (listen_port-flag digits_of (codes "1080"))
