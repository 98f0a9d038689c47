-- ===== src/Startup.antt =====
-- How the programs of the repository start, side by side. Each `main` is in the file of its
-- program.
mod Tests
use learnuv.Base.{
  ℕ, ◌≡◌, refl, ap, ◌∙◌, true, List, [], ◌∷◌, Bytes, replicate, out_of_range, exited, ok, fail,
}
use learnuv.Base.Int.{ℤ, pos, negsuc}
use learnuv.Uv.{Host, idles, quits, after_listen, check_uv-exits, safe_malloc-exits, listens}
use learnuv.Chat.Server.{start, main as chat_main}
use learnuv.Transfer.{main as transfer_main}
use learnuv.Socks.Options.{main as socks_main, listen_port, main-listen_port}
use learnuv.Chargen.{begin as chargen_begin, main as chargen_main}
use learnuv.Pingpong.Server.{main as pingpong_main}
use learnuv.Echo.Server.{main as echo_main}
use learnuv.Threads.{begin as threads_begin, global_buf_size}

-- Every call of the host succeeds.
pub record IsAnswered (h : Host) : Type 0 where
  pub memory : h.got ≡ true
  pub more_memory : h.got_again ≡ true
  pub inits : (n : ℕ) × (h.init ≡ pos n)
  pub binds : (n : ℕ) × (h.bind ≡ pos n)
  pub listening : (n : ℕ) × (h.listen ≡ pos n)
  pub ticks : (n : ℕ) × (h.timer_start ≡ pos n)

-- If the address is taken, so that `uv_listen` answers an error: the chat server, the echo server,
-- the threaded server and the proxy go into a loop in which nothing listens, while the character
-- generator, the file transfer and the ping-pong server exit, when their arguments are right in
-- number. With a wrong number, the first two of these exit, and the third returns 1, whatever the
-- host answers; but with two arguments it reads from a null pointer.
pub unheard_lem :
    (atoi : Bytes → ℤ) (args : List Bytes) (address port size file memory : Bytes)
    (more : List Bytes) (now k : ℕ) (n : ℤ) (h : Host)
    → h.listen ≡ negsuc k
    → listen_port atoi args ≡ ok n
    → (chat_main h ≡ idles start)
      × (echo_main h ≡ idles tt)
      × (threads_begin h ≡ idles (replicate global_buf_size 0))
      × (socks_main atoi args h ≡ ok (idles n))
      × (chargen_main (port ∷ []) now h ≡ fail exited)
      × (transfer_main (port ∷ file ∷ []) h ≡ fail exited)
      × (pingpong_main (address ∷ port ∷ size ∷ more) memory h ≡ fail exited)
      × (chargen_main [] now h ≡ fail exited)
      × (transfer_main (port ∷ []) h ≡ fail exited)
      × (pingpong_main (address ∷ []) memory h ≡ ok (quits 1))
      × (pingpong_main (address ∷ port ∷ []) memory h ≡ fail out_of_range)
unfolding chat_main echo_main threads_begin chargen_main transfer_main pingpong_main
unheard_lem atoi args address port size file memory more now k n h taken ported = (
  rw taken refl,
  rw taken refl,
  rw taken refl,
  main-listen_port atoi args h n ported ∙ ap (λ l. ok (after_listen l n)) taken,
  safe_malloc-exits h.got _ (rw taken refl),
  safe_malloc-exits h.got _ (check_uv-exits h.init _ (check_uv-exits h.bind _ (rw taken refl))),
  rw taken refl,
  refl,
  refl,
  refl,
  refl,
)

-- If every call succeeds, all of them listen, in their initial states.
pub heard_lem :
    (atoi : Bytes → ℤ) (args : List Bytes) (address port size file memory : Bytes)
    (more : List Bytes) (now : ℕ) (n : ℤ) (h : Host)
    → IsAnswered h
    → listen_port atoi args ≡ ok n
    → (chat_main h ≡ listens start)
      × (echo_main h ≡ listens tt)
      × (threads_begin h ≡ listens (replicate global_buf_size 0))
      × (socks_main atoi args h ≡ ok (listens n))
      × (chargen_main (port ∷ []) now h ≡ ok (listens (chargen_begin now)))
      × (transfer_main (port ∷ file ∷ []) h ≡ ok (listens file))
      × (pingpong_main (address ∷ port ∷ size ∷ more) memory h ≡ ok (listens memory))
unfolding chat_main echo_main threads_begin chargen_main transfer_main pingpong_main
heard_lem atoi args address port size file memory more now n h a ported =
    let (_, inits) = a.inits in
    let (_, binds) = a.binds in
    let (_, hears) = a.listening in
    let (_, ticks) = a.ticks in
    (
      rw hears refl,
      rw hears refl,
      rw hears refl,
      main-listen_port atoi args h n ported ∙ ap (λ l. ok (after_listen l n)) hears,
      rw (a.memory, a.more_memory, hears, ticks) refl,
      rw (a.memory, inits, binds, hears) refl,
      rw hears refl,
    )
