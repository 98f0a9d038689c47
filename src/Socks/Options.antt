-- ===== src/Socks/Options.antt =====
-- The command line of socks/socks_server.cpp.
use learnuv.Base.{
  ◌≡◌, ◌≢◌, refl, Bool, true, false, ◌&&◌, ◌||◌, List, [], ◌∷◌, arith, Bytes, codes, length, ◌==◌,
  if◌then◌else◌, out_of_range, exited, Outcome, ok, fail, ◌>>=◌,
}
use learnuv.Base.Int.{ℤ, pos}
use learnuv.Base.Decimal.{value}
use learnuv.Uv.{Host, Begun, after_listen}

-- `!strcmp(a, b)`
pub same_text : Bytes → Bytes → Bool
same_text [] [] = true
same_text (a ∷ s) (b ∷ t) = (a == b) && same_text s t
same_text _ _ = false

abbrev pub port_flag : Bytes
port_flag = codes "-p"

-- `atoi` is the C library's.
module _ (atoi : Bytes → ℤ) where
  -- The loop of `main` over the arguments behind the program's name. A null pointer follows the
  -- last one, and `atoi` reads from it.
  pub find_port : ℤ → List Bytes → Outcome ℤ
  unfolding same_text
  find_port port [] = ok port
  find_port port (arg ∷ []) = if same_text arg port_flag then fail out_of_range else ok port
  find_port port (arg ∷ value ∷ args) =
      let rest = find_port port (value ∷ args) in
      if same_text arg port_flag then ok (atoi value) else rest

  -- `main`: the port that the proxy listens on
  pub listen_port : List Bytes → Outcome ℤ
  unfolding find_port
  listen_port args =
      if length args == 0 || length args == 2 then find_port (pos 3000) args else fail exited

  -- `main`, into the loop: the answer of `uv_listen` is printed.
  pub main : List Bytes → Host → Outcome (Begun ℤ)
  unfolding listen_port
  main args h = do port ← listen_port args; ok (after_listen h.listen port)

  pub main-listen_port :
      (args : List Bytes) (h : Host) (port : ℤ)
      → listen_port args ≡ ok port
      → main args h ≡ ok (after_listen h.listen port)
  unfolding main
  main-listen_port args h port e = rw e refl

  pub listen_port-flag : (value : Bytes) → listen_port (port_flag ∷ value ∷ []) ≡ ok (atoi value)
  unfolding listen_port find_port same_text
  listen_port-flag value = refl

  -- Without arguments the proxy listens on port 3000, and with `-p` and a number on that. With two
  -- arguments of which only the last is `-p`, it reads from a null pointer, and with any other two
  -- it listens on port 3000. With any other number of arguments it exits.
  listen_port_lem :
      (a b c : Bytes) (args : List Bytes)
      → same_text a port_flag ≡ false
      → same_text b port_flag ≡ false
      → length args ≢ 0
      → length args ≢ 2
      → (listen_port [] ≡ ok (pos 3000))
        × (listen_port (port_flag ∷ c ∷ []) ≡ ok (atoi c))
        × (listen_port (a ∷ port_flag ∷ []) ≡ fail out_of_range)
        × (listen_port (a ∷ b ∷ []) ≡ ok (pos 3000))
        × (listen_port args ≡ fail exited)
  unfolding listen_port find_port same_text
  listen_port_lem a b c args other other' none_given two_given =
      (refl, refl, rw other refl, rw (other, other') refl, ground arith)
