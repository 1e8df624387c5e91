-- ===== src/Rcon.antt =====
-- pkg/rcon: client.go. A client holds a connection or none; the connection's replies are the outside's.
pub mod Shutdown
use minecraft_operator.Prelude.{
  not, ◌++◌, Bool, true, false, List, [], ◌∷◌, if◌then◌else◌, is_empty, ◌||◌, Result, ok, err,
}
use minecraft_operator.Prelude.Bytes.{Bytes, bytes}
use minecraft_operator.Effects.{
  empty_password, invalid_port, empty_host, ClientError, command_failed, dial_failed, not_connected,
  connect, execute, fail, cancelled, close_failed, check_context, close, wait, Failure, attempt,
  return, Log, Script, Outside, ◌>>=◌,
}
use minecraft_operator.Prelude.Int.{pos, ltb_ℤ, ℤ}

pub record RconClient : Type 0 where
  pub host : Bytes
  pub port : ℤ
  pub password : Bytes
  pub connected : Bool

unfoldable pub new_rcon_client : Bytes → ℤ → Bytes → Result ClientError RconClient
new_rcon_client host port password =
    if is_empty host
    then err empty_host
    else if not (ltb_ℤ (pos 0) port) || ltb_ℤ (pos 65535) port
    then err (invalid_port port)
    else if is_empty password
    then err empty_password
    else ok (record { host = host; port = port; password = password; connected = false })

-- The client after a successful dial.
unfoldable pub connect_client : Outside → RconClient → Script RconClient
connect_client o c = do
  _ ← attempt o check_context cancelled
  _ ← attempt o connect dial_failed
  return (record c { connected = true })

-- The part of `SendCommand` behind the question whether the context is cancelled.
unfoldable pub send_now : Outside → RconClient → Bytes → Script (Unit {0})
send_now o c command =
    if c.connected then attempt o (execute command) (command_failed command) else fail not_connected

unfoldable pub send_command : Outside → RconClient → Bytes → Script (Unit {0})
send_command o c command = attempt o check_context cancelled >>= λ _. send_now o c command

abbrev say : Bytes → Bytes
say warning = bytes "say " ++ warning

-- The loop over the warnings, with a wait between two of them.
unfoldable pub send_warnings : Outside → RconClient → List Bytes → Script (Unit {0})
send_warnings o c [] = return tt
send_warnings o c (warning ∷ warnings) =
    let rest = send_warnings o c warnings in
    (do
      _ ← attempt o check_context cancelled
      _ ← send_command o c (say warning)
      (if is_empty warnings then return tt else attempt o wait cancelled))
    >>= λ _. rest

unfoldable pub graceful_shutdown : Outside → RconClient → List Bytes → Script (Unit {0})
unfolding send_warnings
graceful_shutdown o c warnings =
    if c.connected
    then (do
      _ ← send_warnings o c warnings
      _ ← send_command o c (bytes "save-all")
      _ ← attempt o wait cancelled
      send_command o c (bytes "stop"))
    else fail not_connected

-- The client has no connection afterwards, whether closing it succeeds or not.
unfoldable pub close_client :
    Outside → RconClient → Log → (Result Failure (Unit {0}) × RconClient) × Log
close_client o c log =
    if c.connected
    then (let (result, after) = attempt o close close_failed log in
        ((result, record c { connected = false }), after))
    else ((ok tt, c), log)

-- The same as a deferred call, behind which nobody uses the client.
unfoldable pub close_at_end : Outside → RconClient → Script (Unit {0})
close_at_end o c log = let ((result, _), after) = close_client o c log in (result, after)
