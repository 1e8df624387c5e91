-- ===== src/Rcon/Shutdown.antt =====
-- GracefulShutdown: the commands that reach the server, and their order.
use minecraft_operator.Effects.{
  Script, command_failed, cancelled, return, check_context, wait, attempt, Failure, Action, execute,
  Log, Outside,
}
use minecraft_operator.Prelude.{
  Result, Bool-cases, ◌⊎◌, inl, inr, ok, err, ap, ◌∙◌, is_empty, if◌then◌else◌, ◌≡◌, Bool, true,
  false, refl, List, [], ◌∷◌,
}
use minecraft_operator.Prelude.Bytes.{bytes, Bytes}
use minecraft_operator.Rcon.{
  send_now, graceful_shutdown, send_command, send_warnings, RconClient, say,
}
use minecraft_operator.Effects.Triples.{Post, seq-Triple, Triple}

-- The commands sent, newest first.
unfoldable pub commands : Log → List Bytes
commands [] = []
commands (execute command ∷ log) = command ∷ commands log
commands (a ∷ log) = commands log

-- The warnings in their order, in front of the commands before them.
unfoldable pub warned : List Bytes → List Bytes → List Bytes
warned [] sent = sent
warned (warning ∷ warnings) sent = warned warnings (say warning ∷ sent)

-- The newest call was answered with a failure.
abbrev pub LastFailed : Outside → Log → Type 0
LastFailed o log = (a : Action) × (before : Log) × (log ≡ a ∷ before) × (o.answers before a ≡ false)

module _ (o : Outside) (c : RconClient) (up : c.connected ≡ true) where
  abbrev Sent : List Bytes → Log → Type 0
  Sent cs log = commands log ≡ cs

  call :
      (P Q : Log → Type 0) (a : Action) (e : Failure)
      → ((log : Log) → P log → Q (a ∷ log))
      → Triple P (attempt o a e) (λ _. Q) (LastFailed o)
  unfolding attempt
  call P Q a e h log p = elim (Bool-cases (o.answers log a)) [
    | inl t ↦ rw t (h log p)
    | inr f ↦ rw f (a, log, refl, f)
  ]

  when :
      (b : Bool) (m n : Script (Unit {0})) (P Q R : Log → Type 0)
      → b ≡ true
      → Triple P m (λ _. Q) R
      → Triple P (if b then m else n) (λ _. Q) R
  when b m n P Q R e h = rw e h

  quiet_call :
      (cs : List Bytes) (a : Action) (e : Failure)
      → ((log : Log) → commands (a ∷ log) ≡ commands log)
      → Triple (Sent cs) (attempt o a e) (λ _. Sent cs) (LastFailed o)
  quiet_call cs a e h = call (Sent cs) (Sent cs) a e (λ log s. h log ∙ s)

  send_command-Sent :
      (cs : List Bytes) (command : Bytes)
      → Triple (Sent cs) (send_command o c command) (λ _. Sent (command ∷ cs)) (LastFailed o)
  unfolding send_command send_now commands
  send_command-Sent cs command = rw up (
      seq-Triple (Sent cs) _ _ (λ _. Sent cs) (λ _. Sent (command ∷ cs)) (LastFailed o)
        (quiet_call cs check_context cancelled (λ log. refl))
        (λ _.
          call (Sent cs) (Sent (command ∷ cs)) (execute command) (command_failed command)
            (λ log s. ap (λ x. command ∷ x) s)))

  send_warnings-Sent :
      (cs ws : List Bytes)
      → Triple (Sent cs) (send_warnings o c ws) (λ _. Sent (warned ws cs)) (LastFailed o)
  unfolding send_warnings warned commands
  send_warnings-Sent cs [] = λ log s. s
  send_warnings-Sent cs (w ∷ ws) =
      seq-Triple (Sent cs) _ _ (λ _. Sent (say w ∷ cs)) (λ _. Sent (warned ws (say w ∷ cs)))
        (LastFailed o)
        (seq-Triple (Sent cs) _ _ (λ _. Sent cs) (λ _. Sent (say w ∷ cs)) (LastFailed o)
          (quiet_call cs check_context cancelled (λ log. refl))
          (λ _.
            seq-Triple (Sent cs) _ _ (λ _. Sent (say w ∷ cs)) (λ _. Sent (say w ∷ cs))
              (LastFailed o) (send_command-Sent cs (say w)) (λ _. pause ws (say w ∷ cs))))
        (λ _. send_warnings-Sent (say w ∷ cs) ws)
    where
      pause :
          (rest ds : List Bytes)
          → Triple
              (Sent ds)
              (if is_empty rest then return tt else attempt o wait cancelled)
              (λ _. Sent ds)
              (LastFailed o)
      pause [] ds = λ log s. s
      pause (r ∷ rest) ds = quiet_call ds wait cancelled (λ log. refl)

  shutdown-Sent :
      (cs ws : List Bytes)
      → Triple
          (Sent cs)
          (graceful_shutdown o c ws)
          (λ _. Sent (bytes "stop" ∷ bytes "save-all" ∷ warned ws cs))
          (LastFailed o)
  unfolding graceful_shutdown commands
  shutdown-Sent cs ws =
      when c.connected _ _ (Sent cs) (Sent (bytes "stop" ∷ bytes "save-all" ∷ warned ws cs))
        (LastFailed o) up
        (seq-Triple (Sent cs) _ _ (λ _. Sent (warned ws cs))
          (λ _. Sent (bytes "stop" ∷ bytes "save-all" ∷ warned ws cs)) (LastFailed o)
          (send_warnings-Sent cs ws)
          (λ _.
            seq-Triple (Sent (warned ws cs)) _ _ (λ _. Sent (bytes "save-all" ∷ warned ws cs))
              (λ _. Sent (bytes "stop" ∷ bytes "save-all" ∷ warned ws cs)) (LastFailed o)
              (send_command-Sent (warned ws cs) (bytes "save-all"))
              (λ _.
                seq-Triple (Sent (bytes "save-all" ∷ warned ws cs)) _ _
                  (λ _. Sent (bytes "save-all" ∷ warned ws cs))
                  (λ _. Sent (bytes "stop" ∷ bytes "save-all" ∷ warned ws cs)) (LastFailed o)
                  (quiet_call (bytes "save-all" ∷ warned ws cs) wait cancelled (λ log. refl))
                  (λ _. send_command-Sent (bytes "save-all" ∷ warned ws cs) (bytes "stop")))))

-- A graceful shutdown over an open connection either succeeds, and then the commands that it has sent are
-- the warnings in their order, "save-all" and "stop"; or the newest call in the log is one that was answered
-- with a failure.
pub graceful_shutdown_cases :
    (o : Outside) (c : RconClient) (ws : List Bytes) (log : Log)
    → c.connected ≡ true
    → let (result, after) = graceful_shutdown o c ws log in
      ((result ≡ ok tt)
        × (commands after ≡ bytes "stop" ∷ bytes "save-all" ∷ warned ws (commands log)))
      ⊎ LastFailed o after
graceful_shutdown_cases o c ws log up =
    go (graceful_shutdown o c ws log) (shutdown-Sent o c up (commands log) ws log refl)
  where
    go :
        (r : Result Failure (Unit {0}) × Log)
        → Post
            (λ _ after. commands after ≡ bytes "stop" ∷ bytes "save-all" ∷ warned ws (commands log))
            (LastFailed o)
            r
        → ((r.0 ≡ ok tt)
            × (commands r.1 ≡ bytes "stop" ∷ bytes "save-all" ∷ warned ws (commands log)))
          ⊎ LastFailed o r.1
    go (ok x, after) q = inl (refl, q)
    go (err e, after) q = inr q
