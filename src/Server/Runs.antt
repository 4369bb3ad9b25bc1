-- ===== src/Server/Runs.antt =====
-- A server that is started, waited for, stopped and destroyed, beside its runner thread.
use network_lirbary.Common.Process.{Process}
use network_lirbary.Common.Run.{Run, done, thrown}
use network_lirbary.Common.{
  ◌≡◌, refl, sym, ap, ap₂, ◌∙◌, subst, Bool, true, false, ◌||◌, if◌then◌else◌, Bool-cases, if-holds,
  inl, inr, List, [], ◌∷◌, Option, none, some,
}
use network_lirbary.Config.Settings.{ServerConfig}
use network_lirbary.Event.Listening.{System}
use network_lirbary.Security.TlsContext.{OpenSsl}
use network_lirbary.Server.{
  Server, Reactor, Booting, new, start, stop, wait, destroy, reload_config, started, spawned,
  assign_thread, init_server, reload_reactor,
}

-- The calls of the application, and of a reload.
pub data ServerCall : Type 0 where
  starts stops waits : ServerCall
  reloads : ServerConfig → ServerCall

-- No thread object has ended the program, there is a thread to be joined only while the server
-- runs, and a server that runs is set up.
pub record IsSound (s : Server) : Type 0 where
  pub alive : s.terminated ≡ false
  pub joinable : s.running ≡ false → s.runner_thread ≡ false
  pub set_up : s.running ≡ true → (r : Reactor) × (s.reactor ≡ some r)

module _ (system : System) (openssl : OpenSsl system.World) where
  open system use {World, spawn}

  abbrev second : Bool × Server × Process World → Server × Process World
  second (ok, s, p) = (s, p)

  pub perform : Server × Process World → ServerCall → Server × Process World
  perform (s, p) starts = second (start system openssl s p)
  perform (s, p) stops = (stop s, p)
  perform (s, p) waits = (wait s, p)
  perform (s, p) (reloads c) = reload_config system openssl s c p

  pub run : Server × Process World → List ServerCall → Server × Process World
  run sp [] = sp
  run sp (c ∷ cs) = run (perform sp c) cs

  -- A stopped server has no thread to be joined, so another may be assigned.
  spawned-IsSound :
      (s : Server) (r : Reactor) (p : Process World) (a : Bool × World)
      → s.terminated ≡ false
      → s.runner_thread ≡ false
      → IsSound (spawned system openssl (record s { reactor = some r; running = true }) p a).1
  unfolding assign_thread
  spawned-IsSound s r p (true, w) alive none_left = record {
    alive = ap₂ ◌||◌ alive none_left;
    joinable = λ e. cc;
    set_up = λ e. (r, refl);
  }
  spawned-IsSound s r p (false, w) alive none_left = record {
    alive = alive;
    joinable = λ e. none_left;
    set_up = λ e. (r, refl);
  }

  started-IsSound :
      (s : Server) (m : Option (Run (Booting World)) × Process World)
      → IsSound s
      → s.running ≡ false
      → IsSound (started system openssl s m).1
  started-IsSound s (none, p) v off = v
  started-IsSound s (some (done b), p) v off =
      spawned-IsSound s b.reactor b.process (spawn b.process.world) v.alive (v.joinable off)
  started-IsSound s (some (thrown b), p) v off = record {
    alive = v.alive;
    joinable = v.joinable;
    set_up = λ e. (b.reactor, refl);
  }

  start-IsSound :
      (s : Server) (p : Process World) → IsSound s → IsSound (start system openssl s p).1
  unfolding start
  start-IsSound s p v =
      let started_now = started system openssl s (init_server system openssl s p) in
      elim (Bool-cases s.running) [
        | inl on ↦ subst (λ b. IsSound (if b then (true, s, p) else started_now).1) (sym on) v
        | inr off ↦
            subst (λ b. IsSound (if b then (true, s, p) else started_now).1) (sym off)
              (started-IsSound s (init_server system openssl s p) v off)
      ]

  stop-IsSound : (s : Server) → IsSound s → IsSound (stop s)
  unfolding stop
  stop-IsSound s v =
      if-holds IsSound s.running (record s { running = false; runner_thread = false }) s
        (record { alive = v.alive; joinable = λ e. refl; set_up = λ e. cc }) v

  wait-IsSound : (s : Server) → IsSound s → IsSound (wait s)
  unfolding wait
  wait-IsSound s v = record { alive = v.alive; joinable = λ e. refl; set_up = v.set_up }

  reload-IsSound :
      (s : Server) (c : ServerConfig) (p : Process World) (r : Option Reactor)
      → IsSound s
      → s.reactor ≡ r
      → IsSound (record s { reactor = (reload_reactor system openssl c r p).0 })
  reload-IsSound s c p none v e = record {
    alive = v.alive;
    joinable = v.joinable;
    set_up = λ on. absurd (missing (v.set_up on));
  }
    where
      missing : (r : Reactor) × (s.reactor ≡ some r) → ⊥
      missing (r, e') = cc (e, e')
  reload-IsSound s c p (some r) v e = record {
    alive = v.alive;
    joinable = v.joinable;
    set_up = λ on. (_, refl);
  }

  perform-IsSound :
      (s : Server) (p : Process World) (c : ServerCall) → IsSound s → IsSound (perform (s, p) c).0
  unfolding perform reload_config
  perform-IsSound s p starts v = start-IsSound s p v
  perform-IsSound s p stops v = stop-IsSound s v
  perform-IsSound s p waits v = wait-IsSound s v
  perform-IsSound s p (reloads c) v = reload-IsSound s c p s.reactor v refl

  run_all-IsSound :
      (cs : List ServerCall) (sp : Server × Process World) → IsSound sp.0 → IsSound (run sp cs).0
  unfolding run
  run_all-IsSound [] sp v = v
  run_all-IsSound (c ∷ cs) (s, p) v =
      run_all-IsSound cs (perform (s, p) c) (perform-IsSound s p c v)

  abbrev stopped : Server → Bool → Server
  stopped s b = if b then record s { running = false; runner_thread = false } else s

  destroy-alive : (s : Server) → IsSound s → (destroy s).terminated ≡ false
  unfolding destroy stop
  destroy-alive s v = elim (Bool-cases s.running) [
    | inl on ↦
        ap (λ b. (stopped s b).terminated || (stopped s b).runner_thread) on ∙ ap₂ ◌||◌ v.alive refl
    | inr off ↦
        ap (λ b. (stopped s b).terminated || (stopped s b).runner_thread) off
        ∙ ap₂ ◌||◌ v.alive (v.joinable off)
  ]

  -- Whatever sequence of starts, stops, waits that return, and reloads a new server goes through,
  -- whether the starts succeed, fail in `Init`, or fail because no thread can be made: no thread is
  -- ever assigned over one that is still to be joined, nor destroyed so with the server, either of
  -- which would end the program; a thread is to be joined only while the server runs, and a running
  -- server has a reactor.
  pub run-IsSound :
      (config : ServerConfig) (p : Process World) (cs : List ServerCall)
      → IsSound (run (new config, p) cs).0
        × ((destroy (run (new config, p) cs).0).terminated ≡ false)
  unfolding new
  run-IsSound config p cs =
      let v =
        run_all-IsSound cs (new config, p)
          (record { alive = refl; joinable = λ e. refl; set_up = λ e. cc }) in
      (v, destroy-alive (run (new config, p) cs).0 v)
