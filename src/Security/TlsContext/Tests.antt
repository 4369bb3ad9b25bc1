-- ===== src/Security/TlsContext/Tests.antt =====
-- An OpenSSL that numbers its contexts, and takes the files that are named "a".
use network_lirbary.Common.Dict.{bytes_eq}
use network_lirbary.Common.Process.{Process, removed}
use network_lirbary.Common.Text.{codes}
use network_lirbary.Common.{ℕ, suc, ◌≡◌, refl, true, List, [], ◌∷◌, some}
use network_lirbary.Security.TlsContext.Contexts.{Holds, serve_all-destroy}
use network_lirbary.Security.TlsContext.{
  OpenSsl, server, new, init, reload_certificates, destroy, Request, inits, reloads, serve,
  serve_all, load, free_context, free_held, equip,
}

abbrev openssl : OpenSsl ℕ
openssl = record {
  new_context = λ b w. (some w, suc w);
  use_certificate = λ i file w. (bytes_eq file (codes "a"), w);
  use_private_key = λ i file w. (bytes_eq file (codes "a"), w);
  check_private_key = λ i w. (true, w);
  free = λ i w. w;
}

abbrev process : Process ℕ
process = record { world = 1; opened = []; binds = []; contexts = [] }

-- A reload that succeeds, and one of a missing file.
abbrev requests : List Request
requests =
    inits server (codes "a") (codes "a") ∷ reloads (codes "a") (codes "a") ∷ reloads [] [] ∷ []

-- The second context is left.
serve_all_lem : (serve_all openssl new process requests).1.contexts ≡ 2 ∷ []
unfolding serve_all serve init reload_certificates new bytes_eq removed load free_context free_held
    equip
serve_all_lem = refl

serve_all-destroy_example :
    Holds []
      (serve_all openssl new process requests).0.ctx
      (serve_all openssl new process requests).1.contexts
    × ((destroy openssl
          (serve_all openssl new process requests).0
          (serve_all openssl new process requests).1).contexts
        ≡ [])
serve_all-destroy_example = serve_all-destroy openssl requests process
