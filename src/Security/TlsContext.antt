-- ===== src/Security/TlsContext.antt =====
-- `TlsContext` of lib_network/src/security/tls_context.cc: an OpenSSL context, made for a mode with
-- a certificate, and replaced when the certificates are reloaded. Each call holds the mutex; the
-- codes and messages of failures are left out.
pub mod Contexts
mod Tests
use network_lirbary.Common.Process.{Process, removed}
use network_lirbary.Common.Text.{is_empty}
use network_lirbary.Common.{
  ℕ, Bool, true, false, not, ◌&&◌, ◌||◌, if◌then◌else◌, List, [], ◌∷◌, Option, none, some, Bytes,
}

-- OpenSSL. The context of a client or of a server; the other calls take a context.
pub record OpenSsl (World : Type 0) : Type 0 where
  pub new_context : Bool → World → Option ℕ × World
  pub use_certificate : ℕ → Bytes → World → Bool × World
  pub use_private_key : ℕ → Bytes → World → Bool × World
  pub check_private_key : ℕ → World → Bool × World
  pub free : ℕ → World → World

pub data SslMode : Type 0 where
  server client : SslMode

abbrev pub is_client : SslMode → Bool
is_client client = true
is_client server = false

pub record TlsContext : Type 0 where
  pub ctx : Option ℕ
  pub mode : SslMode

unfoldable pub new : TlsContext
new = record { ctx = none; mode = server }

-- Whether a call succeeded, the context and the process after it.
pub record Outcome (World : Type 0) : Type 0 where
  pub success : Bool
  pub tls : TlsContext
  pub process : Process World

-- The calls on one object.
pub data Request : Type 0 where
  inits : SslMode → Bytes → Bytes → Request
  reloads : Bytes → Bytes → Request

module _ {World : Type 0} (openssl : OpenSsl World) where
  open openssl use {new_context, use_certificate, use_private_key, check_private_key, free}

  pub free_context : ℕ → Process World → Process World
  free_context i p = record p { world = free i p.world; contexts = removed i p.contexts }

  unfoldable pub free_held : Option ℕ → Process World → Process World
  free_held none p = p
  free_held (some i) p = free_context i p

  abbrev made : Process World → Option ℕ × World → Option ℕ × Process World
  made p (none, w) = (none, record p { world = w })
  made p (some i, w) = (some i, record p { world = w; contexts = i ∷ p.contexts })

  -- The chain, the key, and whether they match; the calls end at the first that fails.
  unfoldable pub load : ℕ → Bytes → Bytes → World → Bool × World
  load i cert key w =
      let (certified, w1) = use_certificate i cert w in
      let (keyed, w2) = use_private_key i key w1 in
      let (matching, w3) = check_private_key i w2 in
      if not certified then (false, w1) else if not keyed then (false, w2) else (matching, w3)

  -- Whether files are named. A server must have both, a client may.
  abbrev named : Bytes → Bytes → Bool
  named cert key = not (is_empty cert) && not (is_empty key)

  unfoldable pub equip : SslMode → ℕ → Bytes → Bytes → World → Bool × World
  equip server i cert key w = if named cert key then load i cert key w else (false, w)
  equip client i cert key w = if named cert key then load i cert key w else (true, w)

  abbrev equipped : SslMode → Bytes → Bytes → Option ℕ × Process World → Outcome World
  equipped mode cert key (none, p) = record {
    success = false;
    tls = record { ctx = none; mode = mode };
    process = p;
  }
  equipped mode cert key (some i, p) = record {
    success = (equip mode i cert key p.world).0;
    tls = record { ctx = some i; mode = mode };
    process = record p { world = (equip mode i cert key p.world).1 };
  }

  unfoldable pub init : TlsContext → SslMode → Bytes → Bytes → Process World → Outcome World
  init t mode cert key p =
      let p1 = free_held t.ctx p in
      equipped mode cert key (made p1 (new_context (is_client mode) p1.world))

  -- A new context that is complete takes the place of the old one, any other is freed.
  abbrev swapped : TlsContext → ℕ → Process World → Bool × World → Outcome World
  swapped t i p (false, w) = record {
    success = false;
    tls = t;
    process = free_context i (record p { world = w });
  }
  swapped t i p (true, w) = record {
    success = true;
    tls = record t { ctx = some i };
    process = free_held t.ctx (record p { world = w });
  }

  abbrev replaced : TlsContext → Bytes → Bytes → Option ℕ × Process World → Outcome World
  replaced t cert key (none, p) = record { success = false; tls = t; process = p }
  replaced t cert key (some i, p) = swapped t i p (load i cert key p.world)

  pub reload_certificates : TlsContext → Bytes → Bytes → Process World → Outcome World
  reload_certificates t cert key p =
      if is_client t.mode
      then record { success = false; tls = t; process = p }
      else replaced t cert key (made p (new_context false p.world))

  -- `~TlsContext`
  pub destroy : TlsContext → Process World → Process World
  destroy t p = free_held t.ctx p

  pub serve : TlsContext → Process World → Request → Outcome World
  serve t p (inits mode cert key) = init t mode cert key p
  serve t p (reloads cert key) = reload_certificates t cert key p

  pub serve_all : TlsContext → Process World → List Request → TlsContext × Process World
  serve_all t p [] = (t, p)
  serve_all t p (r ∷ rs) = serve_all (serve t p r).tls (serve t p r).process rs
