-- ===== src/Security/TlsContext/Contexts.antt =====
-- The contexts of OpenSSL that an object owns.
use network_lirbary.Common.Process.{Process, removed, removed_lem}
use network_lirbary.Common.{
  ℕ, ◌≡◌, refl, sym, ap, subst, if-holds, ◌∙◌, Bool, true, false, List, [], ◌∷◌, ◌++◌, Option, none,
  some, Bytes, arith, ==_iff,
}
use network_lirbary.Security.TlsContext.{
  OpenSsl, SslMode, TlsContext, new, Outcome, init, reload_certificates, destroy, free_held,
  free_context, Request, inits, reloads, serve, serve_all, made, equipped, replaced, swapped,
  is_client, load,
}

abbrev held : Option ℕ → List ℕ
held none = []
held (some i) = i ∷ []

-- Among the contexts that are not freed, these are the object's and then those before it.
abbrev pub Holds : List ℕ → Option ℕ → List ℕ → Type 0
Holds before o now = now ≡ held o ++ before

removed_second : (x y : ℕ) (xs : List ℕ) → removed y (x ∷ y ∷ xs) ≡ x ∷ xs
unfolding removed
removed_second x y xs = ground (arith, ==_iff x y, ==_iff y y)

module _ {World : Type 0} (openssl : OpenSsl World) where
  open openssl use {new_context}

  free_held-Holds :
      (before : List ℕ) (o : Option ℕ) (p : Process World)
      → Holds before o p.contexts
      → (free_held openssl o p).contexts ≡ before
  unfolding free_held free_context
  free_held-Holds before none p h = h
  free_held-Holds before (some i) p h = ap (removed i) h ∙ removed_lem i before

  -- The old context is freed under the new one.
  free_held-under :
      (before : List ℕ) (o : Option ℕ) (i : ℕ) (now : List ℕ) (p : Process World)
      → Holds before o now
      → p.contexts ≡ i ∷ now
      → (free_held openssl o p).contexts ≡ i ∷ before
  unfolding free_held free_context
  free_held-under before none i now p h e = e ∙ ap (◌∷◌ i) h
  free_held-under before (some j) i now p h e =
      ap (removed j) (e ∙ ap (◌∷◌ i) h) ∙ removed_second i j before

  equipped-Holds :
      (before : List ℕ) (mode : SslMode) (cert key : Bytes) (p : Process World)
      (r : Option ℕ × World)
      → p.contexts ≡ before
      → Holds before
          (equipped openssl mode cert key (made openssl p r)).tls.ctx
          (equipped openssl mode cert key (made openssl p r)).process.contexts
  equipped-Holds before mode cert key p (none, w) e = e
  equipped-Holds before mode cert key p (some i, w) e = ap (◌∷◌ i) e

  -- What a reload comes to, for any answer of `new_context`.
  abbrev Swaps : List ℕ → TlsContext → Outcome World → Type 0
  Swaps before t o = Holds before o.tls.ctx o.process.contexts × (o.success ≡ false → o.tls ≡ t)

  swapped-Swaps :
      (before : List ℕ) (t : TlsContext) (i : ℕ) (p : Process World) (r : Bool × World)
      (now : List ℕ)
      → Holds before t.ctx now
      → p.contexts ≡ i ∷ now
      → Swaps before t (swapped openssl t i p r)
  unfolding free_context
  swapped-Swaps before t i p (false, w) now h e =
      (subst (Holds before t.ctx) (sym (ap (removed i) e ∙ removed_lem i now)) h, λ f. refl)
  swapped-Swaps before t i p (true, w) now h e =
      (free_held-under before t.ctx i now (record p { world = w }) h e, λ f. cc)

  replaced-Swaps :
      (before : List ℕ) (t : TlsContext) (cert key : Bytes) (p : Process World)
      (r : Option ℕ × World)
      → Holds before t.ctx p.contexts
      → Swaps before t (replaced openssl t cert key (made openssl p r))
  replaced-Swaps before t cert key p (none, w) h = (h, λ f. refl)
  replaced-Swaps before t cert key p (some i, w) h =
      swapped-Swaps before t i (record p { world = w; contexts = i ∷ p.contexts })
        (load openssl i cert key w) p.contexts h refl

  reload_certificates-Swaps :
      (before : List ℕ) (t : TlsContext) (cert key : Bytes) (p : Process World)
      → Holds before t.ctx p.contexts
      → Swaps before t (reload_certificates openssl t cert key p)
  unfolding reload_certificates
  reload_certificates-Swaps before t cert key p h =
      if-holds (Swaps before t) (is_client t.mode) _ _ (h, λ f. refl)
        (replaced-Swaps before t cert key p (new_context false p.world) h)

  init-Holds :
      (before : List ℕ) (t : TlsContext) (mode : SslMode) (cert key : Bytes) (p : Process World)
      → Holds before t.ctx p.contexts
      → Holds before
          (init openssl t mode cert key p).tls.ctx
          (init openssl t mode cert key p).process.contexts
  unfolding init
  init-Holds before t mode cert key p h =
      equipped-Holds before mode cert key (free_held openssl t.ctx p)
        (new_context (is_client mode) (free_held openssl t.ctx p).world)
        (free_held-Holds before t.ctx p h)

  free_held-binds : (o : Option ℕ) (p : Process World) → (free_held openssl o p).binds ≡ p.binds
  unfolding free_held free_context
  free_held-binds none p = refl
  free_held-binds (some i) p = refl

  equipped-binds :
      (mode : SslMode) (cert key : Bytes) (p : Process World) (r : Option ℕ × World)
      → (equipped openssl mode cert key (made openssl p r)).process.binds ≡ p.binds
  equipped-binds mode cert key p (none, w) = refl
  equipped-binds mode cert key p (some i, w) = refl

  pub init-binds :
      (t : TlsContext) (mode : SslMode) (cert key : Bytes) (p : Process World)
      → (init openssl t mode cert key p).process.binds ≡ p.binds
  unfolding init
  init-binds t mode cert key p =
      equipped-binds mode cert key (free_held openssl t.ctx p)
        (new_context (is_client mode) (free_held openssl t.ctx p).world)
      ∙ free_held-binds t.ctx p

  serve-Holds :
      (before : List ℕ) (t : TlsContext) (p : Process World) (r : Request)
      → Holds before t.ctx p.contexts
      → Holds before (serve openssl t p r).tls.ctx (serve openssl t p r).process.contexts
  unfolding serve
  serve-Holds before t p (inits mode cert key) h = init-Holds before t mode cert key p h
  serve-Holds before t p (reloads cert key) h = (reload_certificates-Swaps before t cert key p h).0

  serve_all-Holds :
      (before : List ℕ) (rs : List Request) (t : TlsContext) (p : Process World)
      → Holds before t.ctx p.contexts
      → Holds before (serve_all openssl t p rs).0.ctx (serve_all openssl t p rs).1.contexts
  unfolding serve_all
  serve_all-Holds before [] t p h = h
  serve_all-Holds before (r ∷ rs) t p h =
      serve_all-Holds before rs (serve openssl t p r).tls (serve openssl t p r).process
        (serve-Holds before t p r h)

  -- A reload that fails leaves the object as it was.
  reload_certificates-keeps :
      (before : List ℕ) (t : TlsContext) (cert key : Bytes) (p : Process World)
      → Holds before t.ctx p.contexts
      → (reload_certificates openssl t cert key p).success ≡ false
      → (reload_certificates openssl t cert key p).tls ≡ t
  reload_certificates-keeps before t cert key p h =
      (reload_certificates-Swaps before t cert key p h).1

  -- After any sequence of `Init` and `ReloadCertificates` on a new object, whatever OpenSSL
  -- answers, the contexts that the process has made and not freed are those from before and the
  -- one that the object holds, if it holds one; destroying the object then leaves exactly those
  -- from before.
  pub serve_all-destroy :
      (rs : List Request) (p : Process World)
      → Holds p.contexts (serve_all openssl new p rs).0.ctx (serve_all openssl new p rs).1.contexts
        × ((destroy openssl (serve_all openssl new p rs).0 (serve_all openssl new p rs).1).contexts
            ≡ p.contexts)
  unfolding new destroy
  serve_all-destroy rs p =
      let h = serve_all-Holds p.contexts rs new p refl in
      (h, free_held-Holds p.contexts (serve_all openssl new p rs).0.ctx _ h)
