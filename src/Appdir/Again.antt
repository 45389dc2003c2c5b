-- ===== src/Appdir/Again.antt =====
-- Init on a directory that is there already.
use mathlib.Core.Path.{subst}
use sprut.Appdir.{
  template, Disk, Source, dir, config_path, certs_dir, logs_dir, cert_path, key_path, make_dir,
  make_dirs, ensure_default_config, write_default_config, exists, generate_self_signed_cert,
  or_error, ensure_certs, init,
}
use sprut.Io.{wrapping, ◌>>=◌}
use sprut.Appdir.Keeping.{
  Keeping, Kept, IsDisk, Kept-refl, All-Kept, and_keeping, wrap_keeping, carry, keep_only,
  pure_keeping,
}
use sprut.Io.Ensures.{Ensures, Ensures-map}
use sprut.Base.{codes, some, ◌&&◌, if◌then◌else◌, Option, refl, [], none, ◌∷◌, ◌≡◌, All, ℕ, List}
use sprut.Io.{Error, err, and_then, ok, wrap_outcome, Outcome}

module _ {S : Type 0} (disk : Disk S) where
  module _ (IsMade : List ℕ → S → Type 0) where
    -- All that Init is to see to.
    pub record IsReady (s : S) : Type 0 where
      pub dirs : All (λ d. IsMade d s) (dir disk ∷ certs_dir disk ∷ logs_dir disk ∷ [])
      pub config : disk.stat (config_path disk) s ≡ none
      pub cert : disk.stat (cert_path disk) s ≡ none
      pub key : disk.stat (key_path disk) s ≡ none

    module _ (os : IsDisk disk IsMade) where
      make_dirs-Keeping :
          (ds : List (List ℕ)) (s : S)
          → Keeping disk IsMade (λ t. All (λ d. IsMade d t) ds) (make_dirs disk ds s) s
      unfolding make_dirs make_dir
      make_dirs-Keeping [] s = (Kept-refl disk IsMade s, tt)
      make_dirs-Keeping (d ∷ ds) s =
          and_keeping disk IsMade (IsMade d) (λ t. IsMade d t × All (λ x. IsMade x t) ds) _
            (make_dirs disk ds) s (made (disk.mkdir_all d s) (os.made d s))
            (λ t kept m.
              carry disk IsMade (IsMade d) (λ u. All (λ x. IsMade x u) ds) (make_dirs disk ds t) t
                (λ u k. k.dirs d m) (make_dirs-Keeping ds t))
        where
          made :
              (o : Outcome S (Unit {0}))
              → Keeping disk IsMade (IsMade d) o s
              → Keeping disk IsMade (IsMade d) (make_dir disk d o) s
          made (ok a t) h = h
          made (err e t) h = tt

      make_dirs_again :
          (ds : List (List ℕ)) (s : S) → All (λ d. IsMade d s) ds → make_dirs disk ds s ≡ ok tt s
      unfolding make_dirs make_dir
      make_dirs_again [] s h = refl
      make_dirs_again (d ∷ ds) s (h, hs) = rw (os.made_already d s h) (make_dirs_again ds s hs)

      IsThere : List ℕ → S → Type 0
      IsThere f t = disk.stat f t ≡ none

      module _ {Key : Type 0} (source : Source Key) where
        generate-Keeping :
            (cert_at key_at : List ℕ) (s : S)
            → Keeping disk IsMade
                (λ t. IsThere cert_at t × IsThere key_at t)
                (generate_self_signed_cert disk source cert_at key_at s)
                s
        unfolding generate_self_signed_cert IsThere
        generate-Keeping cert_at key_at s =
            pure_keeping disk IsMade both _ source.generate_key _ s (λ private_key.
              pure_keeping disk IsMade both _ source.serial_number _ s (λ serial.
                pure_keeping disk IsMade both "create certificate"
                  (source.create_certificate (template disk source serial) private_key) _ s
                  (λ cert_der.
                    and_keeping disk IsMade (IsThere cert_at) both _ _ s
                      (wrap_keeping disk IsMade (IsThere cert_at) _ _ s (os.opened cert_at s))
                      (λ t _ cert.
                        and_keeping disk IsMade (λ _. Unit {0}) both _ _ t
                          (wrap_keeping disk IsMade (λ _. Unit {0}) _ _ t
                            (os.encoded cert_at _ cert_der t))
                          (λ u kept _.
                            carry disk IsMade (IsThere cert_at) (IsThere key_at) _ u
                              (λ v k. k.files cert_at (kept.files cert_at cert))
                              (key_part private_key u))))))
          where
            key_part :
                (private_key : Key) (u : S)
                → Keeping disk IsMade
                    (IsThere key_at)
                    (and_then (wrap_outcome "create key file" (disk.open_truncated key_at u)) (λ _.
                      or_error "marshal private key" (source.marshal_private_key private_key)
                      >>= (λ key_der.
                          wrapping "encode private key"
                            (disk.pem_encode key_at (codes "EC PRIVATE KEY") key_der))))
                    u
            key_part private_key u =
                and_keeping disk IsMade (IsThere key_at) (IsThere key_at) _ _ u
                  (wrap_keeping disk IsMade (IsThere key_at) _ _ u (os.opened key_at u))
                  (λ v _ key.
                    pure_keeping disk IsMade (IsThere key_at) _
                      (source.marshal_private_key private_key) _ v
                      (λ key_der.
                        keep_only disk IsMade (IsThere key_at) (λ _. Unit {0}) _ v
                          (λ w k. k.files key_at key)
                          (wrap_keeping disk IsMade (λ _. Unit {0}) _ _ v
                            (os.encoded key_at _ key_der v))))

            both : S → Type 0
            both t = IsThere cert_at t × IsThere key_at t

        ensure_default_config-Keeping :
            (s : S)
            → Keeping disk IsMade
                (IsThere (config_path disk))
                (ensure_default_config disk source s)
                s
        unfolding ensure_default_config write_default_config exists IsThere
        ensure_default_config-Keeping s = by_stat (disk.stat (config_path disk) s) refl
          where
            by_stat :
                (o : Option Error)
                → disk.stat (config_path disk) s ≡ o
                → Keeping disk IsMade
                    (IsThere (config_path disk))
                    (if exists disk o
                      then ok tt s
                      else write_default_config disk source (config_path disk) s)
                    s
            by_stat none h = (Kept-refl disk IsMade s, h)
            by_stat (some e) h =
                wrap_keeping disk IsMade (IsThere (config_path disk)) _ _ s
                  (os.written (config_path disk) source.default_config_yaml s)

        ensure_certs-Keeping :
            (s : S)
            → Keeping disk IsMade
                (λ t. IsThere (cert_path disk) t × IsThere (key_path disk) t)
                (ensure_certs disk source s)
                s
        unfolding ensure_certs exists IsThere
        ensure_certs-Keeping s =
            by_stat (disk.stat (cert_path disk) s) (disk.stat (key_path disk) s) refl refl
          where
            by_stat :
                (o k : Option Error)
                → disk.stat (cert_path disk) s ≡ o
                → disk.stat (key_path disk) s ≡ k
                → Keeping disk IsMade
                    (λ t. IsThere (cert_path disk) t × IsThere (key_path disk) t)
                    (if exists disk o && exists disk k
                      then ok tt s
                      else generate_self_signed_cert disk source (cert_path disk) (key_path disk) s)
                    s
            by_stat none none h i = (Kept-refl disk IsMade s, (h, i))
            by_stat none (some e) h i = generate-Keeping (cert_path disk) (key_path disk) s
            by_stat (some e) o h i = generate-Keeping (cert_path disk) (key_path disk) s

        -- Init, where it succeeds, has seen to everything.
        init-IsReady : (s : S) → Ensures (λ _ t. IsReady t) (λ _ _. Unit {0}) (init disk source s)
        unfolding init IsThere
        init-IsReady s =
            Ensures-map (λ _ t. Kept disk IsMade s t × Done t) (λ _ t. IsReady t) (λ _ _. Unit {0})
              (λ _ _. Unit {0}) (init disk source s)
              (λ _ t (_, (ds, (config, (cert, key)))). record {
                dirs = ds;
                config = config;
                cert = cert;
                key = key;
              })
              (λ _ _ _. tt)
              (and_keeping disk IsMade Dirs Done _ _ s (make_dirs-Keeping _ s) (λ t _ ds.
                carry disk IsMade Dirs Files _ t
                  (λ u k.
                    All-Kept disk IsMade t u (dir disk ∷ certs_dir disk ∷ logs_dir disk ∷ []) k ds)
                  (and_keeping disk IsMade (IsThere (config_path disk)) Files _ _ t
                    (wrap_keeping disk IsMade (IsThere (config_path disk)) _ _ t
                      (ensure_default_config-Keeping t))
                    (λ u _ c.
                      carry disk IsMade (IsThere (config_path disk)) Certs _ u
                        (λ v k. k.files (config_path disk) c)
                        (wrap_keeping disk IsMade Certs _ _ u (ensure_certs-Keeping u))))))
          where
            Dirs : S → Type 0
            Dirs t = All (λ d. IsMade d t) (dir disk ∷ certs_dir disk ∷ logs_dir disk ∷ [])

            Certs : S → Type 0
            Certs t = IsThere (cert_path disk) t × IsThere (key_path disk) t

            Files : S → Type 0
            Files t = IsThere (config_path disk) t × Certs t

            Done : S → Type 0
            Done t = Dirs t × Files t

        init_again : (s : S) → IsReady s → init disk source s ≡ ok tt s
        unfolding init ensure_default_config ensure_certs exists
        init_again s r = rw (make_dirs_again _ s r.dirs, r.config, r.cert, r.key) refl

      -- Once Init has succeeded, the directories, the configuration, the certificate and the key are there,
      -- and Init once more, whatever keys and clock it finds, succeeds and changes nothing.
      pub init-IsReady_twice :
          {Key Token : Type 0} (first : Source Key) (second : Source Token) (s t : S)
          → init disk first s ≡ ok tt t
          → IsReady t × (init disk second t ≡ ok tt t)
      init-IsReady_twice first second s t e = (ready, init_again second t ready)
        where
          ready : IsReady t
          ready = subst (Ensures (λ _ u. IsReady u) (λ _ _. Unit {0})) e (init-IsReady first s)
