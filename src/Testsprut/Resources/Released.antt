-- ===== src/Testsprut/Resources/Released.antt =====
-- What startNATS and GenerateCerts leave in use.
use sprut.Testsprut.Resources
use sprut.Testsprut.Resources.{
  Rig, generate_certs, in_temp, in_dir, or_removed, written_or_removed, start_nats, mapped_url,
  in_container, or_terminated, test_template,
}
use sprut.Router.Setup.{Host}
use sprut.Io.Ensures.{Ensures, Ensures-and_then}
use sprut.Base.{
  codes, ℕ, List, refl, inr, none, inl, some, ◌⊎◌, Option, true, ◌≡◌, String, Bool, false,
}
use sprut.Io.{and_then, Proc, Outcome, Error}

-- Nothing is in use but what `host` says of the server.
pub record IsFree (host : Host) (rig : Rig) : Type 0 where
  pub no_container : rig.container ≡ false
  pub no_certs : rig.certs_dir ≡ false
  pub same_host : rig.host ≡ host

-- With the container running and the directory of the certificates there or not.
pub record IsUp (certs_dir : Bool) (host : Host) (rig : Rig) : Type 0 where
  pub up : rig.container ≡ true
  pub certs : rig.certs_dir ≡ certs_dir
  pub same_host : rig.host ≡ host

module _ {Key : Type 0} (calls : Resources.Calls Key) where
  -- Nothing is in use but `host`, and a container that came with an error.
  pub record IsLeft (host : Host) (rig : Rig) : Type 0 where
    pub container :
        (rig.container ≡ false) ⊎ ((x : Error) × (calls.generic_container ≡ some (x, true)))
    pub no_certs : rig.certs_dir ≡ false
    pub same_host : rig.host ≡ host

  or_removed-IsUp :
      {A : Type 0} (context : String) (o : Error ⊎ A) (h : Host) (rig : Rig)
      → IsUp true h rig
      → Ensures (λ _ r. IsUp true h r) (λ _ r. IsUp false h r) (or_removed context o rig)
  unfolding or_removed
  or_removed-IsUp context (inl e) h rig u = record {
    up = u.up;
    certs = refl;
    same_host = u.same_host;
  }
  or_removed-IsUp context (inr a) h rig u = u

  written_or_removed-IsUp :
      (context : String) (o : Option Error) (h : Host) (rig : Rig)
      → IsUp true h rig
      → Ensures (λ _ r. IsUp true h r) (λ _ r. IsUp false h r) (written_or_removed context o rig)
  unfolding written_or_removed
  written_or_removed-IsUp context (some e) h rig u = record {
    up = u.up;
    certs = refl;
    same_host = u.same_host;
  }
  written_or_removed-IsUp context none h rig u = u

  -- GenerateCerts leaves its directory only with the files in it.
  pub generate_certs-IsUp :
      (h : Host) (rig : Rig)
      → IsUp false h rig
      → Ensures (λ _ r. IsUp true h r) (λ _ r. IsUp false h r) (generate_certs calls rig)
  unfolding generate_certs in_temp in_dir
  generate_certs-IsUp h rig u = by_temp calls.mkdir_temp
    where
      and_up :
          {A B : Type 0} (o : Outcome Rig A) (f : A → Proc Rig B)
          → Ensures (λ _ r. IsUp true h r) (λ _ r. IsUp false h r) o
          → ((a : A) (r : Rig)
              → IsUp true h r
              → Ensures (λ _ s. IsUp true h s) (λ _ s. IsUp false h s) (f a r))
          → Ensures (λ _ r. IsUp true h r) (λ _ r. IsUp false h r) (and_then o f)
      and_up o f =
          Ensures-and_then (λ _ r. IsUp true h r) (λ _ r. IsUp true h r) (λ _ r. IsUp false h r) o f

      by_temp :
          (o : Error ⊎ List ℕ)
          → Ensures (λ _ r. IsUp true h r) (λ _ r. IsUp false h r) (in_temp calls o rig)
      by_temp (inl e) = u
      by_temp (inr dir) =
          and_up _ _
            (or_removed-IsUp "generate key" calls.generate_key h (record rig { certs_dir = true })
              (record { up = u.up; certs = refl; same_host = u.same_host }))
            (λ priv r1 u1.
              and_up _ _
                (or_removed-IsUp "create certificate"
                  (calls.create_certificate (test_template calls) priv) h r1 u1)
                (λ der r2 u2.
                  and_up _ _
                    (written_or_removed-IsUp "write cert file"
                      (calls.write_file (calls.join dir (codes "cert.pem"))
                        (calls.encode_to_memory (codes "CERTIFICATE") der))
                      h r2 u2)
                    (λ _ r3 u3.
                      and_up _ _
                        (or_removed-IsUp "marshal private key" (calls.marshal_private_key priv) h r3
                          u3)
                        (λ kb r4 u4.
                          and_up _ _
                            (written_or_removed-IsUp "write key file"
                              (calls.write_file (calls.join dir (codes "key.pem"))
                                (calls.encode_to_memory (codes "EC PRIVATE KEY") kb))
                              h r4 u4)
                            (λ _ r5 u5. u5)))))

  or_terminated-IsUp :
      {A : Type 0} (context : String) (o : Error ⊎ A) (h : Host) (rig : Rig)
      → IsUp false h rig
      → Ensures (λ _ r. IsUp false h r) (λ _ r. IsLeft h r) (or_terminated context o rig)
  unfolding or_terminated
  or_terminated-IsUp context (inl e) h rig u = record {
    container = inl refl;
    no_certs = u.certs;
    same_host = u.same_host;
  }
  or_terminated-IsUp context (inr a) h rig u = u

  -- startNATS leaves its container only where it gives its URL, or where it came with an error.
  pub start_nats-IsUp :
      (h : Host) (rig : Rig)
      → IsFree h rig
      → Ensures (λ _ r. IsUp false h r) (λ _ r. IsLeft h r) (start_nats calls rig)
  unfolding start_nats in_container mapped_url
  start_nats-IsUp h rig f = by_container calls.generic_container refl
    where
      by_container :
          (o : Option (Error × Bool))
          → calls.generic_container ≡ o
          → Ensures (λ _ r. IsUp false h r) (λ _ r. IsLeft h r) (in_container calls o rig)
      by_container (some (e, true)) g = record {
        container = inr (e, g);
        no_certs = f.no_certs;
        same_host = f.same_host;
      }
      by_container (some (e, false)) g = record {
        container = inl refl;
        no_certs = f.no_certs;
        same_host = f.same_host;
      }
      by_container none g =
          Ensures-and_then (λ _ r. IsUp false h r) (λ _ r. IsUp false h r) (λ _ r. IsLeft h r) _ _
            (or_terminated-IsUp "get NATS host" calls.container_host h
              (record rig { container = true })
              (record { up = refl; certs = f.no_certs; same_host = f.same_host }))
            (λ host r1 u1.
              Ensures-and_then (λ _ r. IsUp false h r) (λ _ r. IsUp false h r) (λ _ r. IsLeft h r) _
                _ (or_terminated-IsUp "get NATS port" calls.mapped_port h r1 u1) (λ port r2 u2. u2))
