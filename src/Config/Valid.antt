-- ===== src/Config/Valid.antt =====
-- Exactly the configurations that Validate accepts.
use sprut.Config.{validate, missing_or, is_empty_list, check, check_file, Config}
use sprut.Base.{
  ap, ltb, arith, not, some, zero, refl, none, true, suc, negsuc, ◌↔◌, ◌∷◌, String, [], ◌≤◌, false,
  ◌||◌, ◌≡◌, ◌++◌, Option, pos, ◌<ℤ◌, ℕ, Bool, List, ℤ,
}
use sprut.Io.{Error}

abbrev pub IsPositive : ℤ → Type 0
IsPositive z = (n : ℕ) × (z ≡ pos (suc n))

append-empty : (xs ys : List Error) → (xs ++ ys ≡ []) → (xs ≡ []) × (ys ≡ [])
append-empty [] ys h = (refl, h)
append-empty (x ∷ xs) ys h = cc

empty-append : (xs ys : List Error) → xs ≡ [] → ys ≡ [] → xs ++ ys ≡ []
empty-append xs ys h k = cc

check_iff : (b : Bool) (e : Error) → (check b e ≡ []) ↔ (b ≡ false)
unfolding check
check_iff true e = (λ h. cc, λ h. cc)
check_iff false e = (λ h. refl, λ h. refl)

check_file_iff :
    (stat : List ℕ → Option Error) (a b : String) (path : List ℕ)
    → (check_file stat a b path ≡ []) ↔ ((is_empty_list path ≡ false) × (stat path ≡ none))
unfolding check_file
check_file_iff stat a b [] = (λ h. cc, λ (h, k). cc)
check_file_iff stat a b (x ∷ xs) = by_stat (stat (x ∷ xs))
  where
    by_stat : (o : Option Error) → (missing_or b o ≡ []) ↔ (◌≡◌ {A = Bool} false false × (o ≡ none))
    by_stat none = (λ h. (refl, refl), λ h. refl)
    by_stat (some e) = (λ h. cc, λ (h, k). cc)

port_low : (n : ℕ) → ((ltb n 1 || ltb 65535 n) ≡ false) → (1 ≤ n) × (n ≤ 65535)
port_low n h = ground arith

port_within : (n : ℕ) → 1 ≤ n → n ≤ 65535 → (ltb n 1 || ltb 65535 n) ≡ false
port_within n lo hi = ground arith

port_iff :
    (z : ℤ)
    → ((z <ℤ pos 1 || pos 65535 <ℤ z) ≡ false) ↔ ((n : ℕ) × (z ≡ pos n) × (1 ≤ n) × (n ≤ 65535))
port_iff (pos n) = (
  λ h. let (lo, hi) = port_low n h in (n, refl, lo, hi),
  λ (m, e, lo, hi). let same : n ≡ m = cc in port_within n (omega arith) (omega arith),
)
port_iff (negsuc n) = (λ h. cc, λ (m, e, lo, hi). cc)

suc_below : (n : ℕ) → ltb (suc n) 1 ≡ false
suc_below n = ground arith

suc_above : (n : ℕ) → ltb 0 (suc n) ≡ true
suc_above n = ground arith

at_least_one_iff : (z : ℤ) → ((z <ℤ pos 1) ≡ false) ↔ IsPositive z
at_least_one_iff (pos zero) = (λ h. cc, λ (n, e). cc)
at_least_one_iff (pos (suc n)) = (λ h. (n, refl), λ h. suc_below n)
at_least_one_iff (negsuc n) = (λ h. cc, λ (m, e). cc)

above_zero_iff : (z : ℤ) → (not (pos 0 <ℤ z) ≡ false) ↔ IsPositive z
above_zero_iff (pos zero) = (λ h. cc, λ (n, e). cc)
above_zero_iff (pos (suc n)) = (λ h. (n, refl), λ h. ap not (suc_above n))
above_zero_iff (negsuc n) = (λ h. cc, λ (m, e). cc)

-- What the configuration must have.
pub record IsValid {Float : Type 0} (stat : List ℕ → Option Error) (c : Config Float) : Type 0 where
  pub port : (n : ℕ) × (c.server.port ≡ pos n) × (1 ≤ n) × (n ≤ 65535)
  pub server_id : is_empty_list c.server.server_id ≡ false
  pub cert_file : (is_empty_list c.tls.cert_file ≡ false) × (stat c.tls.cert_file ≡ none)
  pub key_file : (is_empty_list c.tls.key_file ≡ false) × (stat c.tls.key_file ≡ none)
  pub urls : is_empty_list c.nats.urls ≡ false
  pub max_connections : IsPositive c.limits.max_connections
  pub max_message_size : IsPositive c.limits.max_message_size
  pub auth_timeout : IsPositive c.limits.auth_timeout
  pub challenge_ttl : IsPositive c.limits.challenge_ttl

-- Validate reports no error for exactly the configurations that have a port from 1 to 65535, a server
-- id, existing certificate and key files, a NATS address, and positive limits and times.
pub validate_iff :
    {Float : Type 0} (stat : List ℕ → Option Error) (c : Config Float)
    → (validate stat c ≡ []) ↔ IsValid stat c
unfolding validate
validate_iff stat c = (
  λ h.
      let (e1, h1) = append-empty _ _ h in
      let (e2, h2) = append-empty _ _ h1 in
      let (e3, h3) = append-empty _ _ h2 in
      let (e4, h4) = append-empty _ _ h3 in
      let (e5, h5) = append-empty _ _ h4 in
      let (e6, h6) = append-empty _ _ h5 in
      let (e7, h7) = append-empty _ _ h6 in
      let (e8, e9) = append-empty _ _ h7 in
      record {
        port = (port_iff c.server.port).0 ((check_iff _ _).0 e1);
        server_id = (check_iff _ _).0 e2;
        cert_file = (check_file_iff stat _ _ c.tls.cert_file).0 e3;
        key_file = (check_file_iff stat _ _ c.tls.key_file).0 e4;
        urls = (check_iff _ _).0 e5;
        max_connections = (at_least_one_iff c.limits.max_connections).0 ((check_iff _ _).0 e6);
        max_message_size = (at_least_one_iff c.limits.max_message_size).0 ((check_iff _ _).0 e7);
        auth_timeout = (above_zero_iff c.limits.auth_timeout).0 ((check_iff _ _).0 e8);
        challenge_ttl = (above_zero_iff c.limits.challenge_ttl).0 ((check_iff _ _).0 e9);
      },
  λ v. empty-append _ _ ((check_iff _ _).1 ((port_iff c.server.port).1 v.port)) (
      empty-append _ _ ((check_iff _ _).1 v.server_id) (
        empty-append _ _ ((check_file_iff stat _ _ c.tls.cert_file).1 v.cert_file) (
          empty-append _ _ ((check_file_iff stat _ _ c.tls.key_file).1 v.key_file) (
            empty-append _ _ ((check_iff _ _).1 v.urls) (
              empty-append _ _
                ((check_iff _ _).1
                  ((at_least_one_iff c.limits.max_connections).1 v.max_connections))
                (empty-append _ _
                  ((check_iff _ _).1
                    ((at_least_one_iff c.limits.max_message_size).1 v.max_message_size))
                  (empty-append _ _
                    ((check_iff _ _).1 ((above_zero_iff c.limits.auth_timeout).1 v.auth_timeout))
                    ((check_iff _ _).1
                      ((above_zero_iff c.limits.challenge_ttl).1 v.challenge_ttl))))))))),
)
