-- ===== src/Client/Options/Last.antt =====
-- The options of which the last one counts.
use sprut.Client.Options.{
  default_local_addr, with_keys, with_write_timeout, with_read_buf_size, with_dial_timeout,
  default_config, with_root_cas, with_on_error, with_local_addr, apply_options, with_tls_config,
  with_server_name, ConnectConfig, ConnectOption, apply_option,
}
use sprut.Base.{refl, codes, ap, ◌∙◌, pos, ℤ, arith, none, some, Option, ℕ, List, [], ◌∷◌, ◌≡◌}
use sprut.Identity.{KeyPair}

given : {X : Type 0} → Option X → X → X
given none d = d
given (some x) d = x

module _ {Full Pool Handler : Type 0} where
  -- What the last option that picks a value picks, or `d` where there is none.
  unfoldable pub last_of :
      {X : Type 0}
      → (ConnectOption Full Pool Handler → Option X)
      → X
      → List (ConnectOption Full Pool Handler)
      → X
  unfolding given
  last_of pick d [] = d
  last_of pick d (o ∷ opts) = last_of pick (given (pick o) d) opts

  -- Where each option puts what it picks with one, `get` is after all options what the last one picked.
  get-last_of :
      {X : Type 0} (pick : ConnectOption Full Pool Handler → Option X)
      (get : ConnectConfig Full Pool Handler → X)
      → ((o : ConnectOption Full Pool Handler) (c : ConnectConfig Full Pool Handler)
          → get (apply_option o c) ≡ given (pick o) (get c))
      → (opts : List (ConnectOption Full Pool Handler)) (c : ConnectConfig Full Pool Handler)
      → get (apply_options opts c) ≡ last_of pick (get c) opts
  unfolding apply_options last_of
  get-last_of pick get step [] c = refl
  get-last_of pick get step (o ∷ opts) c =
      get-last_of pick get step opts (apply_option o c) ∙ ap (λ d. last_of pick d opts) (step o c)

  abbrev pub keys_of : ConnectOption Full Pool Handler → Option (KeyPair)
  keys_of (with_keys x) = some x
  keys_of _ = none

  abbrev pub tls_config_of : ConnectOption Full Pool Handler → Option (Option Full)
  tls_config_of (with_tls_config x) = some x
  tls_config_of _ = none

  abbrev pub on_error_of : ConnectOption Full Pool Handler → Option (Option Handler)
  on_error_of (with_on_error x) = some x
  on_error_of _ = none

  abbrev pub dial_timeout_of : ConnectOption Full Pool Handler → Option (ℕ)
  dial_timeout_of (with_dial_timeout x) = some x
  dial_timeout_of _ = none

  abbrev pub read_buf_size_of : ConnectOption Full Pool Handler → Option (ℤ)
  read_buf_size_of (with_read_buf_size x) = some x
  read_buf_size_of _ = none

  abbrev pub write_timeout_of : ConnectOption Full Pool Handler → Option (ℤ)
  write_timeout_of (with_write_timeout x) = some x
  write_timeout_of _ = none

  abbrev pub root_cas_of : ConnectOption Full Pool Handler → Option (Option Pool)
  root_cas_of (with_root_cas x) = some x
  root_cas_of _ = none

  abbrev pub server_name_of : ConnectOption Full Pool Handler → Option (List ℕ)
  server_name_of (with_server_name x) = some x
  server_name_of _ = none

  abbrev pub local_addr_of : ConnectOption Full Pool Handler → Option (Option (List ℕ))
  local_addr_of (with_local_addr x) = some x
  local_addr_of _ = none

  keys-given :
      (o : ConnectOption Full Pool Handler) (c : ConnectConfig Full Pool Handler)
      → (apply_option o c).keys ≡ given (keys_of o) c.keys
  unfolding apply_option given
  keys-given o c = ground arith

  tls_config-given :
      (o : ConnectOption Full Pool Handler) (c : ConnectConfig Full Pool Handler)
      → (apply_option o c).tls_config ≡ given (tls_config_of o) c.tls_config
  unfolding apply_option given
  tls_config-given o c = ground arith

  on_error-given :
      (o : ConnectOption Full Pool Handler) (c : ConnectConfig Full Pool Handler)
      → (apply_option o c).on_error ≡ given (on_error_of o) c.on_error
  unfolding apply_option given
  on_error-given o c = ground arith

  dial_timeout-given :
      (o : ConnectOption Full Pool Handler) (c : ConnectConfig Full Pool Handler)
      → (apply_option o c).dial_timeout ≡ given (dial_timeout_of o) c.dial_timeout
  unfolding apply_option given
  dial_timeout-given o c = ground arith

  read_buf_size-given :
      (o : ConnectOption Full Pool Handler) (c : ConnectConfig Full Pool Handler)
      → (apply_option o c).read_buf_size ≡ given (read_buf_size_of o) c.read_buf_size
  unfolding apply_option given
  read_buf_size-given o c = ground arith

  write_timeout-given :
      (o : ConnectOption Full Pool Handler) (c : ConnectConfig Full Pool Handler)
      → (apply_option o c).write_timeout ≡ given (write_timeout_of o) c.write_timeout
  unfolding apply_option given
  write_timeout-given o c = ground arith

  root_cas-given :
      (o : ConnectOption Full Pool Handler) (c : ConnectConfig Full Pool Handler)
      → (apply_option o c).root_cas ≡ given (root_cas_of o) c.root_cas
  unfolding apply_option given
  root_cas-given o c = ground arith

  server_name-given :
      (o : ConnectOption Full Pool Handler) (c : ConnectConfig Full Pool Handler)
      → (apply_option o c).server_name ≡ given (server_name_of o) c.server_name
  unfolding apply_option given
  server_name-given o c = ground arith

  local_addr-given :
      (o : ConnectOption Full Pool Handler) (c : ConnectConfig Full Pool Handler)
      → (apply_option o c).local_addr ≡ given (local_addr_of o) c.local_addr
  unfolding apply_option given
  local_addr-given o c = ground arith

  -- A configuration in which every field of one value has that of the last option for it, or the
  -- default: the keys made for it, 127.0.0.1, ten seconds to dial, thirty to write, and a hundred
  -- messages.
  pub record IsLast (opts : List (ConnectOption Full Pool Handler)) (generated : KeyPair)
      (c : ConnectConfig Full Pool Handler) : Type 0 where
    pub keys : c.keys ≡ last_of keys_of generated opts
    pub tls_config : c.tls_config ≡ last_of tls_config_of none opts
    pub on_error : c.on_error ≡ last_of on_error_of none opts
    pub dial_timeout : c.dial_timeout ≡ last_of dial_timeout_of 10000000000 opts
    pub read_buf_size : c.read_buf_size ≡ last_of read_buf_size_of (pos 100) opts
    pub write_timeout : c.write_timeout ≡ last_of write_timeout_of (pos 30000000000) opts
    pub root_cas : c.root_cas ≡ last_of root_cas_of none opts
    pub server_name : c.server_name ≡ last_of server_name_of [] opts
    pub local_addr : c.local_addr ≡ last_of local_addr_of (some (codes "127.0.0.1")) opts

  pub apply_options-IsLast :
      (opts : List (ConnectOption Full Pool Handler)) (generated : KeyPair)
      → IsLast opts generated (apply_options opts (default_config generated))
  unfolding default_config default_local_addr
  apply_options-IsLast opts generated = record {
    keys = get-last_of keys_of (λ c. c.keys) keys-given opts (default_config generated);
    tls_config =
        get-last_of tls_config_of (λ c. c.tls_config) tls_config-given opts
          (default_config generated);
    on_error =
        get-last_of on_error_of (λ c. c.on_error) on_error-given opts (default_config generated);
    dial_timeout =
        get-last_of dial_timeout_of (λ c. c.dial_timeout) dial_timeout-given opts
          (default_config generated);
    read_buf_size =
        get-last_of read_buf_size_of (λ c. c.read_buf_size) read_buf_size-given opts
          (default_config generated);
    write_timeout =
        get-last_of write_timeout_of (λ c. c.write_timeout) write_timeout-given opts
          (default_config generated);
    root_cas =
        get-last_of root_cas_of (λ c. c.root_cas) root_cas-given opts (default_config generated);
    server_name =
        get-last_of server_name_of (λ c. c.server_name) server_name-given opts
          (default_config generated);
    local_addr =
        get-last_of local_addr_of (λ c. c.local_addr) local_addr-given opts
          (default_config generated);
  }
