-- ===== src/Broker/Connection.antt =====
-- pkg/broker/broker.go and pkg/broker/subscriber.go. The calls of the NATS client are parameters by
-- their results.
use sprut.Broker.Subject.{subject_for_client}
use sprut.Base.{none, codes, [], ◌++◌, ℤ, some, ◌∷◌, ℕ, Option, List}
use sprut.Io.{wrap_text, wrap, Error}

-- Config.
pub record BrokerConfig : Type 0 where
  pub urls : List (List ℕ)
  pub reconnect_wait : ℤ
  pub max_reconnects : ℤ

-- strings.Join(urls, ",")
unfoldable pub join_urls : List (List ℕ) → List ℕ
join_urls [] = []
join_urls (url ∷ []) = url
join_urls (url ∷ next ∷ rest) = url ++ (codes "," ++ join_urls (next ∷ rest))

-- The address of New; `default_url` is nats.DefaultURL.
unfoldable pub broker_url : List ℕ → List (List ℕ) → List ℕ
unfolding join_urls
broker_url default_url [] = default_url
broker_url default_url (url ∷ rest) = join_urls (url ∷ rest)

unfoldable pub connect_result : Option Error → Option Error
connect_result none = none
connect_result (some e) = some (wrap "connect to NATS" e)

-- New, by its error; `connect` is nats.Connect at an address, with the wait and the number of
-- reconnects.
unfoldable pub new_broker : List ℕ → (List ℕ → ℤ → ℤ → Option Error) → BrokerConfig → Option Error
unfolding connect_result broker_url
new_broker default_url connect cfg =
    connect_result (connect (broker_url default_url cfg.urls) cfg.reconnect_wait cfg.max_reconnects)

subscribed_or : List ℕ → Option Error → Option Error
subscribed_or subject none = none
subscribed_or subject (some e) = some (wrap_text "subscribe to %s" subject e)

-- NewSubscriber, by its error.
unfoldable pub new_subscriber : (List ℕ → Option Error) → List ℕ → Option Error
unfolding subscribed_or
new_subscriber subscribe pub_key_hex =
    let subject = subject_for_client pub_key_hex in subscribed_or subject (subscribe subject)
