-- ===== src/Router/Server/Orphan.antt =====
-- A client that reconnects while its old connection is still winding down.
use sprut.Router.Server.{
  leaving, start, replace, release, create, remove, accept, later, initial, serving, handler,
  server, Server, Handler, Reachable, store, delete, loaded,
}
use sprut.Base.{◌++◌, ==_refl, suc, ◌∷◌, List, [], ℕ}

-- One client is served on the connections b and c, and only the peer of a was closed.
abbrev pub doubly_served : ℕ → ℕ → ℕ → ℕ → ℕ → Server
doubly_served n id a b c =
    server n (handler c (serving id) ∷ handler b (serving id) ∷ []) ((id, c) ∷ []) (a ∷ a ∷ [])

-- A handler that gets to serving its id.
module _ (capacity id : ℕ) where
  registered :
      (s n : ℕ) (hs : List Handler) (ps : List (ℕ × ℕ)) (cl : List ℕ)
      → Reachable capacity (server (suc n) hs ps cl)
      → Reachable capacity
          (server n (handler s (serving id) ∷ hs) (store id s (delete id ps)) (loaded id ps ++ cl))
  registered s n hs ps cl r =
      later
        (later (later (later r (accept s n hs ps cl)) (create s id n [] hs ps cl))
          (replace s id n [] hs ps cl))
        (start s id n [] hs (delete id ps) (loaded id ps ++ cl))

-- With room for two connections, a client that connects, reconnects, and connects once more after its
-- first handler has ended is served on its second and its third connection at once, and Close was
-- called on the first one's peer only: the deferred Delete of the first handler takes the second
-- connection's entry out of the map, so that the third finds nothing to close.
pub doubly_served-Reachable : (n id a b c : ℕ) → Reachable (suc (suc n)) (doubly_served n id a b c)
unfolding store loaded delete
doubly_served-Reachable n id a b c = registered (suc (suc n)) id c n _ _ _ ended
  where
    first : Reachable (suc (suc n)) (server (suc n) (handler a (serving id) ∷ []) ((id, a) ∷ []) [])
    first = registered (suc (suc n)) id a (suc n) [] [] [] initial

    second :
        Reachable
          (suc (suc n))
          (server n (handler b (serving id) ∷ handler a (serving id) ∷ []) ((id, b) ∷ []) (a ∷ []))
    second = rw (==_refl id) at (registered (suc (suc n)) id b n _ _ _ first)

    removed :
        Reachable
          (suc (suc n))
          (server n (handler b (serving id) ∷ handler a leaving ∷ []) [] (a ∷ []))
    removed = rw (==_refl id) at (later second (remove a id n (handler b (serving id) ∷ []) [] _ _))

    ended : Reachable (suc (suc n)) (server (suc n) (handler b (serving id) ∷ []) [] (a ∷ a ∷ []))
    ended = later removed (release a n (handler b (serving id) ∷ []) [] _ _)
